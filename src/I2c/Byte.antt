-- ===== src/I2c/Byte.antt =====
-- The byte that `i2c_recv_byte` puts together, bit by bit.
use not.Prelude.{
  ℕ, suc, ◌+◌, ◌-◌, ◌*◌, ◌/◌, ◌%◌, ◌^◌, ◌<◌, ◌≤◌, ◌≡◌, sym, ap, ◌∙◌, arith, max, inl, inr, ◌⊎◌, bit,
  bit-lt, bit-zero, bit-shift, bit-shift_below, bit_or, bit-bit_or, bit_u8, bit_ext,
}
use not.Hardware.{u8}

-- The bits of `buffer` from bit `n` up are those of `reply`, and the others are 0.
pub record HasUpper (n buffer reply : ℕ) : Type 0 where
  pub is_byte : buffer < 256
  pub there : (k : ℕ) → k < 8 → n ≤ k → bit buffer k ≡ bit reply k
  pub empty : (k : ℕ) → k < n → bit buffer k ≡ 0

single_here : (b k : ℕ) → b < 2 → bit (b * 2 ^ k) k ≡ b
single_here b k h =
    let same : k + 0 ≡ k = omega arith in
    let low : b % 2 ≡ b = omega arith in ap (bit (b * 2 ^ k)) (sym same) ∙ bit-shift b k 0 ∙ low

single_above : (b n k : ℕ) → b < 2 → n < k → bit (b * 2 ^ n) k ≡ 0
single_above b n k h lt =
    let same : k ≡ n + suc (k - n - 1) = omega arith in
    let half : b / 2 ≡ 0 = omega arith in
    ap (bit (b * 2 ^ n)) same
    ∙ bit-shift b n (suc (k - n - 1))
    ∙ ap (λ x. bit x (k - n - 1)) half
    ∙ bit-zero (k - n - 1)

module _ (n buffer reply : ℕ) (fits : suc n ≤ 8) (h : HasUpper (suc n) buffer reply) where
  abbrev grown : ℕ
  grown = u8 (bit_or buffer (bit reply n * 2 ^ n))

  grown-bit : (k : ℕ) → k < 8 → bit grown k ≡ max (bit buffer k) (bit (bit reply n * 2 ^ n) k)
  grown-bit k lt =
      bit_u8 (bit_or buffer (bit reply n * 2 ^ n)) k lt ∙ bit-bit_or buffer (bit reply n * 2 ^ n) k

  pub grown-HasUpper : HasUpper n grown reply
  grown-HasUpper = record {
    is_byte = omega arith;
    there = λ k lt le. elim (same_or_above k le) [
      | inl e ↦ omega (
        arith,
        grown-bit k lt,
        h.empty k (omega arith),
        ap (λ i. bit (bit reply n * 2 ^ n) i) e,
        single_here (bit reply n) n (bit-lt reply n),
        ap (bit reply) e,
      )
      | inr above ↦ omega (
        arith,
        grown-bit k lt,
        h.there k lt above,
        single_above (bit reply n) n k (bit-lt reply n) above,
      )
    ];
    empty = λ k lt. omega (
      arith,
      grown-bit k (omega arith),
      h.empty k (omega arith),
      bit-shift_below (bit reply n) n k lt,
    );
  }
    where
      same_or_above : (k : ℕ) → n ≤ k → (k ≡ n) ⊎ (n < k)
      same_or_above k le = ground arith

pub start-HasUpper : (reply : ℕ) → HasUpper 8 0 reply
start-HasUpper reply = record {
  is_byte = omega arith;
  there = λ k lt le. absurd (omega arith);
  empty = λ k lt. bit-zero k;
}

pub whole_lem : (buffer reply : ℕ) → reply < 256 → HasUpper 0 buffer reply → buffer ≡ reply
whole_lem buffer reply small h =
    bit_ext 8 buffer reply h.is_byte small (λ k lt. h.there k lt (omega arith))
