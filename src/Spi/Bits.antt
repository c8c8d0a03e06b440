-- ===== src/Spi/Bits.antt =====
-- The bits that the loop of `spi_xfer_byte_bb_ch32` sends, and the byte it puts together.
use native.Mathlib.Nat.{mod-eq_of_lt, pow-le-pow_right, pow-suc, one-le-pow}
use not.Prelude.{
  ℕ, zero, suc, ◌+◌, ◌*◌, ◌/◌, ◌%◌, ◌^◌, ◌<◌, ◌≤◌, ◌==◌, ◌≡◌, refl, sym, ap, ◌∙◌, arith, Bool, List,
  ◌∷◌, bit, bit-lt, bit_or, bit_or-low, bit_and-pow, bit_u8,
}
use not.Hardware.{u8}
use not.Hardware.Wires.{clocked}
use not.Spi.{top_bit, spi_mask}
use not.Spi.Slave.{high}

pub mask_lem : (pin : ℕ) → pin < 16 → spi_mask pin ≡ 2 ^ pin
mask_lem pin h =
    let top : 2 ^ suc pin ≤ 2 ^ 16 = pow-le-pow_right (omega arith) h in
    mod-eq_of_lt (omega (arith, pow-suc 2 pin, one-le-pow pin 2))

high-top_bit : (x : ℕ) → high (top_bit x) ≡ (bit x 7 == 1)
unfolding top_bit
high-top_bit x = ground (arith, bit_and-pow x 7, bit-lt x 7)

-- The bit that each round sends, as the loop computes it.
abbrev pub sent : ℕ → ℕ → List Bool → List Bool
sent zero out acc = acc
sent (suc n) out acc = sent n (u8 (out * 2)) (high (top_bit out) ∷ acc)

bit-double : (x k : ℕ) → suc k < 8 → bit (u8 (x * 2)) (suc k) ≡ bit x k
bit-double x k h =
    let half : x * 2 / 2 ≡ x = omega arith in bit_u8 (x * 2) (suc k) h ∙ ap (λ y. bit y k) half

sent_from :
    (n s x y : ℕ) (acc : List Bool)
    → s + n ≡ 8
    → ((k : ℕ) → k < n → bit y (s + k) ≡ bit x k)
    → sent n y acc ≡ clocked n x acc
sent_from zero s x y acc size same = refl
sent_from (suc n) s x y acc size same =
    let place : s + n ≡ 7 = omega arith in
    let here : high (top_bit y) ≡ (bit x n == 1) =
      high-top_bit y
      ∙ ap (λ k. bit y k == 1) (sym place)
      ∙ ap (λ b. b == 1) (same n (omega arith)) in
    ap (λ b. sent n (u8 (y * 2)) (b ∷ acc)) here
    ∙ sent_from n (suc s) x (u8 (y * 2)) ((bit x n == 1) ∷ acc) (omega arith) (λ k h.
      let shift : suc s + k ≡ suc (s + k) = omega arith in
      ap (bit (u8 (y * 2))) shift ∙ bit-double y (s + k) (omega arith) ∙ same k (omega arith))

pub sent_lem : (out : ℕ) (acc : List Bool) → sent 8 out acc ≡ clocked 8 out acc
sent_lem out acc =
    sent_from 8 0 out out acc (omega arith)
      (λ k h. let same : 0 + k ≡ k = omega arith in ap (bit out) same)

-- What is left of a byte above its low `n` bits.
abbrev pub upper : ℕ → ℕ → ℕ
upper zero x = x
upper (suc n) x = upper n x / 2

upper-half : (n x : ℕ) → upper n (x / 2) ≡ upper n x / 2
upper-half zero x = refl
upper-half (suc n) x = ap (λ (y : ℕ). y / 2) (upper-half n x)

bit-upper : (n x : ℕ) → bit x n ≡ upper n x % 2
bit-upper zero x = refl
bit-upper (suc n) x = bit-upper n (x / 2) ∙ ap (λ (y : ℕ). y % 2) (upper-half n x)

upper_le : (n x : ℕ) → upper n x ≤ x
upper_le zero x = omega arith
upper_le (suc n) x = omega (arith, upper_le n x)

bit_or_zero : (n x : ℕ) → x ≤ n → bit_or x 0 ≡ x
bit_or_zero zero x h = let e : x ≡ 0 = omega arith in rw e refl
bit_or_zero (suc n) zero h = refl
bit_or_zero (suc n) (suc x) h =
    omega (arith, bit_or-low (suc x) 0, bit_or_zero n (suc x / 2) (omega arith))

-- One more bit behind those that are there.
pub next_bit : (n x : ℕ) → x < 256 → u8 (bit_or (upper (suc n) x * 2) (bit x n)) ≡ upper n x
next_bit n x h =
    let y = upper n x in
    let half : y / 2 * 2 / 2 ≡ y / 2 = omega arith in
    let none_left : bit x n / 2 ≡ 0 = omega (arith, bit-lt x n) in
    let joined : bit_or (y / 2 * 2) (bit x n) ≡ y = omega (
      arith,
      bit_or-low (y / 2 * 2) (bit x n),
      ap (λ z. bit_or z (bit x n / 2)) half,
      ap (bit_or (y / 2)) none_left,
      bit_or_zero (y / 2) (y / 2) (omega arith),
      bit-upper n x,
    ) in
    omega (arith, joined, upper_le n x)

pub upper-8 : (x : ℕ) → x < 256 → upper 8 x ≡ 0
upper-8 x h = omega arith
