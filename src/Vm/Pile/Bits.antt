-- ===== src/Vm/Pile/Bits.antt =====
-- The piles of execute.c as arrays of 2048 bits.
use native.Mathlib.Nat.{pow-le-pow_right, mod-eq_of_lt, pow-suc}
use native.Mathlib.Decide.{ℕ_discrete}
use not.Prelude.{
  to_bit, sym, ℕ, suc, ◌-◌, ◌*◌, ◌/◌, ◌%◌, ◌^◌, ◌≤◌, ◌<◌, ◌≡◌, ◌≢◌, ap, ◌∙◌, arith, min, max,
  bit_and, bit_or, Bool, true, false, List, get_or, set, length, length-set, get_or-set_self,
  get_or-set_ne, get_elem?-eq-get_or, get_elem?-none, bit, bit-lt, bit_u8, bit-bit_and, bit-bit_or,
  bit-complement, bit-pow_self, bit-pow_ne, bit_and-pow,
}
use not.Vm.State.{ok, fault}
use not.Vm.Pile.{write_bit, put_bit, get_bit}

-- Bit `i` of a pile.
abbrev pub bit_at : List ℕ → ℕ → ℕ
bit_at pile i = bit (get_or pile (i / 8) 0) (i % 8)

pow-lt : (p : ℕ) → p < 8 → 2 ^ p < 2 ^ 8
pow-lt p h =
    let top : 2 ^ suc p ≤ 2 ^ 8 = pow-le-pow_right (omega arith) h in omega (arith, pow-suc 2 p)

-- The masks of `write_bit` with the conversions to `uint8_t` left out.
write_bit-true : (b p : ℕ) → p < 8 → write_bit b p true ≡ bit_or b (2 ^ p) % 2 ^ 8
unfolding write_bit
write_bit-true b p h = rw (mod-eq_of_lt (pow-lt p h))

write_bit-false : (b p : ℕ) → p < 8 → write_bit b p false ≡ bit_and b (2 ^ 8 - 1 - 2 ^ p) % 2 ^ 8
unfolding write_bit
write_bit-false b p h = rw (mod-eq_of_lt (pow-lt p h))

bit-write_bit-true :
    (b p k : ℕ) → p < 8 → k < 8 → bit (write_bit b p true) k ≡ max (bit b k) (bit (2 ^ p) k)
bit-write_bit-true b p k hp hk =
    ap (λ x. bit x k) (write_bit-true b p hp)
    ∙ bit_u8 (bit_or b (2 ^ p)) k hk
    ∙ bit-bit_or b (2 ^ p) k

bit-write_bit-false :
    (b p k : ℕ) → p < 8 → k < 8 → bit (write_bit b p false) k ≡ min (bit b k) (1 - bit (2 ^ p) k)
bit-write_bit-false b p k hp hk =
    ap (λ x. bit x k) (write_bit-false b p hp)
    ∙ bit_u8 (bit_and b (2 ^ 8 - 1 - 2 ^ p)) k hk
    ∙ bit-bit_and b (2 ^ 8 - 1 - 2 ^ p) k
    ∙ ap (min (bit b k)) (bit-complement 8 (2 ^ p) k (pow-lt p hp) hk)

bit-write_bit_self : (b p : ℕ) (v : Bool) → p < 8 → bit (write_bit b p v) p ≡ to_bit v
bit-write_bit_self b p true h =
    omega (arith, bit-write_bit-true b p p h h, bit-pow_self p, bit-lt b p)
bit-write_bit_self b p false h = omega (arith, bit-write_bit-false b p p h h, bit-pow_self p)

bit-write_bit_ne :
    (b p k : ℕ) (v : Bool) → p < 8 → k < 8 → k ≢ p → bit (write_bit b p v) k ≡ bit b k
bit-write_bit_ne b p k true hp hk ne =
    omega (arith, bit-write_bit-true b p k hp hk, bit-pow_ne p k ne)
bit-write_bit_ne b p k false hp hk ne =
    omega (arith, bit-write_bit-false b p k hp hk, bit-pow_ne p k ne, bit-lt b k)

pub put_bit_eq :
    (pile : List ℕ) (i : ℕ) (v : Bool)
    → i < length pile * 8
    → put_bit pile i v ≡ ok (set pile (i / 8) (write_bit (get_or pile (i / 8) 0) (i % 8) v))
unfolding put_bit
put_bit_eq pile i v h =
    let inside : i / 8 < length pile = omega arith in
    ground (arith, get_elem?-eq-get_or pile (i / 8) 0 inside)

pub put_bit_out :
    (pile : List ℕ) (i : ℕ) (v : Bool) → length pile * 8 ≤ i → put_bit pile i v ≡ fault
unfolding put_bit
put_bit_out pile i v h = rw (get_elem?-none pile (i / 8) (omega arith))

bit_at-set_ne :
    (pile : List ℕ) (i j : ℕ) (v : Bool)
    → i / 8 < length pile
    → j ≢ i
    → bit_at (set pile (i / 8) (write_bit (get_or pile (i / 8) 0) (i % 8) v)) j ≡ bit_at pile j
bit_at-set_ne pile i j v inside ne = elim (ℕ_discrete (j / 8) (i / 8)) [
  | yes same ↦
      let other : j % 8 ≢ i % 8 = λ e. ne (omega arith) in
      let written =
        get_or-set_self pile (i / 8) (write_bit (get_or pile (i / 8) 0) (i % 8) v) 0 inside in
      rw (same, written)
        (bit-write_bit_ne (get_or pile (i / 8) 0) (i % 8) (j % 8) v (omega arith) (omega arith)
          other)
  | no away ↦
      let kept =
        get_or-set_ne pile (i / 8) (j / 8) (write_bit (get_or pile (i / 8) 0) (i % 8) v) 0
          (λ e. away (sym e)) in
      ap (λ b. bit b (j % 8)) kept
]

-- A push writes its own bit and no other, and keeps the size of the pile.
pub put_bit_lem :
    (pile : List ℕ) (i : ℕ) (v : Bool)
    → i < length pile * 8
    → (pile' : List ℕ) × (put_bit pile i v ≡ ok pile')
      × (length pile' ≡ length pile)
      × (bit_at pile' i ≡ to_bit v)
      × ((j : ℕ) → j ≢ i → bit_at pile' j ≡ bit_at pile j)
put_bit_lem pile i v h =
    let inside : i / 8 < length pile = omega arith in
    let b = write_bit (get_or pile (i / 8) 0) (i % 8) v in
    let written : get_or (set pile (i / 8) b) (i / 8) 0 ≡ b =
      get_or-set_self pile (i / 8) b 0 inside in
    (
      set pile (i / 8) b,
      put_bit_eq pile i v h,
      length-set pile (i / 8) b,
      ap (λ x. bit x (i % 8)) written
          ∙ bit-write_bit_self (get_or pile (i / 8) 0) (i % 8) v (omega arith),
      λ j. bit_at-set_ne pile i j v inside,
    )

-- A pop sees a bit as a number that is zero exactly when the bit is.
pub get_bit_lem :
    (pile : List ℕ) (i : ℕ)
    → i < length pile * 8
    → get_bit pile i ≡ ok (bit_at pile i * 2 ^ (i % 8))
unfolding get_bit
get_bit_lem pile i h =
    let inside : i / 8 < length pile = omega arith in
    rw (get_elem?-eq-get_or pile (i / 8) 0 inside, bit_and-pow)
