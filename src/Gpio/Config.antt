-- ===== src/Gpio/Config.antt =====
-- What the configuration of a pin changes in gpio.c: the pin's own four bits.
use native.Mathlib.Nat.{pow-le-pow_right, mod-eq_of_lt}
use not.Prelude.{
  ℕ, zero, suc, ◌+◌, ◌-◌, ◌*◌, ◌^◌, ◌≤◌, ◌<◌, ◌≡◌, ◌⊎◌, inl, inr, refl, ◌∙◌, ap, min, max, bit_and,
  arith, bit, bit-bit_and, bit-bit_or, bit-complement, bit-shift, bit-shift_below, bit_above,
  bit-lt,
}
use not.Gpio.{put_nibble}

-- A nibble at one of the eight places of a register fits 32 bits.
nibble-lt : (pos nib : ℕ) → pos ≤ 28 → nib < 16 → nib * 2 ^ pos < 2 ^ 32
nibble-lt pos nib hp hn =
    let top : 2 ^ pos ≤ 2 ^ 28 = pow-le-pow_right (omega arith) hp in grind arith

all_ones : (j : ℕ) → j < 4 → bit 15 j ≡ 1
all_ones zero h = refl
all_ones (suc zero) h = refl
all_ones (suc (suc zero)) h = refl
all_ones (suc (suc (suc zero))) h = refl
all_ones (suc (suc (suc (suc j)))) h = absurd (omega arith)

-- Away from its place a shifted nibble has no bit.
shifted_away : (nib pos k : ℕ) → nib < 16 → (k < pos) ⊎ (pos + 4 ≤ k) → bit (nib * 2 ^ pos) k ≡ 0
shifted_away nib pos k small (inl below) = bit-shift_below nib pos k below
shifted_away nib pos k small (inr above) =
    let e : k ≡ pos + (k - pos) = omega arith in
    ap (bit (nib * 2 ^ pos)) e
    ∙ bit-shift nib pos (k - pos)
    ∙ bit_above nib 4 (k - pos) small (omega arith)

module _ (reg pos nib : ℕ) (place : pos ≤ 28) (small : nib < 16) where
  bit-put_nibble :
      (k : ℕ)
      → k < 32
      → bit (put_nibble reg pos nib) k
        ≡ max (min (bit reg k) (1 - bit (15 * 2 ^ pos) k)) (bit (nib * 2 ^ pos) k)
  unfolding put_nibble
  bit-put_nibble k h =
      let mask = nibble-lt pos 15 place (omega arith) in
      let word = nibble-lt pos nib place small in
      rw (mod-eq_of_lt mask, mod-eq_of_lt word)
        (omega (
          arith,
          bit-bit_or (bit_and reg (2 ^ 32 - 1 - 15 * 2 ^ pos)) (nib * 2 ^ pos) k,
          bit-bit_and reg (2 ^ 32 - 1 - 15 * 2 ^ pos) k,
          bit-complement 32 (15 * 2 ^ pos) k mask h,
        ))

  -- The four bits at the place are those of the mode.
  pub put_nibble_inside : (j : ℕ) → j < 4 → bit (put_nibble reg pos nib) (pos + j) ≡ bit nib j
  put_nibble_inside j h = omega (
    arith,
    bit-put_nibble (pos + j) (omega arith),
    bit-shift 15 pos j,
    bit-shift nib pos j,
    all_ones j h,
  )

  -- All other bits of the register stay.
  pub put_nibble_outside :
      (k : ℕ) → k < 32 → (k < pos) ⊎ (pos + 4 ≤ k) → bit (put_nibble reg pos nib) k ≡ bit reg k
  put_nibble_outside k h away = omega (
    arith,
    bit-put_nibble k h,
    shifted_away 15 pos k (omega arith) away,
    shifted_away nib pos k small away,
    bit-lt reg k,
  )
