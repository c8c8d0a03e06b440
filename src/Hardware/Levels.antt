-- ===== src/Hardware/Levels.antt =====
-- A mask of one pin, applied to the input register, picks the level of the pin.
use native.Mathlib.Nat.{mod-eq_of_lt, pow-le-pow_right, pow-suc, one-le-pow}
use not.Prelude.{
  ℕ, suc, ◌^◌, ◌<◌, ◌≤◌, ◌≡◌, ◌⊎◌, arith, negate, to_bit, ◌==◌, bit, bit-lt, bit_and, bit_and-pow,
}
use not.Hardware.{pin_mask}

pub pin_mask_lem : (pin : ℕ) → pin < 32 → pin_mask pin ≡ 2 ^ pin
pin_mask_lem pin h =
    let top : 2 ^ suc pin ≤ 2 ^ 32 = pow-le-pow_right (omega arith) h in
    mod-eq_of_lt (omega (arith, pow-suc 2 pin, one-le-pow pin 2))

pub bit-cases : (x k : ℕ) → (bit x k ≡ 0) ⊎ (bit x k ≡ 1)
bit-cases x k = ground (arith, bit-lt x k)

-- The level of a pin as a number, read with the mask `2 ^ pin` or with `pin_mask`.
pub mask_level : (x pin : ℕ) → to_bit (negate (bit_and x (2 ^ pin) == 0)) ≡ bit x pin
mask_level x pin = ground (arith, bit_and-pow x pin, bit-lt x pin, one-le-pow pin 2)

pub level_lem : (x pin : ℕ) → pin < 32 → to_bit (negate (bit_and x (pin_mask pin) == 0)) ≡ bit x pin
level_lem x pin h = rw (pin_mask_lem pin h) (mask_level x pin)
