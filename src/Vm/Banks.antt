-- ===== src/Vm/Banks.antt =====
-- What the bank instructions of execute.c write to the output register, pin by pin.
use not.Prelude.{
  ℕ, ◌+◌, ◌*◌, ◌^◌, ◌<◌, ◌≡◌, refl, arith, true, List, ◌∷◌, min, max, bit, bit-lt, bit_and,
  bit-bit_and, bit-bit_or, bit-shift, bit-shift_below, ltb, leb, ◌==◌, ◌&&◌, if◌then◌else◌,
  holds_below, holds_below_sound, to_bit,
}
use not.Hardware.{Hw, gpio_a, outdr}
use not.Vm.State.{Vm, ok, load, operand_x, advance}
use not.Vm.Shift.{bank_a_value, bank_d_value, exec_write_bank_a, exec_write_bank_d}

mask_table :
    holds_below 32 (λ k.
      bit 0xFFFFFFF0 k == to_bit (leb 4 k)
      && bit 0xFFFFFF0F k == (if ltb k 4 then 1 else to_bit (leb 8 k))
      && bit 0xFF k == to_bit (ltb k 8))
    ≡ true
unfolding holds_below
mask_table = refl

record Masks (k : ℕ) : Type 0 where
  a : bit 0xFFFFFFF0 k ≡ to_bit (leb 4 k)
  d : bit 0xFFFFFF0F k ≡ (if ltb k 4 then 1 else to_bit (leb 8 k))
  byte : bit 0xFF k ≡ to_bit (ltb k 8)

masks : (k : ℕ) → k < 32 → Masks k
masks k h =
    let row : (bit 0xFFFFFFF0 k == to_bit (leb 4 k)
          && bit 0xFFFFFF0F k == (if ltb k 4 then 1 else to_bit (leb 8 k))
          && bit 0xFF k == to_bit (ltb k 8))
        ≡ true =
      holds_below_sound 32
        (λ k.
          bit 0xFFFFFFF0 k == to_bit (leb 4 k)
          && bit 0xFFFFFF0F k == (if ltb k 4 then 1 else to_bit (leb 8 k))
          && bit 0xFF k == to_bit (ltb k 8))
        k h mask_table in
    record { a = ground arith; d = ground arith; byte = ground arith }

bit-bank_a :
    (old r k : ℕ)
    → k < 32
    → bit (bank_a_value old r) k
      ≡ max (min (bit old k) (to_bit (leb 4 k))) (min (bit r k) (to_bit (ltb k 8)))
unfolding bank_a_value
bit-bank_a old r k h =
    let m = masks k h in
    omega (
      arith,
      bit-bit_or (bit_and old 0xFFFFFFF0) (bit_and r 0xFF) k,
      bit-bit_and old 0xFFFFFFF0 k,
      bit-bit_and r 0xFF k,
      m.a,
      m.byte,
    )

bit-bank_d_low :
    (old r k : ℕ) → k < 8 → bit (bank_d_value old r) k ≡ min (bit old k) (to_bit (ltb k 4))
unfolding bank_d_value
bit-bank_d_low old r k h =
    let m = masks k (omega arith) in
    let shifted = bit-shift_below (bit_and r 0xFF) 8 k h in
    let kept = bit-bit_and old 0xFFFFFF0F k in
    let both = bit-bit_or (bit_and old 0xFFFFFF0F) (bit_and r 0xFF * 2 ^ 8) k in
    ground (arith, m.d, shifted, kept, both)

bit-bank_d_high :
    (old r j : ℕ)
    → j < 24
    → bit (bank_d_value old r) (8 + j) ≡ max (bit old (8 + j)) (min (bit r j) (to_bit (ltb j 8)))
unfolding bank_d_value
bit-bank_d_high old r j h =
    let m = masks (8 + j) (omega arith) in
    let low = masks j (omega arith) in
    let shifted = bit-shift (bit_and r 0xFF) 8 j in
    let value = bit-bit_and r 0xFF j in
    let kept = bit-bit_and old 0xFFFFFF0F (8 + j) in
    let both = bit-bit_or (bit_and old 0xFFFFFF0F) (bit_and r 0xFF * 2 ^ 8) (8 + j) in
    ground (arith, m.d, low.byte, shifted, value, kept, both, bit-lt old (8 + j))

module _ (hw : Hw) (code : List ℕ) (s : Vm) (reg r : ℕ) (operand : operand_x code s ≡ ok reg)
    (value : load s.registers reg ≡ ok r) where
  -- WRITE_BANK_A writes one value to the output register of port A. On pins 0 to 3 it is the
  -- register's byte; pins 4 to 7 are set where the byte or the old output has a 1, so that a 0 of
  -- the byte does not clear them; pins 8 and up keep their output.
  write_bank_a_lem :
      (k : ℕ)
      → k < 32
      → let old = hw.read_outdr gpio_a s.trace in
        let new = bank_a_value old r in
        (exec_write_bank_a hw code s ≡ ok (advance s (outdr gpio_a new ∷ s.trace)))
        × (bit new k ≡ (
            if ltb k 4 then bit r k else if ltb k 8 then max (bit old k) (bit r k) else bit old k))
  unfolding exec_write_bank_a
  write_bank_a_lem k h =
      let old = hw.read_outdr gpio_a s.trace in
      (rw (operand, value) refl, ground (arith, bit-bank_a old r k h, bit-lt old k, bit-lt r k))

  -- WRITE_BANK_D clears pins 4 to 7, which are not of its bank, whatever the byte is, and sets
  -- pins 8 to 15 where the byte or the old output has a 1; pins 0 to 3 keep their output.
  write_bank_d_lem :
      (k : ℕ)
      → k < 8
      → let old = hw.read_outdr gpio_a s.trace in
        let new = bank_d_value old r in
        (exec_write_bank_d hw code s ≡ ok (advance s (outdr gpio_a new ∷ s.trace)))
        × (bit new k ≡ (if ltb k 4 then bit old k else 0))
        × (bit new (8 + k) ≡ max (bit old (8 + k)) (bit r k))
  unfolding exec_write_bank_d
  write_bank_d_lem k h =
      let old = hw.read_outdr gpio_a s.trace in
      (
        rw (operand, value) refl,
        ground (arith, bit-bank_d_low old r k h, bit-lt old k),
        ground (arith, bit-bank_d_high old r k, bit-lt r k),
      )

  -- The two writes of a bank each put one value into the output register of port A. WRITE_BANK_A: pins
  -- 0 to 3 are the register's byte, pins 4 to 7 are set where the byte or the old output has a 1,
  -- so that a 0 does not clear them, and pins 8 and up keep their output. WRITE_BANK_D clears
  -- pins 4 to 7, which are not of its bank, whatever the byte is, sets pins 8 to 15 where the
  -- byte or the old output has a 1, and keeps pins 0 to 3.
  pub write_banks_lem :
      (k j : ℕ)
      → k < 32
      → j < 8
      → let old = hw.read_outdr gpio_a s.trace in
        let a = bank_a_value old r in
        let d = bank_d_value old r in
        ((exec_write_bank_a hw code s ≡ ok (advance s (outdr gpio_a a ∷ s.trace)))
          × (bit a k ≡ (
              if ltb k 4
              then bit r k
              else if ltb k 8
              then max (bit old k) (bit r k)
              else bit old k)))
        × ((exec_write_bank_d hw code s ≡ ok (advance s (outdr gpio_a d ∷ s.trace)))
            × (bit d j ≡ (if ltb j 4 then bit old j else 0))
            × (bit d (8 + j) ≡ max (bit old (8 + j)) (bit r j)))
  write_banks_lem k j h l = (write_bank_a_lem k h, write_bank_d_lem j l)
