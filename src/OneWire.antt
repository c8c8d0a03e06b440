-- ===== src/OneWire.antt =====
-- User/Features/src/one_wire.c: the 1-Wire time slots, with the delays of its header.
mod Tests
pub mod Slots
use not.Prelude.{ℕ, ◌==◌, bit_and, negate, to_bit}
use not.Hardware.{gpio_a, bshr, bcr, delay_us, Hw, Dev, ◌>>=◌, ◌>>◌, pure, emit, read_port}

unfoldable pub one_wire_write0 : ℕ → Dev (Unit {0})
one_wire_write0 mask = do
  emit (bcr gpio_a mask)
  emit (delay_us 60)
  emit (bshr gpio_a mask)
  emit (delay_us 10)

unfoldable pub one_wire_write1 : ℕ → Dev (Unit {0})
one_wire_write1 mask = do
  emit (bcr gpio_a mask)
  emit (delay_us 6)
  emit (bshr gpio_a mask)
  emit (delay_us 64)

module _ (hw : Hw) where
  -- The result is 1 when a device answers.
  unfoldable pub one_wire_reset : ℕ → Dev ℕ
  one_wire_reset mask = do
    emit (delay_us 0)
    emit (bcr gpio_a mask)
    emit (delay_us 480)
    emit (bshr gpio_a mask)
    emit (delay_us 70)
    indr ← read_port hw gpio_a
    emit (delay_us 410)
    pure (to_bit (bit_and indr mask == 0))

  unfoldable pub one_wire_read : ℕ → Dev ℕ
  one_wire_read mask = do
    emit (bcr gpio_a mask)
    emit (delay_us 6)
    emit (bshr gpio_a mask)
    emit (delay_us 9)
    indr ← read_port hw gpio_a
    emit (delay_us 55)
    pure (to_bit (negate (bit_and indr mask == 0)))
