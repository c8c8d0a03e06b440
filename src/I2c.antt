-- ===== src/I2c.antt =====
-- User/Features/src/i2c.c: the I2C master on two open-drain pins of port A.
pub mod Frame
pub mod Bus
pub mod Steps
mod Byte
pub mod Receive
mod Tests
use not.Prelude.{
  ℕ, zero, suc, ◌+◌, ◌-◌, ◌*◌, ◌^◌, ◌==◌, ltb, bit_and, bit_or, if◌then◌else◌, negate, to_bit, Bool,
  true, false, List, [], ◌∷◌,
}
use not.Hardware.{
  gpio_a, bshr, bcr, Hw, Dev, ◌>>=◌, ◌>>◌, pure, emit, delay_nops, pin_mask, pin_is_high, u8, u32,
}

unfoldable pub i2c_start : ℕ → ℕ → ℕ → Dev (Unit {0})
i2c_start sda scl delay = do
  emit (bshr gpio_a (pin_mask sda))
  delay_nops delay
  emit (bshr gpio_a (pin_mask scl))
  delay_nops delay
  emit (bcr gpio_a (pin_mask sda))
  delay_nops delay
  emit (bcr gpio_a (pin_mask scl))
  delay_nops delay

unfoldable pub i2c_send_bit : ℕ → ℕ → ℕ → ℕ → Dev (Unit {0})
i2c_send_bit sda scl bit delay = do
  if bit == 0 then emit (bcr gpio_a (pin_mask sda)) else emit (bshr gpio_a (pin_mask sda))
  delay_nops delay
  emit (bshr gpio_a (pin_mask scl))
  delay_nops delay
  emit (bcr gpio_a (pin_mask scl))
  delay_nops delay

-- The loop over the bits, from bit `n - 1` down to bit 0.
unfoldable pub send_bits : ℕ → ℕ → ℕ → ℕ → ℕ → Dev (Unit {0})
send_bits sda scl zero byte delay = pure tt
send_bits sda scl (suc n) byte delay = do
  i2c_send_bit sda scl (bit_and byte (2 ^ n)) delay
  send_bits sda scl n byte delay

unfoldable pub i2c_stop : ℕ → ℕ → ℕ → Dev (Unit {0})
i2c_stop sda scl delay = do
  emit (bshr gpio_a (pin_mask scl))
  delay_nops delay
  emit (bshr gpio_a (pin_mask sda))
  delay_nops delay

module _ (hw : Hw) where
  -- `i2c_send_byte`; the result is `ack`.
  unfoldable pub i2c_send_byte : ℕ → ℕ → ℕ → ℕ → Dev ℕ
  i2c_send_byte sda scl byte delay = do
    send_bits sda scl 8 byte delay
    emit (bshr gpio_a (pin_mask sda))
    delay_nops delay
    emit (bshr gpio_a (pin_mask scl))
    delay_nops delay
    high ← pin_is_high hw gpio_a sda
    emit (bcr gpio_a (pin_mask scl))
    delay_nops delay
    emit (bshr gpio_a (pin_mask sda))
    pure (to_bit (negate high))

  unfoldable pub i2c_recv_bit : ℕ → ℕ → ℕ → Dev ℕ
  i2c_recv_bit sda scl delay = do
    emit (bshr gpio_a (pin_mask sda))
    delay_nops delay
    emit (bshr gpio_a (pin_mask scl))
    delay_nops delay
    high ← pin_is_high hw gpio_a sda
    emit (bcr gpio_a (pin_mask scl))
    delay_nops delay
    pure (to_bit high)

  -- The loop of `i2c_recv_byte`, from bit `n - 1` down to bit 0.
  unfoldable pub recv_bits : ℕ → ℕ → ℕ → ℕ → ℕ → Dev ℕ
  recv_bits sda scl zero buffer delay = pure buffer
  recv_bits sda scl (suc n) buffer delay = do
    bit ← i2c_recv_bit sda scl delay
    recv_bits sda scl n (u8 (bit_or buffer (bit * 2 ^ n))) delay

  unfoldable pub i2c_recv_byte : ℕ → ℕ → Bool → ℕ → Dev ℕ
  i2c_recv_byte sda scl ack delay = do
    buffer ← recv_bits sda scl 8 0 delay
    emit (bshr gpio_a (pin_mask sda))
    delay_nops delay
    emit (bcr gpio_a (u32 (to_bit ack * 2 ^ sda)))
    delay_nops delay
    emit (bshr gpio_a (pin_mask scl))
    delay_nops delay
    emit (bcr gpio_a (pin_mask scl))
    delay_nops delay
    emit (bshr gpio_a (u32 (to_bit ack * 2 ^ sda)))
    pure buffer

  unfoldable pub i2c_scan_address : ℕ → ℕ → ℕ → ℕ → Dev ℕ
  i2c_scan_address sda scl address delay = do
    i2c_start sda scl delay
    ack ← i2c_send_byte sda scl (u8 (address * 2)) delay
    i2c_stop sda scl delay
    pure ack

  -- The loop that sends the bytes of a buffer; the acknowledgements are not looked at.
  unfoldable pub send_all : ℕ → ℕ → List ℕ → ℕ → Dev (Unit {0})
  send_all sda scl [] delay = pure tt
  send_all sda scl (b ∷ bs) delay = do i2c_send_byte sda scl b delay; send_all sda scl bs delay

  -- The loop that receives `left` bytes: each but the last is acknowledged, `i < len-1`.
  unfoldable pub recv_all : ℕ → ℕ → ℕ → ℕ → Dev (List ℕ)
  recv_all sda scl zero delay = pure []
  recv_all sda scl (suc left) delay = do
    b ← i2c_recv_byte sda scl (ltb 0 left) delay
    bs ← recv_all sda scl left delay
    pure (b ∷ bs)

  unfoldable pub stop_if : ℕ → ℕ → ℕ → ℕ → Dev (Unit {0})
  stop_if sda scl stop delay = if stop == 0 then pure tt else i2c_stop sda scl delay

  unfoldable pub i2c_send_bytes : ℕ → ℕ → ℕ → List ℕ → ℕ → ℕ → Dev (Unit {0})
  i2c_send_bytes sda scl address buffer stop delay = do
    i2c_start sda scl delay
    i2c_send_byte sda scl address delay
    send_all sda scl buffer delay
    stop_if sda scl stop delay

  unfoldable pub i2c_recv_bytes : ℕ → ℕ → ℕ → ℕ → ℕ → ℕ → Dev (List ℕ)
  i2c_recv_bytes sda scl address len stop delay = do
    i2c_start sda scl delay
    i2c_send_byte sda scl (bit_or address 1) delay
    buffer ← recv_all sda scl len delay
    stop_if sda scl stop delay
    pure buffer

  unfoldable pub i2c_send_recv_bytes : ℕ → ℕ → ℕ → List ℕ → ℕ → ℕ → ℕ → Dev (List ℕ)
  i2c_send_recv_bytes sda scl address out_buffer in_len stop delay = do
    i2c_start sda scl delay
    i2c_send_byte sda scl address delay
    send_all sda scl out_buffer delay
    i2c_start sda scl delay
    i2c_send_byte sda scl (bit_or address 1) delay
    buffer ← recv_all sda scl in_len delay
    stop_if sda scl stop delay
    pure buffer
