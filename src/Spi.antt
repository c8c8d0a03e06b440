-- ===== src/Spi.antt =====
-- User/Features/src/spi.c: the SPI master on three pins of port A.
pub mod Slave
pub mod Rounds
mod Bits
pub mod Loop
pub mod Transfer
pub mod Buffer
mod Tests
use not.Prelude.{
  ℕ, zero, suc, ◌*◌, ◌/◌, ◌^◌, ◌==◌, bit_and, bit_or, bit_xor, if◌then◌else◌, negate, to_bit, Bool,
  List, [], ◌∷◌, Option, none, some,
}
use not.Hardware.{
  gpio_a, bshr, bcr, Trace, Hw, Dev, ◌>>=◌, ◌>>◌, pure, emit, delay_nops, u8, u16, read_port,
}
use not.Gpio.{gpio_init_pin, mode_out_pp, mode_in_floating}

-- `gpio_write_fast`.
unfoldable pub gpio_write_fast : ℕ → ℕ → Dev (Unit {0})
gpio_write_fast mask level = if level == 0 then emit (bcr gpio_a mask) else emit (bshr gpio_a mask)

-- The mask of a pin, `(uint16_t)(1u << pin)`.
abbrev pub spi_mask : ℕ → ℕ
spi_mask pin = u16 (2 ^ pin)

-- The masks and levels that `spi_xfer_byte_bb_ch32` computes first.
pub record Lines : Type 0 where
  pub sck_mask : ℕ
  pub mosi_mask : ℕ
  pub miso_mask : ℕ
  pub idle : ℕ
  pub active : ℕ
  pub edge_delay_nops : ℕ

-- `(out & 0x80u) ? 1u : 0u`.
unfoldable pub top_bit : ℕ → ℕ
top_bit out = if bit_and out 0x80 == 0 then 0 else 1

module _ (hw : Hw) where
  -- `gpio_read_fast`.
  unfoldable pub gpio_read_fast : ℕ → Dev ℕ
  gpio_read_fast mask = do
    indr ← read_port hw gpio_a
    pure (to_bit (negate (bit_and indr mask == 0)))

  -- One round of the loop for CPHA=0; the result is `in`.
  unfoldable pub leading_round : Lines → ℕ → ℕ → Dev ℕ
  leading_round l out inp = do
    gpio_write_fast l.mosi_mask (top_bit out)
    gpio_write_fast l.sck_mask l.active
    delay_nops l.edge_delay_nops
    level ← gpio_read_fast l.miso_mask
    gpio_write_fast l.sck_mask l.idle
    delay_nops l.edge_delay_nops
    pure (u8 (bit_or (inp * 2) level))

  -- One round of the loop for CPHA=1.
  unfoldable pub trailing_round : Lines → ℕ → ℕ → Dev ℕ
  trailing_round l out inp = do
    gpio_write_fast l.sck_mask l.active
    delay_nops l.edge_delay_nops
    gpio_write_fast l.mosi_mask (top_bit out)
    gpio_write_fast l.sck_mask l.idle
    delay_nops l.edge_delay_nops
    level ← gpio_read_fast l.miso_mask
    pure (u8 (bit_or (inp * 2) level))

  -- The loop, with the rounds that are left; `out <<= 1` in each round.
  unfoldable pub rounds : (ℕ → ℕ → Dev ℕ) → ℕ → ℕ → ℕ → Dev ℕ
  rounds one_round zero out inp = pure inp
  rounds one_round (suc left) out inp = do
    inp' ← one_round out inp
    rounds one_round left (u8 (out * 2)) inp'

  abbrev pub lines : ℕ → ℕ → ℕ → ℕ → ℕ → Lines
  lines sck mosi miso mode delay =
      let idle = if mode / 2 == 0 then 0 else 1 in
      record {
        sck_mask = spi_mask sck;
        mosi_mask = spi_mask mosi;
        miso_mask = spi_mask miso;
        idle = idle;
        active = bit_xor idle 1;
        edge_delay_nops = delay;
      }

  unfoldable pub spi_xfer_byte : ℕ → ℕ → ℕ → ℕ → ℕ → ℕ → Dev ℕ
  spi_xfer_byte sck mosi miso out mode delay = do
    let l = lines sck mosi miso mode delay
    gpio_write_fast l.sck_mask l.idle
    delay_nops l.edge_delay_nops
    rounds (if bit_and mode 1 == 0 then leading_round l else trailing_round l) 8 out 0

  -- `spi_init`; `none` when a pin is not in the tables.
  unfoldable pub spi_init : ℕ → ℕ → ℕ → Trace → Option Trace
  spi_init sck mosi miso t = elim (gpio_init_pin hw sck mode_out_pp t) [
    | none ↦ none
    | some t₁ ↦ elim (gpio_init_pin hw mosi mode_out_pp t₁) [
      | none ↦ none
      | some t₂ ↦ gpio_init_pin hw miso mode_in_floating t₂
    ]
  ]

  -- `spi_read`: what fills the buffer, `len` bytes.
  unfoldable pub spi_read : ℕ → ℕ → ℕ → ℕ → ℕ → ℕ → ℕ → Dev (List ℕ)
  spi_read sck mosi miso mode write_value delay zero = pure []
  spi_read sck mosi miso mode write_value delay (suc len) = do
    b ← spi_xfer_byte sck mosi miso write_value mode delay
    bs ← spi_read sck mosi miso mode write_value delay len
    pure (b ∷ bs)

  -- `spi_write`: the bytes received are dropped.
  unfoldable pub spi_write : ℕ → ℕ → ℕ → ℕ → ℕ → List ℕ → Dev (Unit {0})
  spi_write sck mosi miso mode delay [] = pure tt
  spi_write sck mosi miso mode delay (out ∷ outs) = do
    spi_xfer_byte sck mosi miso out mode delay
    spi_write sck mosi miso mode delay outs

  -- `spi_write_read`, with buffers that do not overlap.
  unfoldable pub spi_write_read : ℕ → ℕ → ℕ → ℕ → ℕ → List ℕ → Dev (List ℕ)
  spi_write_read sck mosi miso mode delay [] = pure []
  spi_write_read sck mosi miso mode delay (out ∷ outs) = do
    b ← spi_xfer_byte sck mosi miso out mode delay
    bs ← spi_write_read sck mosi miso mode delay outs
    pure (b ∷ bs)
