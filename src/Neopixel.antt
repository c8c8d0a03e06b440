-- ===== src/Neopixel.antt =====
-- User/Features/src/neopixel.c: the WS2812 pulses.
pub mod Line
pub mod Pixel
mod Tests
use not.Prelude.{
  ℕ, zero, suc, ◌+◌, ◌/◌, ◌==◌, bit_and, if◌then◌else◌, List, ◌∷◌, get_elem?, Option, none, some,
}
use not.Hardware.{Port, bshr, bcr, delay_us, Trace, Dev, ◌>>◌, emit, delay_nops}

unfoldable pub neopixel_send_0 : Port → ℕ → Dev (Unit {0})
neopixel_send_0 port mask = do
  emit (bshr port mask)
  delay_nops 11
  emit (bcr port mask)
  delay_nops 31

unfoldable pub neopixel_send_1 : Port → ℕ → Dev (Unit {0})
neopixel_send_1 port mask = do
  emit (bshr port mask)
  delay_nops 24
  emit (bcr port mask)
  delay_nops 18

unfoldable pub neopixel_send_bit : Port → ℕ → ℕ → Dev (Unit {0})
neopixel_send_bit port mask bit =
    if bit == 0 then neopixel_send_0 port mask else neopixel_send_1 port mask

unfoldable pub neopixel_send_byte : Port → ℕ → ℕ → Dev (Unit {0})
neopixel_send_byte port mask byte = do
  neopixel_send_bit port mask (bit_and byte 0x80)
  neopixel_send_bit port mask (bit_and byte 0x40)
  neopixel_send_bit port mask (bit_and byte 0x20)
  neopixel_send_bit port mask (bit_and byte 0x10)
  neopixel_send_bit port mask (bit_and byte 0x08)
  neopixel_send_bit port mask (bit_and byte 0x04)
  neopixel_send_bit port mask (bit_and byte 0x02)
  neopixel_send_bit port mask (bit_and byte 0x01)

unfoldable pub neopixel_send_color : Port → ℕ → ℕ → ℕ → ℕ → Dev (Unit {0})
neopixel_send_color port mask b0 b1 b2 = do
  neopixel_send_byte port mask b0
  neopixel_send_byte port mask b1
  neopixel_send_byte port mask b2

-- The loop, at index `i` with `left` rounds to go; `none` when the buffer is read out of bounds.
unfoldable pub send_from : Port → ℕ → List ℕ → ℕ → ℕ → Trace → Option Trace
send_from port mask buffer zero i t = some t
send_from port mask buffer (suc left) i t = elim (get_elem? buffer i) [
  | none ↦ none
  | some b0 ↦ elim (get_elem? buffer (i + 1)) [
    | none ↦ none
    | some b1 ↦ elim (get_elem? buffer (i + 2)) [
      | none ↦ none
      | some b2 ↦
          send_from port mask buffer left (i + 3)
            (delay_us 200 ∷ (neopixel_send_color port mask b0 b1 b2 t).1)
    ]
  ]
]

-- `for (i = 0; i < len; i += 3)` makes `(len + 2) / 3` rounds.
unfoldable pub neopixel_send_buffer : Port → ℕ → List ℕ → ℕ → Trace → Option Trace
neopixel_send_buffer port mask buffer len t = send_from port mask buffer ((len + 2) / 3) 0 t
