-- ===== src/Packet/Trains.antt =====
-- The requests of get_packet about trains of pulses, and the NeoPixels.
use not.Prelude.{ℕ, ◌+◌, ◌/◌, ◌%◌, ◌^◌, leb, if◌then◌else◌, List, [], ◌∷◌, none, some}
use not.Hardware.{gpio_a, gpio_b, u8, u16}
use not.Vm.State.{ok, fault, waiting}
use not.Pulse.{pulseio_in_clear, pulseio_in_read}
use not.Pulse.Capture.{pulseio_in_resume, pulseio_in_stop}
use not.Pwm.{recv_pulses, pulseio_out_send}
use not.Neopixel.{neopixel_send_buffer}
use not.Packet.{
  half, look, to_link, Chip, Board, Code, Handler, ◌>>=◌, ◌>>◌, on_trace, try_trace, recv_u8,
  recv_u32, recv_into, put_mega,
}

-- The bytes of an array of `uint16_t`.
abbrev pub bytes_of_u16 : List ℕ → List ℕ
bytes_of_u16 [] = []
bytes_of_u16 (x ∷ xs) = x % 2 ^ 8 ∷ (x / 2 ^ 8) ∷ bytes_of_u16 xs

module _ {S L F D I : Type 0} (c : Chip S L F D I) where
  unfoldable pub recv_pulseio_in_resume : Handler S L F D I
  recv_pulseio_in_resume = do
    pin ← recv_u8 c
    trigger_duration ← recv_u32 c
    try_trace c (pulseio_in_resume c.hw pin (u16 trigger_duration))

  unfoldable pub recv_pulseio_in_clear : Handler S L F D I
  recv_pulseio_in_clear b = ok (tt, record b { pulses = pulseio_in_clear b.pulses })

  unfoldable pub recv_pulseio_in_stop : Handler S L F D I
  recv_pulseio_in_stop = do pin ← recv_u8 c; on_trace c (λ t. (tt, pulseio_in_stop pin t))

  unfoldable pub recv_pulseio_in_read : Handler S L F D I
  recv_pulseio_in_read = do
    pulse_count ← recv_u32 c
    pulses ← look c (λ b. b.pulses)
    to_link c (λ mode. pulseio_in_read c.usb pulse_count pulses)

  -- `pulseio_out_send` with the shared buffer as an array of `uint16_t`; the durations that it holds.
  -- Of a longer train the first duration behind the buffer is written out of bounds when it comes.
  unfoldable pub send_pulses : ℕ → ℕ → ℕ → Code (Board S L F D I) (List ℕ)
  send_pulses pin duty pulse_count b =
      if leb pulse_count half
      then elim (pulseio_out_send c.usb pin duty pulse_count b.link b.trace) [
        | none ↦ waiting
        | some (pulses, t, s) ↦ ok (pulses, record b { link = s; trace = t })
      ]
      else elim (recv_pulses c.usb (half + 1) b.link) [ none ↦ waiting | some (pulses, s) ↦ fault ]

  unfoldable pub recv_pulseio_out_send : Handler S L F D I
  recv_pulseio_out_send = do
    pin_number ← recv_u8 c
    duty ← recv_u32 c
    pulse_count ← recv_u32 c
    pulses ← send_pulses pin_number (u8 duty) pulse_count
    put_mega c 0 (bytes_of_u16 pulses)

  unfoldable pub recv_neopixel_write : Handler S L F D I
  recv_neopixel_write = do
    pin_number ← recv_u8 c
    color_count ← recv_u32 c
    recv_into c 0 color_count
    colors ← look c (λ b. b.mega)
    try_trace c (neopixel_send_buffer gpio_a (u16 (2 ^ pin_number)) colors color_count)

  -- The pixel on the board, on PB3.
  unfoldable pub recv_internal_ws2812b : Handler S L F D I
  recv_internal_ws2812b = do
    col0 ← recv_u8 c
    col1 ← recv_u8 c
    col2 ← recv_u8 c
    try_trace c (neopixel_send_buffer gpio_b (2 ^ 3) (col0 ∷ col1 ∷ col2 ∷ []) 1)
