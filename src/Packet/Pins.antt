-- ===== src/Packet/Pins.antt =====
-- The requests of get_packet about the board and its pins.
use not.Prelude.{ℕ, to_bit, [], ◌∷◌, ◌++◌}
use not.Gpio.{gpio_init_pin, gpio_set_pin, gpio_clear_pin, gpio_read_pin}
use not.Packet.{Chip, Handler, ◌>>=◌, try_trace, try_value, recv_u8, send_u32, send_bytes}

module _ {S L F D I : Type 0} (c : Chip S L F D I) where
  unfoldable pub recv_ping : Handler S L F D I
  recv_ping = send_u32 c 0

  -- The first twelve characters are the chip's number; then "TLL_N232".
  unfoldable pub recv_identify : Handler S L F D I
  recv_identify = send_bytes c (c.uid ++ b'T' ∷ b'L' ∷ b'L' ∷ b'_' ∷ b'N' ∷ b'2' ∷ b'3' ∷ b'2' ∷ [])

  -- RECV_OUT_PP, RECV_OUT_OD, RECV_IN_FLOATING, RECV_IN_PU, RECV_IN_PD, RECV_PWM_INIT and
  -- RECV_ADC_INIT, each with its mode.
  unfoldable pub recv_pin_mode : ℕ → Handler S L F D I
  recv_pin_mode mode = do pin_number ← recv_u8 c; try_trace c (gpio_init_pin c.hw pin_number mode)

  unfoldable pub recv_set_pin : Handler S L F D I
  recv_set_pin = do pin_number ← recv_u8 c; try_trace c (gpio_set_pin pin_number)

  unfoldable pub recv_clear_pin : Handler S L F D I
  recv_clear_pin = do pin_number ← recv_u8 c; try_trace c (gpio_clear_pin pin_number)

  unfoldable pub recv_read_pin : Handler S L F D I
  recv_read_pin = do
    pin_number ← recv_u8 c
    high ← try_value c (gpio_read_pin c.hw pin_number)
    send_bytes c (to_bit high ∷ [])
