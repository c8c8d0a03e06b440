-- ===== src/Packet/Analog.antt =====
-- The requests of get_packet that set a duty, convert and read a touch key.
use not.Pwm.{pwm_set_duty}
use not.Adc.{adc_read, tkey_read}
use not.Packet.{Chip, Handler, ◌>>=◌, on_trace, wait_trace, recv_u8, send_u32}

module _ {S L F D I : Type 0} (c : Chip S L F D I) where
  unfoldable pub recv_pwm_duty : Handler S L F D I
  recv_pwm_duty = do
    pin_number ← recv_u8 c
    duty ← recv_u8 c
    on_trace c (λ t. (tt, pwm_set_duty pin_number duty t))

  unfoldable pub recv_adc_read : Handler S L F D I
  recv_adc_read = do
    pin_number ← recv_u8 c
    val ← wait_trace c (adc_read c.adc c.fuel pin_number)
    send_u32 c val

  unfoldable pub recv_adc_tkey_read : Handler S L F D I
  recv_adc_tkey_read = do
    pin_number ← recv_u8 c
    val ← wait_trace c (tkey_read c.adc c.fuel pin_number)
    send_u32 c val
