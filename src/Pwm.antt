-- ===== src/Pwm.antt =====
-- User/Features/src/pwm.c and pulse_out.c: the duty of a pin and a train of pulses on it.
mod Tests
pub mod Train
use not.Prelude.{ℕ, zero, suc, ◌+◌, ◌%◌, ◌==◌, if◌then◌else◌, List, [], ◌∷◌, Option, none, some}
use not.Hardware.{compare_write, delay_us, Trace, u16}
use not.Comms.{Link, word_at}

-- `compare_write timer channel value` is the write of one compare register.
unfoldable pub pwm_set_duty : ℕ → ℕ → Trace → Trace
pwm_set_duty pin duty t =
    if pin == 0
    then compare_write 2 1 duty ∷ t
    else if pin == 1
    then compare_write 2 2 duty ∷ t
    else if pin == 2
    then compare_write 2 3 duty ∷ t
    else if pin == 3
    then compare_write 2 4 duty ∷ t
    else if pin == 6
    then compare_write 3 1 duty ∷ t
    else if pin == 7
    then compare_write 3 2 duty ∷ t
    else if pin == 16
    then compare_write 3 3 duty ∷ t
    else if pin == 17
    then compare_write 3 4 duty ∷ t
    else if pin == 8
    then compare_write 1 1 duty ∷ t
    else if pin == 9
    then compare_write 1 2 duty ∷ t
    else if pin == 10
    then compare_write 1 3 duty ∷ t
    else if pin == 11
    then compare_write 1 4 duty ∷ t
    else t

-- The second loop, from pulse `i` on.
unfoldable pub play : ℕ → ℕ → ℕ → List ℕ → Trace → Trace
play pin duty i [] t = t
play pin duty i (pulse ∷ pulses) t =
    play pin duty (i + 1) pulses
      (delay_us pulse ∷ (if i % 2 == 0 then pwm_set_duty pin duty t else pwm_set_duty pin 0 t))

module _ {S : Type 0} (usb : Link S) where
  -- The first loop of `pulseio_out_send`: `count` durations from the host, each read by
  -- `usbSerial_blocking_read_u32`, whatever the mode of protocol.c is.
  unfoldable pub recv_pulses : ℕ → S → Option (List ℕ × S)
  recv_pulses zero s = some ([], s)
  recv_pulses (suc count) s = elim (usb.recv 4 s) [
    | none ↦ none
    | some (bytes, s') ↦ elim (recv_pulses count s') [
      | none ↦ none
      | some (pulses, s'') ↦ some (u16 (word_at bytes) ∷ pulses, s'')
    ]
  ]

  -- The durations are kept in the buffer that the caller passes; its bounds are the caller's.
  unfoldable pub pulseio_out_send : ℕ → ℕ → ℕ → S → Trace → Option (List ℕ × Trace × S)
  pulseio_out_send pin duty pulse_count s t = elim (recv_pulses pulse_count s) [
    | none ↦ none
    | some (pulses, s') ↦ some (pulses, pwm_set_duty pin 0 (play pin duty 0 pulses t), s')
  ]
