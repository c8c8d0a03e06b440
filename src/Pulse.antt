-- ===== src/Pulse.antt =====
-- The pulse capture: the ring of durations in User/ch32v20x_it.c and the calls of
-- User/Features/src/pulse_in.c that read and clear it.
pub mod Recent
pub mod Capture
pub mod Armed
mod Tests
use not.Prelude.{
  ℕ, zero, suc, ◌+◌, ◌-◌, ◌%◌, ◌^◌, ltb, if◌then◌else◌, Bool, List, [], ◌∷◌, Option, none, some,
  get_or, set,
}
use not.Hardware.{u32}
use not.Usb.Serial.{bytes_of}
use not.Comms.{Link}

-- `PIO_RING_SIZE`.
abbrev pub ring_size : ℕ
ring_size = 3000

pub record Pulses : Type 0 where
  pub buffer : List ℕ
  pub head : ℕ
  pub count : ℕ

-- `capture_pulse`: `pending` is the interrupt flag of the line, `duration` the count of TIM4.
unfoldable pub capture_pulse : Bool → ℕ → Pulses → Pulses
capture_pulse pending duration p =
    if pending
    then record {
      buffer = set p.buffer p.head duration;
      head = u32 (p.head + 1) % ring_size;
      count = if ltb p.count ring_size then p.count + 1 else p.count;
    }
    else p

unfoldable pub pulseio_in_clear : Pulses → Pulses
pulseio_in_clear p = record p { head = 0; count = 0 }

-- The durations that the loop of `pulseio_in_read` sends, from round `i` on.
unfoldable pub durations : List ℕ → ℕ → ℕ → ℕ → List ℕ
durations buffer tail i zero = []
durations buffer tail i (suc left) =
    get_or buffer (u32 (tail + i) % ring_size) 0 ∷ durations buffer tail (i + 1) left

-- The words that `pulseio_in_read` sends: how many pulses, and the pulses. The indices stay inside
-- the buffer.
unfoldable pub pulseio_in_words : ℕ → Pulses → List ℕ
pulseio_in_words try_read p =
    let modified_count = if ltb p.count try_read then p.count else try_read in
    let tail = u32 (p.head + ring_size + 2 ^ 32 - modified_count) % ring_size in
    modified_count ∷ durations p.buffer tail 0 modified_count

module _ {S : Type 0} (usb : Link S) where
  -- Each word goes out by `usbSerial_blocking_writeP_u32`, whatever the mode of protocol.c is.
  unfoldable pub send_words : List ℕ → S → Option S
  send_words [] s = some s
  send_words (w ∷ ws) s = elim (usb.send (bytes_of w) s) [
    | none ↦ none
    | some s' ↦ send_words ws s'
  ]

  unfoldable pub pulseio_in_read : ℕ → Pulses → S → Option S
  pulseio_in_read try_read p s = send_words (pulseio_in_words try_read p) s
