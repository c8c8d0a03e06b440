-- ===== src/Packet.antt =====
-- The state of the board on which get_packet of User/comms/src/comms.c works, and how its code
-- reads and writes it. The requests are in the modules below.
pub mod Memory
mod Tests
pub mod Sample
pub mod Pins
pub mod Program
pub mod Analog
pub mod Bus
pub mod Wires
pub mod Trains
pub mod Files
pub mod Commands
pub mod Dispatch
pub mod Served
pub mod Chain
pub mod Requests
pub mod Transfers
pub mod Paths
pub mod Response
pub mod RunRequest
pub mod Oversize
use not.Prelude.{
  ℕ, zero, suc, ◌+◌, ◌-◌, ◌/◌, ◌==◌, leb, min, if◌then◌else◌, Bool, List, [], ◌∷◌, ◌++◌, Option,
  none, some, length, take, drop,
}
use not.Hardware.{Trace, Hw}
use not.Adc.{Converter}
use not.Comms.{
  Link, comms_send_buffer, comms_send_u8, comms_send_u32, comms_send_string, comms_recv_buffer,
  comms_recv_u8, comms_recv_u32,
}
use not.Fs.{Fs, Littlefs}
use not.Pulse.{Pulses}
use not.Packet.Memory.{splice, c_string}
use not.Vm.State.{Result, ok, fault, waiting}

-- `MEGA_BUFFER_SIZE`, and the second half of the buffer.
abbrev pub mega_size : ℕ
mega_size = 5120

abbrev pub half : ℕ
half = 2560

-- What the firmware stands on: the answers of the chip, the two links, littlefs with the entry that
-- it fills, the unique number of the chip, what is on the stack where an array is declared, and the
-- bounds of the loops that wait.
pub record Chip (S L F D I : Type 0) : Type 0 where
  pub hw : Hw
  pub adc : Converter
  pub usb : Link S
  pub i2c : Link S
  pub littlefs : Littlefs L F D I
  pub entry_type : I → ℕ
  pub entry_size : I → ℕ
  pub entry_name : I → List ℕ
  pub uid : List ℕ
  pub junk_registers : List ℕ
  pub junk_pile_t : List ℕ
  pub junk_pile_r : List ℕ
  pub junk_stack : List ℕ
  pub fuel : ℕ
  pub rounds : ℕ

pub record Board (S L F D I : Type 0) : Type 0 where
  pub link : S
  pub mode : ℕ
  pub trace : Trace
  pub fs : Fs L F D I
  pub pulses : Pulses
  pub mega : List ℕ

-- A piece of code on the board. `fault`: out of bounds; `waiting`: it waits for ever.
abbrev pub Code : Type 0 → Type 0 → Type 0
Code B A = B → Result (A × B)

infixl 5 ◌>>=◌ ◌>>◌
unfoldable pub ◌>>=◌ : {B A C : Type 0} → Code B A → (A → Code B C) → Code B C
◌>>=◌ m f b = elim (m b) [ ok (a, b') ↦ f a b' | fault ↦ fault | waiting ↦ waiting ]

abbrev pub ◌>>◌ : {B A C : Type 0} → Code B A → Code B C → Code B C
m >> k = m >>= λ _. k

unfoldable pub pure : {B A : Type 0} → A → Code B A
pure a b = ok (a, b)

-- A request that is served.
abbrev pub Handler : Type 0 → Type 0 → Type 0 → Type 0 → Type 0 → Type 0
Handler S L F D I = Code (Board S L F D I) (Unit {0})

module _ {S L F D I : Type 0} (c : Chip S L F D I) where
  -- Code that drives the pins: all of it, or with accesses that may be out of bounds, or waiting.
  unfoldable pub on_trace : {A : Type 0} → (Trace → A × Trace) → Code (Board S L F D I) A
  on_trace f b = let r = f b.trace in ok (r.0, record b { trace = r.1 })

  unfoldable pub try_trace : (Trace → Option Trace) → Handler S L F D I
  try_trace f b = elim (f b.trace) [ none ↦ fault | some t ↦ ok (tt, record b { trace = t }) ]

  unfoldable pub try_value : {A : Type 0} → (Trace → Option (A × Trace)) → Code (Board S L F D I) A
  try_value f b = elim (f b.trace) [ none ↦ fault | some (a, t) ↦ ok (a, record b { trace = t }) ]

  unfoldable pub wait_trace : {A : Type 0} → (Trace → Result (A × Trace)) → Code (Board S L F D I) A
  wait_trace f b = elim (f b.trace) [
    | ok (a, t) ↦ ok (a, record b { trace = t })
    | fault ↦ fault
    | waiting ↦ waiting
  ]

  -- Code on the file system.
  unfoldable pub on_fs : {A : Type 0} → (Fs L F D I → A × Fs L F D I) → Code (Board S L F D I) A
  on_fs f b = let r = f b.fs in ok (r.0, record b { fs = r.1 })

  unfoldable pub try_fs :
      {A : Type 0} → (Fs L F D I → Option (A × Fs L F D I)) → Code (Board S L F D I) A
  try_fs f b = elim (f b.fs) [ none ↦ fault | some (a, fs) ↦ ok (a, record b { fs = fs }) ]

  -- Code on the link.
  unfoldable pub on_link : {A : Type 0} → (ℕ → S → Option (A × S)) → Code (Board S L F D I) A
  on_link f b = elim (f b.mode b.link) [
    | none ↦ waiting
    | some (a, s) ↦ ok (a, record b { link = s })
  ]

  unfoldable pub to_link : (ℕ → S → Option S) → Handler S L F D I
  to_link f b = elim (f b.mode b.link) [ none ↦ waiting | some s ↦ ok (tt, record b { link = s }) ]

  -- What the board holds.
  unfoldable pub look : {A : Type 0} → (Board S L F D I → A) → Code (Board S L F D I) A
  look f b = ok (f b, b)

  -- Bytes put into the shared buffer from a place on, and `len` bytes of it.
  unfoldable pub put_mega : ℕ → List ℕ → Handler S L F D I
  put_mega at bytes b =
      if leb (at + length bytes) mega_size
      then ok (tt, record b { mega = splice at bytes b.mega })
      else fault

  unfoldable pub get_mega : ℕ → ℕ → Code (Board S L F D I) (List ℕ)
  get_mega at len b = if leb (at + len) mega_size then ok (take len (drop at b.mega), b) else fault

  -- The string at a place of the shared buffer.
  unfoldable pub string_at : ℕ → Code (Board S L F D I) (List ℕ)
  string_at at = look (λ b. c_string (drop at b.mega))

  abbrev pub recv_u8 : Code (Board S L F D I) ℕ
  recv_u8 = on_link (comms_recv_u8 c.usb c.i2c)

  abbrev pub recv_u32 : Code (Board S L F D I) ℕ
  recv_u32 = on_link (comms_recv_u32 c.usb c.i2c)

  abbrev pub recv_bytes : ℕ → Code (Board S L F D I) (List ℕ)
  recv_bytes n = on_link (λ mode. comms_recv_buffer c.usb c.i2c mode n)

  abbrev pub send_u32 : ℕ → Handler S L F D I
  send_u32 w = to_link (λ mode. comms_send_u32 c.usb c.i2c mode w)

  abbrev pub send_bytes : List ℕ → Handler S L F D I
  send_bytes bytes = to_link (λ mode. comms_send_buffer c.usb c.i2c mode bytes)

  -- `comms_recv_buffer` into the shared buffer. The first byte that comes for a place behind the
  -- buffer is written out of bounds, and what comes behind it does not matter any more; when there
  -- is none the code goes on, or waits.
  unfoldable pub recv_into : ℕ → ℕ → Handler S L F D I
  recv_into at size = do bytes ← recv_bytes (min size (mega_size + 1 - at)); put_mega at bytes

  -- `comms_recv_string` into the shared buffer.
  unfoldable pub recv_string : ℕ → Handler S L F D I
  recv_string at = do size ← recv_u32; recv_into at size; put_mega (at + size) (0 ∷ [])
