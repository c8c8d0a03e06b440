-- ===== src/Comms.antt =====
-- User/comms/src/protocol.c: the messages to and from the host, over the one of the two links that
-- was chosen at start.
pub mod Exchange
pub mod Pipe
pub mod Device
use not.Prelude.{ℕ, ◌==◌, if◌then◌else◌, List, [], ◌∷◌, ◌++◌, length, Option, none, some, get_or}
use not.Usb.Serial.{bytes_of, word_of}

-- A link on its state: start, send a buffer, wait for `n` bytes. `none`: the link never gets there.
pub record Link (S : Type 0) : Type 0 where
  pub start : S → Option S
  pub send : List ℕ → S → Option S
  pub recv : ℕ → S → Option (List ℕ × S)

-- Four bytes of memory read as a `uint32_t`.
abbrev pub word_at : List ℕ → ℕ
word_at bytes = word_of (get_or bytes 0 0) (get_or bytes 1 0) (get_or bytes 2 0) (get_or bytes 3 0)

abbrev pub mode_usb : ℕ
mode_usb = 1

abbrev pub mode_i2c : ℕ
mode_i2c = 2

module _ {S : Type 0} (usb i2c : Link S) where
  -- `comms_init`: the mode is kept with the links' state.
  unfoldable pub comms_init : ℕ → S → Option (ℕ × S)
  comms_init mode s =
      elim (if mode == mode_usb
        then usb.start s
        else if mode == mode_i2c
        then i2c.start s
        else some s) [ none ↦ none | some s' ↦ some (mode, s') ]

  module _ (current_mode : ℕ) where
    unfoldable pub comms_send_buffer : List ℕ → S → Option S
    comms_send_buffer buffer s =
        if current_mode == mode_usb
        then usb.send buffer s
        else if current_mode == mode_i2c
        then i2c.send buffer s
        else some s

    unfoldable pub comms_send_u8 : ℕ → S → Option S
    comms_send_u8 byte s = comms_send_buffer (byte ∷ []) s

    unfoldable pub comms_send_u32 : ℕ → S → Option S
    comms_send_u32 word s = comms_send_buffer (bytes_of word) s

    unfoldable pub comms_send_array : List ℕ → S → Option S
    comms_send_array array s = elim (comms_send_u32 (length array) s) [
      | none ↦ none
      | some s' ↦ comms_send_buffer array s'
    ]

    -- The bytes of the string up to its terminator.
    unfoldable pub comms_send_string : List ℕ → S → Option S
    comms_send_string str s = comms_send_array str s

    -- In another mode the buffer keeps what it had, which is nothing the code may read: `none`.
    unfoldable pub comms_recv_buffer : ℕ → S → Option (List ℕ × S)
    comms_recv_buffer size s =
        if current_mode == mode_usb
        then usb.recv size s
        else if current_mode == mode_i2c
        then i2c.recv size s
        else none

    unfoldable pub comms_recv_u8 : S → Option (ℕ × S)
    comms_recv_u8 s = elim (comms_recv_buffer 1 s) [
      | none ↦ none
      | some (bytes, s') ↦ some (get_or bytes 0 0, s')
    ]

    unfoldable pub comms_recv_u32 : S → Option (ℕ × S)
    comms_recv_u32 s = elim (comms_recv_buffer 4 s) [
      | none ↦ none
      | some (bytes, s') ↦ some (word_at bytes, s')
    ]

    unfoldable pub comms_recv_array : S → Option (List ℕ × S)
    comms_recv_array s = elim (comms_recv_u32 s) [
      | none ↦ none
      | some (size, s') ↦ comms_recv_buffer size s'
    ]

    -- With the terminator that the code puts behind the bytes.
    unfoldable pub comms_recv_string : S → Option (List ℕ × S)
    comms_recv_string s = elim (comms_recv_array s) [
      | none ↦ none
      | some (str, s') ↦ some (str ++ 0 ∷ [], s')
    ]
