-- ===== src/Comms/Pipe.antt =====
-- What the rest of the firmware relies on in a link: bytes come in the order in which the host sends
-- them, and go out in the order in which they are sent.
use not.Prelude.{
  ℕ, ◌^◌, ◌<◌, ◌≤◌, ◌≡◌, refl, ap, arith, List, [], ◌∷◌, ◌++◌, some, length, length-append, take,
  drop, take-append, drop-append,
}
use not.Usb.Serial.{bytes_of}
use not.Comms.{
  Link, comms_send_buffer, comms_send_u32, comms_recv_buffer, comms_recv_u8, comms_recv_u32,
}
use not.Comms.Exchange.{word_of-bytes_of}

-- A link that keeps a state relation: `Holds s inp out` says that the host has yet to deliver `inp`,
-- and has been given `out`. A buffer of more than `limit` bytes cannot be sent at once.
pub record IsPipe {S : Type 0} (link : Link S) (limit : ℕ) (Holds : S → List ℕ → List ℕ → Type 0)
    : Type 0 where
  pub recv_lem :
      (s : S) (inp out : List ℕ) (n : ℕ)
      → Holds s inp out
      → n ≤ length inp
      → (s' : S) × (link.recv n s ≡ some (take n inp, s')) × Holds s' (drop n inp) out
  pub send_lem :
      (s : S) (inp out bytes : List ℕ)
      → Holds s inp out
      → length bytes ≤ limit
      → (s' : S) × (link.send bytes s ≡ some s') × Holds s' inp (out ++ bytes)

module _ {S : Type 0} (usb i2c : Link S) (mode : ℕ) where
  -- The link that protocol.c uses in a mode.
  abbrev pub chosen : Link S
  chosen = record {
    start = λ s. some s;
    send = comms_send_buffer usb i2c mode;
    recv = comms_recv_buffer usb i2c mode;
  }

  module _ (limit : ℕ) (Holds : S → List ℕ → List ℕ → Type 0)
      (pipe : IsPipe chosen limit Holds) where
    pub recv_buffer_lem :
        (s : S) (bytes inp out : List ℕ)
        → Holds s (bytes ++ inp) out
        → (s' : S) × (comms_recv_buffer usb i2c mode (length bytes) s ≡ some (bytes, s'))
          × Holds s' inp out
    recv_buffer_lem s bytes inp out h =
        let (s', e, h') =
          pipe.recv_lem s (bytes ++ inp) out (length bytes) h
            (omega (arith, length-append bytes inp)) in
        (s', rw (take-append bytes inp) at e, rw (drop-append bytes inp) at h')

    pub recv_u8_lem :
        (s : S) (byte : ℕ) (inp out : List ℕ)
        → Holds s (byte ∷ inp) out
        → (s' : S) × (comms_recv_u8 usb i2c mode s ≡ some (byte, s')) × Holds s' inp out
    unfolding comms_recv_u8
    recv_u8_lem s byte inp out h =
        let (s', e, h') = recv_buffer_lem s (byte ∷ []) inp out h in
        let e' : comms_recv_buffer usb i2c mode 1 s ≡ some (byte ∷ [], s') = e in
        (s', rw (comms_recv_u8, e') refl, h')

    pub recv_u32_lem :
        (s : S) (word : ℕ) (inp out : List ℕ)
        → word < 2 ^ 32
        → Holds s (bytes_of word ++ inp) out
        → (s' : S) × (comms_recv_u32 usb i2c mode s ≡ some (word, s')) × Holds s' inp out
    unfolding comms_recv_u32 bytes_of
    recv_u32_lem s word inp out small h =
        let (s', e, h') = recv_buffer_lem s (bytes_of word) inp out h in
        let e' : comms_recv_buffer usb i2c mode 4 s ≡ some (bytes_of word, s') = e in
        (s', rw (comms_recv_u32, e') (ap (λ w. some (w, s')) (word_of-bytes_of word small)), h')

    pub send_u32_lem :
        (s : S) (word : ℕ) (inp out : List ℕ)
        → 4 ≤ limit
        → Holds s inp out
        → (s' : S) × (comms_send_u32 usb i2c mode word s ≡ some s')
          × Holds s' inp (out ++ bytes_of word)
    unfolding comms_send_u32 bytes_of
    send_u32_lem s word inp out room h = pipe.send_lem s inp out (bytes_of word) h room
