-- ===== src/Packet/Served.antt =====
-- What the code of get_packet does with a link that is a pipe: each receive takes its bytes off what
-- the host sends, each send adds to what the host was given, and nothing else of the board changes.
use not.Prelude.{
  ℕ, ◌+◌, ◌-◌, ◌^◌, min, ◌<◌, ◌≤◌, ◌≡◌, refl, ap, ◌∙◌, arith, true, List, ◌∷◌, ◌++◌, Option, none,
  some, length, leb, take, drop,
}
use not.Usb.Serial.{bytes_of}
use not.Comms.{comms_recv_u8, comms_recv_u32, comms_recv_buffer, comms_send_u32, comms_send_buffer}
use not.Comms.Pipe.{IsPipe, chosen, recv_buffer_lem, recv_u8_lem, recv_u32_lem, send_u32_lem}
use not.Vm.State.{Result, ok, fault, waiting}
use not.Packet.Memory.{splice, take-splice}
use not.Packet.{
  mega_size, on_link, to_link, Chip, Board, Code, ◌>>=◌, recv_u8, recv_u32, recv_bytes, send_u32,
  send_bytes, recv_into, put_mega, get_mega,
}

-- The next piece of code runs on what the first one leaves.
pub bound :
    {B A C : Type 0} (m : Code B A) (f : A → Code B C) (b : B) {a : A} {b' : B}
    → m b ≡ ok (a, b')
    → (m >>= f) b ≡ f a b'
unfolding ◌>>=◌
bound m f b e = ap (λ r. elim r [ ok (a, b') ↦ f a b' | fault ↦ fault | waiting ↦ waiting ]) e

pub bind_faults :
    {B A C : Type 0} (m : Code B A) (f : A → Code B C) (b : B) → m b ≡ fault → (m >>= f) b ≡ fault
unfolding ◌>>=◌
bind_faults m f b e = ap (λ r. elim r [ ok (a, b') ↦ f a b' | fault ↦ fault | waiting ↦ waiting ]) e

pub andthen :
    {B A C : Type 0} (m : Code B A) (f : A → Code B C) {b : B} {a : A} {b' : B} {r : Result (C × B)}
    → m b ≡ ok (a, b')
    → f a b' ≡ r
    → (m >>= f) b ≡ r
andthen m f {b = b} e e' = bound m f b e ∙ e'

-- The mode in which protocol.c runs, and the pipe that its link is.
pub record Wire {S L F D I : Type 0} (c : Chip S L F D I) : Type 1 where
  pub mode : ℕ
  pub limit : ℕ
  pub Holds : S → List ℕ → List ℕ → Type 0
  pub pipe : IsPipe (chosen c.usb c.i2c mode) limit Holds

module _ {S L F D I : Type 0} (c : Chip S L F D I) (w : Wire c) where
  -- The bytes on the link of a board, in the mode of the pipe.
  abbrev pub Carries : Board S L F D I → List ℕ → List ℕ → Type 0
  Carries b inp out = (b.mode ≡ w.mode) × w.Holds b.link inp out

  -- The code ends with a result, with the board the same but for its link.
  abbrev pub Reads :
      {A : Type 0} → Code (Board S L F D I) A → Board S L F D I → A → List ℕ → List ℕ → Type 0
  Reads m b a inp out = (s : S) × (m b ≡ ok (a, record b { link = s })) × w.Holds s inp out

  linked :
      {A : Type 0} (f : ℕ → S → Option (A × S)) (b : Board S L F D I) {a : A} {s : S}
      → b.mode ≡ w.mode
      → f w.mode b.link ≡ some (a, s)
      → on_link c f b ≡ ok (a, record b { link = s })
  unfolding on_link
  linked f b m e =
      ap (λ o. elim o [ none ↦ waiting | some (a, s) ↦ ok (a, record b { link = s }) ])
        (ap (λ k. f k b.link) m ∙ e)

  posted :
      (f : ℕ → S → Option S) (b : Board S L F D I) {s : S}
      → b.mode ≡ w.mode
      → f w.mode b.link ≡ some s
      → to_link c f b ≡ ok (tt, record b { link = s })
  unfolding to_link
  posted f b m e =
      ap (λ o. elim o [ none ↦ waiting | some s ↦ ok (tt, record b { link = s }) ])
        (ap (λ k. f k b.link) m ∙ e)

  pub recv_u8-Reads :
      (b : Board S L F D I) (byte : ℕ) (inp out : List ℕ)
      → Carries b (byte ∷ inp) out
      → Reads (recv_u8 c) b byte inp out
  recv_u8-Reads b byte inp out (m, h) =
      let (s, e, h') =
        recv_u8_lem c.usb c.i2c w.mode w.limit w.Holds w.pipe b.link byte inp out h in
      (s, linked (comms_recv_u8 c.usb c.i2c) b m e, h')

  pub recv_u32-Reads :
      (b : Board S L F D I) (word : ℕ) (inp out : List ℕ)
      → word < 2 ^ 32
      → Carries b (bytes_of word ++ inp) out
      → Reads (recv_u32 c) b word inp out
  recv_u32-Reads b word inp out small (m, h) =
      let (s, e, h') =
        recv_u32_lem c.usb c.i2c w.mode w.limit w.Holds w.pipe b.link word inp out small h in
      (s, linked (comms_recv_u32 c.usb c.i2c) b m e, h')

  pub recv_some-Reads :
      (b : Board S L F D I) (n : ℕ) (inp out : List ℕ)
      → n ≤ length inp
      → Carries b inp out
      → Reads (recv_bytes c n) b (take n inp) (drop n inp) out
  recv_some-Reads b n inp out there (m, h) =
      let (s, e, h') = w.pipe.recv_lem b.link inp out n h there in
      (s, linked (λ k. comms_recv_buffer c.usb c.i2c k n) b m e, h')

  pub recv_bytes-Reads :
      (b : Board S L F D I) (bytes inp out : List ℕ)
      → Carries b (bytes ++ inp) out
      → Reads (recv_bytes c (length bytes)) b bytes inp out
  recv_bytes-Reads b bytes inp out (m, h) =
      let (s, e, h') =
        recv_buffer_lem c.usb c.i2c w.mode w.limit w.Holds w.pipe b.link bytes inp out h in
      (s, linked (λ k. comms_recv_buffer c.usb c.i2c k (length bytes)) b m e, h')

  pub send_bytes-Reads :
      (b : Board S L F D I) (bytes inp out : List ℕ)
      → length bytes ≤ w.limit
      → Carries b inp out
      → Reads (send_bytes c bytes) b tt inp (out ++ bytes)
  send_bytes-Reads b bytes inp out room (m, h) =
      let (s, e, h') = w.pipe.send_lem b.link inp out bytes h room in
      (s, posted (λ k. comms_send_buffer c.usb c.i2c k bytes) b m e, h')

  pub send_u32-Reads :
      (b : Board S L F D I) (word : ℕ) (inp out : List ℕ)
      → 4 ≤ w.limit
      → Carries b inp out
      → Reads (send_u32 c word) b tt inp (out ++ bytes_of word)
  send_u32-Reads b word inp out room (m, h) =
      let (s, e, h') =
        send_u32_lem c.usb c.i2c w.mode w.limit w.Holds w.pipe b.link word inp out room h in
      (s, posted (λ k. comms_send_u32 c.usb c.i2c k word) b m e, h')

  -- Bytes that are received into the shared buffer.
  pub recv_into-Reads :
      (b : Board S L F D I) (at : ℕ) (bytes inp out : List ℕ)
      → at + length bytes ≤ mega_size
      → Carries b (bytes ++ inp) out
      → (s : S) × (recv_into c at (length bytes) b
          ≡ ok (tt, record b { link = s; mega = splice at bytes b.mega }))
        × w.Holds s inp out
  unfolding recv_into put_mega
  recv_into-Reads b at bytes inp out room h =
      let (s, e, h') = recv_bytes-Reads b bytes inp out h in
      let fits : leb (at + length bytes) mega_size ≡ true = ground (arith, room) in
      let whole : min (length bytes) (mega_size + 1 - at) ≡ length bytes = omega (arith, room) in
      (
        s,
        rw (recv_into, whole)
            (bound (recv_bytes c (length bytes)) (put_mega c at) b e ∙ rw fits refl),
        h',
      )

  -- The bytes that were put into the buffer are there.
  pub get_mega_lem :
      (b : Board S L F D I) (at : ℕ) (bytes memory : List ℕ)
      → b.mega ≡ splice at bytes memory
      → length memory ≡ mega_size
      → at + length bytes ≤ mega_size
      → get_mega c at (length bytes) b ≡ ok (bytes, b)
  unfolding get_mega
  get_mega_lem b at bytes memory e size room =
      let fits : leb (at + length bytes) mega_size ≡ true = ground (arith, room) in
      let same = ap (λ m. take (length bytes) (drop at m)) e in
      rw (get_mega, fits)
        (ap (λ l. ok (l, b)) (same ∙ take-splice at bytes memory (omega (arith, size, room))))
