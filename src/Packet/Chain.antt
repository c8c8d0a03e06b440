-- ===== src/Packet/Chain.antt =====
-- Proofs about get_packet, receive by receive: what follows each one.
use not.Prelude.{ℕ, ◌+◌, ◌^◌, ◌<◌, ◌≤◌, ◌≡◌, ap, arith, true, List, [], ◌∷◌, ◌++◌, length, leb}
use not.Usb.Serial.{bytes_of}
use not.Vm.State.{Result, ok}
use not.Packet.Memory.{splice, splice-splice}
use not.Packet.{
  mega_size, Chip, Board, Code, ◌>>=◌, recv_u8, recv_u32, send_u32, send_bytes, recv_into,
  recv_string, put_mega,
}
use not.Packet.Served.{
  Wire, andthen, Carries, Reads, recv_u8-Reads, recv_u32-Reads, recv_into-Reads, send_bytes-Reads,
  send_u32-Reads,
}

module _ {S L F D I : Type 0} (c : Chip S L F D I) (w : Wire c) where
  -- The code ends in a result that depends on the link alone, with these bytes on the link.
  abbrev pub Does :
      {A : Type 0}
      → Code (Board S L F D I) A
      → Board S L F D I
      → (S → Result (A × Board S L F D I))
      → List ℕ
      → List ℕ
      → Type 0
  Does m b g inp out = (s : S) × (m b ≡ g s) × w.Holds s inp out

  -- What follows a piece of code that leaves the link alone.
  pub after_ok :
      {A C : Type 0} (m : Code (Board S L F D I) A) (f : A → Code (Board S L F D I) C)
      (b : Board S L F D I) {a : A} {b' : Board S L F D I} {g : S → Result (C × Board S L F D I)}
      {inp out : List ℕ}
      → m b ≡ ok (a, b')
      → Does (f a) b' g inp out
      → Does (m >>= f) b g inp out
  after_ok m f b e (s, e', h) = (s, andthen m f {b = b} e e', h)

  -- What follows a piece of code that only reads or writes the link.
  pub after :
      {A C : Type 0} (m : Code (Board S L F D I) A) (f : A → Code (Board S L F D I) C)
      (b : Board S L F D I) {a : A} {g : S → Result (C × Board S L F D I)}
      {inp out inp' out' : List ℕ}
      → b.mode ≡ w.mode
      → Reads c w m b a inp out
      → ((s : S)
          → Carries c w (record b { link = s }) inp out
          → Does (f a) (record b { link = s }) g inp' out')
      → Does (m >>= f) b g inp' out'
  after m f b same (s, e, h) k =
      let (s', e', h') = k s (same, h) in (s', andthen m f {b = b} e e', h')

  pub after_u8 :
      {C : Type 0} (f : ℕ → Code (Board S L F D I) C) (b : Board S L F D I) {byte : ℕ}
      {g : S → Result (C × Board S L F D I)} {inp out inp' out' : List ℕ}
      → Carries c w b (byte ∷ inp) out
      → ((s : S)
          → Carries c w (record b { link = s }) inp out
          → Does (f byte) (record b { link = s }) g inp' out')
      → Does (recv_u8 c >>= f) b g inp' out'
  after_u8 f b {byte = byte} {inp = inp} {out = out} h k =
      after (recv_u8 c) f b h.0 (recv_u8-Reads c w b byte inp out h) k

  pub after_u32 :
      {C : Type 0} (f : ℕ → Code (Board S L F D I) C) (b : Board S L F D I) (word : ℕ)
      {g : S → Result (C × Board S L F D I)} {inp out inp' out' : List ℕ}
      → word < 2 ^ 32
      → Carries c w b (bytes_of word ++ inp) out
      → ((s : S)
          → Carries c w (record b { link = s }) inp out
          → Does (f word) (record b { link = s }) g inp' out')
      → Does (recv_u32 c >>= f) b g inp' out'
  after_u32 f b word {inp = inp} {out = out} small h k =
      after (recv_u32 c) f b h.0 (recv_u32-Reads c w b word inp out small h) k

  pub after_into :
      {C : Type 0} (f : Unit {0} → Code (Board S L F D I) C) (b : Board S L F D I) (at : ℕ)
      (bytes : List ℕ) {g : S → Result (C × Board S L F D I)} {inp out inp' out' : List ℕ}
      → at + length bytes ≤ mega_size
      → Carries c w b (bytes ++ inp) out
      → ((s : S)
          → Carries c w (record b { link = s; mega = splice at bytes b.mega }) inp out
          → Does (f tt) (record b { link = s; mega = splice at bytes b.mega }) g inp' out')
      → Does (recv_into c at (length bytes) >>= f) b g inp' out'
  after_into f b at bytes {inp = inp} {out = out} room h k =
      let (s, e, h') = recv_into-Reads c w b at bytes inp out room h in
      let (s', e', h'') = k s (h.0, h') in
      (s', andthen (recv_into c at (length bytes)) f {b = b} e e', h'')

  -- A string from the host is put into the buffer with its terminator.
  string-Does :
      (b : Board S L F D I) (at : ℕ) (text inp out : List ℕ)
      → at + length text < mega_size
      → Carries c w b (bytes_of (length text) ++ (text ++ inp)) out
      → Does
          (recv_string c at)
          b
          (λ s. ok (tt, record b { link = s; mega = splice at (text ++ 0 ∷ []) b.mega }))
          inp
          out
  unfolding recv_string put_mega
  string-Does b at text inp out room h =
      after_u32 _ b (length text) (omega (arith, room)) h (λ s₁ h₁.
        after_into _ _ at text (omega (arith, room)) h₁ (λ s₂ h₂.
          let fits : leb (at + length text + 1) mega_size ≡ true = ground (arith, room) in
          (
            s₂,
            rw (put_mega, fits)
                (ap (λ m. ok (tt, record b { link = s₂; mega = m }))
                  (splice-splice at text (0 ∷ []) b.mega)),
            h₂.1,
          )))

  -- A string from the host stands in the buffer with its terminator.
  pub after_string :
      {C : Type 0} (f : Unit {0} → Code (Board S L F D I) C) (b : Board S L F D I) (at : ℕ)
      (text : List ℕ) {g : S → Result (C × Board S L F D I)} {inp out inp' out' : List ℕ}
      → at + length text < mega_size
      → Carries c w b (bytes_of (length text) ++ (text ++ inp)) out
      → ((s : S)
          → Carries c w (record b { link = s; mega = splice at (text ++ 0 ∷ []) b.mega }) inp out
          → Does
              (f tt)
              (record b { link = s; mega = splice at (text ++ 0 ∷ []) b.mega })
              g
              inp'
              out')
      → Does (recv_string c at >>= f) b g inp' out'
  after_string f b at text {inp = inp} {out = out} room h k =
      let (s, e, h') = string-Does b at text inp out room h in
      let (s', e', h'') = k s (h.0, h') in (s', andthen (recv_string c at) f {b = b} e e', h'')

  -- What follows a response.
  pub after_send :
      {C : Type 0} (f : Unit {0} → Code (Board S L F D I) C) (b : Board S L F D I) (bytes : List ℕ)
      {g : S → Result (C × Board S L F D I)} {inp out inp' out' : List ℕ}
      → length bytes ≤ w.limit
      → Carries c w b inp out
      → ((s : S)
          → Carries c w (record b { link = s }) inp (out ++ bytes)
          → Does (f tt) (record b { link = s }) g inp' out')
      → Does (send_bytes c bytes >>= f) b g inp' out'
  after_send f b bytes {inp = inp} {out = out} room h k =
      after (send_bytes c bytes) f b h.0 (send_bytes-Reads c w b bytes inp out room h) k

  pub after_send_u32 :
      {C : Type 0} (f : Unit {0} → Code (Board S L F D I) C) (b : Board S L F D I) (word : ℕ)
      {g : S → Result (C × Board S L F D I)} {inp out inp' out' : List ℕ}
      → 4 ≤ w.limit
      → Carries c w b inp out
      → ((s : S)
          → Carries c w (record b { link = s }) inp (out ++ bytes_of word)
          → Does (f tt) (record b { link = s }) g inp' out')
      → Does (send_u32 c word >>= f) b g inp' out'
  after_send_u32 f b word {inp = inp} {out = out} room h k =
      after (send_u32 c word) f b h.0 (send_u32-Reads c w b word inp out room h) k
