-- ===== src/Packet/Oversize.antt =====
-- Requests whose length does not fit the shared buffer of get_packet.
use not.Prelude.{
  ℕ, ◌+◌, ◌^◌, ◌<◌, ◌≡◌, refl, ap, arith, [], false, List, ◌∷◌, ◌++◌, leb, ◌-◌, ◌∙◌, min, length,
  take, length-take,
}
use not.Usb.Serial.{bytes_of}
use not.Vm.State.{fault}
use not.Packet.{
  mega_size, Chip, Board, Code, ◌>>=◌, ◌>>◌, put_mega, recv_into, recv_string, recv_bytes,
}
use not.Packet.Commands.{command_of}
use not.Packet.Program.{recv_run}
use not.Packet.Files.{
  recv_flashfs_remove, recv_flashfs_move, recv_flashfs_file_open, recv_flashfs_mkdir,
  recv_flashfs_dir_open,
}
use not.Packet.Dispatch.{handle, serve, get_packet}
use not.Packet.Served.{Wire, Carries, bound, bind_faults, recv_some-Reads}
use not.Packet.Chain.{Does, after_u8, after_u32}

-- The requests that start with a length and as many bytes.
pub data Lengthy : Type 0 where
  run remove move file_open mkdir dir_open : Lengthy

abbrev pub lengthy_code : Lengthy → ℕ
lengthy_code Lengthy.run = 2
lengthy_code Lengthy.remove = 235
lengthy_code Lengthy.move = 236
lengthy_code Lengthy.file_open = 238
lengthy_code Lengthy.mkdir = 244
lengthy_code Lengthy.dir_open = 245

module _ {S L F D I : Type 0} (c : Chip S L F D I) (w : Wire c) where
  into_faults :
      {A : Type 0} (f : Unit {0} → Code (Board S L F D I) A) (b : Board S L F D I) (size : ℕ)
      (inp out : List ℕ)
      → mega_size < size
      → mega_size < length inp
      → Carries c w b inp out
      → (recv_into c 0 size >>= f) b ≡ fault
  unfolding recv_into put_mega
  into_faults f b size inp out large sent h =
      let n : ℕ = mega_size + 1 in
      let (s, e, h') = recv_some-Reads c w b n inp out (omega (arith, sent)) h in
      let first : min size (mega_size + 1 - 0) ≡ n = omega (arith, large) in
      let all : length (take n inp) ≡ n = omega (arith, length-take n inp, sent) in
      let out_of : leb (0 + length (take n inp)) mega_size ≡ false =
        ap (λ k. leb (0 + k) mega_size) all in
      bind_faults (recv_into c 0 size) f b (
        ap (λ k. (recv_bytes c k >>= put_mega c 0) b) first
        ∙ bound (recv_bytes c n) (put_mega c 0) b e
        ∙ rw out_of refl)

  string_faults :
      {A : Type 0} (f : Unit {0} → Code (Board S L F D I) A) (b : Board S L F D I) (size : ℕ)
      (inp out : List ℕ)
      → size < 2 ^ 32
      → mega_size < size
      → mega_size < length inp
      → Carries c w b (bytes_of size ++ inp) out
      → Does c w (recv_string c 0 >>= f) b (λ s. fault) inp out
  unfolding recv_string
  string_faults f b size inp out small large sent h =
      let (s, e, h') =
        after_u32 c w (λ size. recv_into c 0 size >> put_mega c (0 + size) (0 ∷ [])) b size
          {g = λ s. fault} small h
          (λ s h'. (s, into_faults _ _ size inp out large sent h', h'.1)) in
      (s, bind_faults (recv_string c 0) f b e, h')

  -- A request whose length is more than the shared buffer holds is not refused: when the host sends more
  -- bytes than the buffer holds, the firmware receives them out of bounds, over what lies behind the
  -- buffer. This is so for a program, and for the path of each request that starts with one. The
  -- condition is that the link is a pipe.
  pub oversize_request_lem :
      (p : Lengthy) (b : Board S L F D I) (size : ℕ) (inp out : List ℕ)
      → size < 2 ^ 32
      → mega_size < size
      → mega_size < length inp
      → Carries c w b (lengthy_code p ∷ bytes_of size ++ inp) out
      → get_packet c b ≡ fault
  unfolding get_packet serve handle command_of recv_run recv_flashfs_remove recv_flashfs_move
      recv_flashfs_file_open recv_flashfs_mkdir recv_flashfs_dir_open
  oversize_request_lem p b size inp out small large sent h =
      (after_u8 c w _ b {g = λ s. fault} h (λ s h'. chosen p (record b { link = s }) h')).1
    where
      chosen :
          (p : Lengthy) (b : Board S L F D I)
          → Carries c w b (bytes_of size ++ inp) out
          → Does c w (serve c (command_of (lengthy_code p))) b (λ s. fault) inp out
      chosen Lengthy.run b h =
          after_u32 c w _ b size small h
            (λ s h'. (s, into_faults _ _ size inp out large sent h', h'.1))
      chosen Lengthy.remove b h = string_faults _ b size inp out small large sent h
      chosen Lengthy.move b h = string_faults _ b size inp out small large sent h
      chosen Lengthy.file_open b h = string_faults _ b size inp out small large sent h
      chosen Lengthy.mkdir b h = string_faults _ b size inp out small large sent h
      chosen Lengthy.dir_open b h = string_faults _ b size inp out small large sent h
