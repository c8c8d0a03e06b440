-- ===== src/Packet/Paths.antt =====
-- Requests about files: a path or data from the host reaches the file system whole.
use not.Prelude.{
  ℕ, ◌^◌, ◌<◌, ◌≤◌, ◌≡◌, refl, ap, arith, List, [], ◌∷◌, ◌++◌, Option, none, some, length, drop,
}
use not.Usb.Serial.{bytes_of}
use not.Fs.{Fs, flashfs_remove, flashfs_move, flashfs_file_write}
use not.Vm.State.{ok, fault}
use not.Packet.{look, on_fs, mega_size, half, Chip, Board, try_fs, string_at}
use not.Packet.Memory.{
  splice, length-splice, IsText, c_string, c_string-splice, c_string-splice_after,
}
use not.Packet.Commands.{command_of}
use not.Packet.Files.{recv_flashfs_remove, recv_flashfs_move, recv_flashfs_file_write}
use not.Packet.Dispatch.{handle, serve, get_packet}
use not.Packet.Served.{Wire, Carries, get_mega_lem, send_u32-Reads}
use not.Packet.Chain.{after_ok, after_u8, after_u32, after_into, after_string}

module _ {S L F D I : Type 0} (c : Chip S L F D I) (w : Wire c) where
  string_at_lem :
      (b : Board S L F D I) (at : ℕ) (text : List ℕ)
      → c_string (drop at b.mega) ≡ text
      → string_at c at b ≡ ok (text, b)
  unfolding string_at look
  string_at_lem b at text e = ap (λ l. ok (l, b)) e

  -- A request to remove a file, whose path the host sends as a string: `flashfs_remove` runs on this
  -- very path, and the host is sent its result. The condition is that the link is a pipe, and that
  -- the path has no terminator in it and fits the shared buffer with its own.
  pub remove_request_lem :
      (b : Board S L F D I) (path inp out : List ℕ)
      → length b.mega ≡ mega_size
      → IsText path
      → length path < mega_size
      → 4 ≤ w.limit
      → Carries c w b (235 ∷ bytes_of (length path) ++ (path ++ inp)) out
      → (s : S) × (get_packet c b
          ≡ ok (
            tt,
            record b {
              link = s;
              mega = splice 0 (path ++ 0 ∷ []) b.mega;
              fs = (flashfs_remove c.littlefs path b.fs).1;
            },
          ))
        × w.Holds s inp (out ++ bytes_of (flashfs_remove c.littlefs path b.fs).0)
  unfolding get_packet serve handle command_of recv_flashfs_remove on_fs
  remove_request_lem b path inp out size t room four h = after_u8 c w _ b h (λ s₀ h₀.
      after_string c w _ _ 0 path (omega (arith, room)) h₀ (λ s₁ h₁.
        let there = c_string-splice 0 path b.mega t (omega (arith, size, room)) in
        after_ok c w _ _ _ (string_at_lem _ 0 path there)
          (after_ok c w _ _ _ refl (send_u32-Reads c w _ _ inp out four h₁))))

  -- A request to rename a file: both paths reach `flashfs_move` as the host sent them, though they
  -- share one buffer, and the host is sent its result. The condition is that the link is a pipe,
  -- that the paths have no terminator in them, and that each fits its half with its own.
  pub move_request_lem :
      (b : Board S L F D I) (from to inp out : List ℕ)
      → length b.mega ≡ mega_size
      → IsText from
      → IsText to
      → length from < half
      → length to < half
      → 4 ≤ w.limit
      → Carries c w b
          (236 ∷ bytes_of (length from) ++ (from ++ (bytes_of (length to) ++ (to ++ inp))))
          out
      → (s : S) × (get_packet c b
          ≡ ok (
            tt,
            record b {
              link = s;
              mega = splice half (to ++ 0 ∷ []) (splice 0 (from ++ 0 ∷ []) b.mega);
              fs = (flashfs_move c.littlefs from to b.fs).1;
            },
          ))
        × w.Holds s inp (out ++ bytes_of (flashfs_move c.littlefs from to b.fs).0)
  unfolding get_packet serve handle command_of recv_flashfs_move on_fs
  move_request_lem b from to inp out size t t' room room' four h = after_u8 c w _ b h (λ s₀ h₀.
      after_string c w _ _ 0 from (omega (arith, room)) h₀ (λ s₁ h₁.
        after_string c w _ _ half to (omega (arith, room')) h₁ (λ s₂ h₂.
          let memory = splice 0 (from ++ 0 ∷ []) b.mega in
          let first =
            c_string-splice_after half from (to ++ 0 ∷ []) b.mega t (omega (arith, size, room))
              room in
          let second =
            c_string-splice half to memory t'
              (omega (arith, size, length-splice 0 (from ++ 0 ∷ []) b.mega, room')) in
          after_ok c w _ _ _ (string_at_lem _ 0 from first) (
            after_ok c w _ _ _ (string_at_lem _ half to second)
              (after_ok c w _ _ _ refl (send_u32-Reads c w _ _ inp out four h₂))))))

  tried :
      {A : Type 0} (f : Fs L F D I → Option (A × Fs L F D I)) (b : Board S L F D I) {a : A}
      {fs : Fs L F D I}
      → f b.fs ≡ some (a, fs)
      → try_fs c f b ≡ ok (a, record b { fs = fs })
  unfolding try_fs
  tried f b e = ap (λ o. elim o [ none ↦ fault | some (a, fs) ↦ ok (a, record b { fs = fs }) ]) e

  -- A request to write to a file: `flashfs_file_write` is given the bytes that the host sent, on the
  -- handle that it named, and the host is sent its result. The condition is that the link is a pipe,
  -- that the data fit the shared buffer, and that the handle is inside the array of handles.
  pub file_write_request_lem :
      (b : Board S L F D I) (fh code : ℕ) (bytes inp out : List ℕ) (fs : Fs L F D I)
      → length b.mega ≡ mega_size
      → length bytes ≤ mega_size
      → fh < 2 ^ 32
      → 4 ≤ w.limit
      → flashfs_file_write c.littlefs fh bytes b.fs ≡ some (code, fs)
      → Carries c w b (241 ∷ bytes_of fh ++ (bytes_of (length bytes) ++ (bytes ++ inp))) out
      → (s : S) × (get_packet c b
          ≡ ok (tt, record b { link = s; mega = splice 0 bytes b.mega; fs = fs }))
        × w.Holds s inp (out ++ bytes_of code)
  unfolding get_packet serve handle command_of recv_flashfs_file_write
  file_write_request_lem b fh code bytes inp out fs size room small four written h =
      after_u8 c w _ b h (λ s₀ h₀. after_u32 c w _ _ fh small h₀ (λ s₁ h₁.
        after_u32 c w _ _ (length bytes) (omega (arith, room)) h₁ (λ s₂ h₂.
          after_into c w _ _ 0 bytes (omega (arith, room)) h₂ (λ s₃ h₃.
            after_ok c w _ _ _ (get_mega_lem c w _ 0 bytes b.mega refl size (omega (arith, room))) (
              after_ok c w _ _ _ (tried (flashfs_file_write c.littlefs fh bytes) _ written)
                (send_u32-Reads c w _ code inp out four h₃))))))
