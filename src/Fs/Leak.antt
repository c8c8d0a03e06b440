-- ===== src/Fs/Leak.antt =====
-- What an open that fails does to the handles of fs.c.
use not.Prelude.{
  ℕ, ◌+◌, ◌≤◌, ◌^◌, ◌==◌, ◌≡◌, ◌⊎◌, suc, inl, inr, refl, ◌∙◌, arith, List, some, set, length,
  length-set, ltb, false,
}
use not.Fs.{Fs, Littlefs, allocate_fh, no_handle, on_file, flashfs_file_open}
use not.Fs.Handles.{available, allocate_lem, available-set, get_elem?-set, get_elem?_below}

-- littlefs refuses to open the file: a negative code, on any file object and state.
abbrev pub Refuses : {L F D I : Type 0} → Littlefs L F D I → List ℕ → ℕ → Type 0
Refuses {L} {F} littlefs path flags =
    (file : F) (l : L) → 2 ^ 31 ≤ (littlefs.file_open file path flags l).0

module _ {L F D I : Type 0} (littlefs : Littlefs L F D I) (path : List ℕ) (flags : ℕ) where
  -- What the open does: -1 and nothing else when no handle is free, or the code of littlefs and a
  -- handle that stays taken.
  abbrev Leaks : Fs L F D I → Type 0
  Leaks s =
      ((available s.file_handles ≡ 0)
        × (flashfs_file_open littlefs path flags s ≡ some (no_handle, s)))
      ⊎ ((code : ℕ) × (s' : Fs L F D I) × (flashfs_file_open littlefs path flags s
            ≡ some (code, s'))
          × (2 ^ 31 ≤ code)
          × (length s'.file_handles ≡ length s.file_handles)
          × (available s.file_handles ≡ suc (available s'.file_handles)))

  -- `flashfs_file_open` when littlefs refuses: with a handle free the caller gets a negative code, and
  -- one handle less is free, though the caller has none to close; with none left the result is -1
  -- and nothing changes. The condition is that the table has at most 10 handles.
  pub file_open-Leaks :
      (s : Fs L F D I) → Refuses littlefs path flags → length s.file_handles ≤ 10 → Leaks s
  unfolding flashfs_file_open allocate_fh on_file
  file_open-Leaks s refuses small = elim (allocate_lem s.file_handles 0) [
    | inl (none_free, same) ↦ inl (none_free, rw (flashfs_file_open, same) refl)
    | inr a ↦
        let hs = set s.file_handles a.i (record (a.h) { taken = 1 }) in
        let opened = littlefs.file_open a.h.file path flags s.lfs in
        let below = get_elem?_below s.file_handles a.i a.h a.there in
        let at : 0 + a.i ≡ a.i = omega arith in
        let real : (a.i == no_handle) ≡ false = ground (arith, below) in
        let negative : ltb opened.0 (2 ^ 31) ≡ false = ground (arith, refuses a.h.file s.lfs) in
        let found = get_elem?-set s.file_handles a.i a.h (record (a.h) { taken = 1 }) a.there in
        inr (
          opened.0,
          record s {
            lfs = opened.2;
            file_handles = set hs a.i (record { file = opened.1; taken = 1 });
          },
          rw (flashfs_file_open, a.result, at, real, found, negative) (rw (a.result, at) refl),
          refuses a.h.file s.lfs,
          length-set hs a.i (record { file = opened.1; taken = 1 })
              ∙ length-set s.file_handles a.i (record (a.h) { taken = 1 }),
          omega
              (arith, a.one_less, available-set hs a.i (record (a.h) { taken = 1 }) opened.1 found),
        )
  ]
