-- ===== src/Fs.antt =====
-- User/Features/src/fs.c: the handles of open files and directories. littlefs is not part of these
-- sources: its calls are the fields of `Littlefs`. A C `int` is kept as 32 bits, so that the
-- negative numbers are those from 2 ^ 31 on.
pub mod Flash
pub mod Handles
pub mod Leak
mod Tests
use not.Prelude.{
  ℕ, suc, ◌+◌, ◌^◌, ◌-◌, ◌==◌, ltb, if◌then◌else◌, List, [], ◌∷◌, get_elem?, set, Option, none,
  some,
}

-- What the firmware calls of littlefs, on its state `L`, its file objects `F`, its directory objects
-- `D` and the entry `I` that `lfs_stat` and `lfs_dir_read` fill.
pub record Littlefs (L F D I : Type 0) : Type 0 where
  pub mount : L → ℕ × L
  pub format : L → ℕ × L
  pub remove : List ℕ → L → ℕ × L
  pub rename : List ℕ → List ℕ → L → ℕ × L
  pub stat : List ℕ → L → ℕ × I × L
  pub mkdir : List ℕ → L → ℕ × L
  pub file_open : F → List ℕ → ℕ → L → ℕ × F × L
  pub file_close : F → L → ℕ × F × L
  pub file_read : F → ℕ → L → ℕ × List ℕ × F × L
  pub file_write : F → List ℕ → L → ℕ × F × L
  pub file_seek : F → ℕ → ℕ → L → ℕ × F × L
  pub file_truncate : F → ℕ → L → ℕ × F × L
  pub dir_open : D → List ℕ → L → ℕ × D × L
  pub dir_close : D → L → ℕ × D × L
  pub dir_read : D → L → ℕ × I × D × L

-- `FLASHFS_FH` and `FLASHFS_DH`.
pub record Handle (X : Type 0) : Type 0 where
  pub file : X
  pub taken : ℕ

-- `-1` as `uint32_t`.
abbrev pub no_handle : ℕ
no_handle = 2 ^ 32 - 1

-- The loop over a table of handles, at index `i`: the first handle that is not taken.
unfoldable pub allocate : {X : Type 0} → List (Handle X) → ℕ → ℕ × List (Handle X)
allocate [] i = (no_handle, [])
allocate (h ∷ hs) i =
    let rest = allocate hs (i + 1) in
    if h.taken == 0 then (i, record h { taken = 1 } ∷ hs) else (rest.0, h ∷ rest.1)

-- The static variables of fs.c.
pub record Fs (L F D I : Type 0) : Type 0 where
  pub lfs : L
  pub file_handles : List (Handle F)
  pub dir_handles : List (Handle D)
  pub file_info : I

module _ {L F D I : Type 0} where
  unfoldable pub allocate_fh : Fs L F D I → ℕ × Fs L F D I
  allocate_fh s = let (i, hs) = allocate s.file_handles 0 in (i, record s { file_handles = hs })

  unfoldable pub allocate_dh : Fs L F D I → ℕ × Fs L F D I
  allocate_dh s = let (i, hs) = allocate s.dir_handles 0 in (i, record s { dir_handles = hs })

  -- `none` here and below: the handle is read or written out of bounds.
  unfoldable pub free_fh : ℕ → Fs L F D I → Option (Fs L F D I)
  free_fh fh s = elim (get_elem? s.file_handles fh) [
    | none ↦ none
    | some h ↦ some (record s { file_handles = set s.file_handles fh (record h { taken = 0 }) })
  ]

  unfoldable pub free_dh : ℕ → Fs L F D I → Option (Fs L F D I)
  free_dh dh s = elim (get_elem? s.dir_handles dh) [
    | none ↦ none
    | some h ↦ some (record s { dir_handles = set s.dir_handles dh (record h { taken = 0 }) })
  ]

  -- A call on the file of a handle: the new file goes back into the table.
  unfoldable pub on_file :
      {A : Type 0} → ℕ → (F → L → A × F × L) → Fs L F D I → Option (A × Fs L F D I)
  on_file fh call s = elim (get_elem? s.file_handles fh) [
    | none ↦ none
    | some h ↦
        let (code, file, lfs) = call h.file s.lfs in
        some (
          code,
          record s { lfs = lfs; file_handles = set s.file_handles fh (record h { file = file }) },
        )
  ]

  unfoldable pub on_dir :
      {A : Type 0} → ℕ → (D → L → A × D × L) → Fs L F D I → Option (A × Fs L F D I)
  on_dir dh call s = elim (get_elem? s.dir_handles dh) [
    | none ↦ none
    | some h ↦
        let (code, file, lfs) = call h.file s.lfs in
        some (
          code,
          record s { lfs = lfs; dir_handles = set s.dir_handles dh (record h { file = file }) },
        )
  ]

  module _ (littlefs : Littlefs L F D I) where
    -- Any code but 0 of the first mount formats the flash.
    unfoldable pub flashfs_init : Fs L F D I → Fs L F D I
    flashfs_init s =
        let (err, l) = littlefs.mount s.lfs in
        if err == 0
        then record s { lfs = l }
        else record s { lfs = (littlefs.mount (littlefs.format l).1).1 }

    unfoldable pub flashfs_remove : List ℕ → Fs L F D I → ℕ × Fs L F D I
    flashfs_remove path s =
        let (code, l) = littlefs.remove path s.lfs in (code, record s { lfs = l })

    unfoldable pub flashfs_move : List ℕ → List ℕ → Fs L F D I → ℕ × Fs L F D I
    flashfs_move from to s =
        let (code, l) = littlefs.rename from to s.lfs in (code, record s { lfs = l })

    unfoldable pub flashfs_file_info : List ℕ → Fs L F D I → ℕ × Fs L F D I
    flashfs_file_info path s =
        let (code, info, l) = littlefs.stat path s.lfs in
        (code, record s { lfs = l; file_info = info })

    unfoldable pub flashfs_mkdir : List ℕ → Fs L F D I → ℕ × Fs L F D I
    flashfs_mkdir path s = let (code, l) = littlefs.mkdir path s.lfs in (code, record s { lfs = l })

    unfoldable pub flashfs_file_open : List ℕ → ℕ → Fs L F D I → Option (ℕ × Fs L F D I)
    flashfs_file_open path flags s =
        let (fh, s') = allocate_fh s in
        if fh == no_handle
        then some (no_handle, s')
        else elim (on_file fh (λ file. littlefs.file_open file path flags) s') [
          | none ↦ none
          | some (code, s'') ↦ if ltb code (2 ^ 31) then some (fh, s'') else some (code, s'')
        ]

    unfoldable pub flashfs_file_close : ℕ → Fs L F D I → Option (ℕ × Fs L F D I)
    flashfs_file_close fh s = elim (on_file fh littlefs.file_close s) [
      | none ↦ none
      | some (code, s') ↦ elim (free_fh fh s') [ none ↦ none | some s'' ↦ some (code, s'') ]
    ]

    -- The code and the bytes put into the buffer.
    unfoldable pub flashfs_file_read : ℕ → ℕ → Fs L F D I → Option ((ℕ × List ℕ) × Fs L F D I)
    flashfs_file_read fh size s =
        on_file fh
          (λ file l.
            let (code, bytes, file', l') = littlefs.file_read file size l in
            ((code, bytes), file', l'))
          s

    unfoldable pub flashfs_file_write : ℕ → List ℕ → Fs L F D I → Option (ℕ × Fs L F D I)
    flashfs_file_write fh buffer s = on_file fh (λ file. littlefs.file_write file buffer) s

    unfoldable pub flashfs_file_seek : ℕ → ℕ → ℕ → Fs L F D I → Option (ℕ × Fs L F D I)
    flashfs_file_seek fh offset whence s =
        on_file fh (λ file. littlefs.file_seek file offset whence) s

    unfoldable pub flashfs_file_truncate : ℕ → ℕ → Fs L F D I → Option (ℕ × Fs L F D I)
    flashfs_file_truncate fh size s = on_file fh (λ file. littlefs.file_truncate file size) s

    unfoldable pub flashfs_dir_open : List ℕ → Fs L F D I → Option (ℕ × Fs L F D I)
    flashfs_dir_open path s =
        let (dh, s') = allocate_dh s in
        if dh == no_handle
        then some (no_handle, s')
        else elim (on_dir dh (λ file. littlefs.dir_open file path) s') [
          | none ↦ none
          | some (code, s'') ↦ if ltb code (2 ^ 31) then some (dh, s'') else some (code, s'')
        ]

    unfoldable pub flashfs_dir_close : ℕ → Fs L F D I → Option (ℕ × Fs L F D I)
    flashfs_dir_close dh s = elim (on_dir dh littlefs.dir_close s) [
      | none ↦ none
      | some (code, s') ↦ elim (free_dh dh s') [ none ↦ none | some s'' ↦ some (code, s'') ]
    ]

    unfoldable pub flashfs_dir_read : ℕ → Fs L F D I → Option (ℕ × Fs L F D I)
    flashfs_dir_read dh s =
        elim (on_dir {A = ℕ × I} dh
          (λ file l.
            let (code, info, file', l') = littlefs.dir_read file l in ((code, info), file', l'))
          s) [ none ↦ none | some ((code, info), s') ↦ some (code, record s' { file_info = info }) ]
