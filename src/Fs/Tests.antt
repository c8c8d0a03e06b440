-- ===== src/Fs/Tests.antt =====
-- fs.c with a file system that refuses every call.
use not.Prelude.{
  ℕ, suc, ◌+◌, ◌*◌, ◌-◌, ◌^◌, ◌≤◌, ◌≡◌, ◌⊎◌, arith, true, List, [], ◌∷◌, some, replicate, length,
}
use not.Fs.{Handle, Fs, Littlefs, allocate, no_handle, flashfs_file_open}
use not.Fs.Handles.{available, Allocated, allocate_lem}
use not.Fs.Leak.{file_open-Leaks}
use not.Fs.Flash.{base_addr, block_size, flash_prog}
use not.Fs.Flash.Bounds.{Touches, Locked, flash_prog_lem}

abbrev refusing : Littlefs ℕ ℕ ℕ ℕ
refusing = record {
  mount = λ l. (0, l);
  format = λ l. (0, l);
  remove = λ p l. (2 ^ 32 - 2, l);
  rename = λ p q l. (2 ^ 32 - 2, l);
  stat = λ p l. (2 ^ 32 - 2, 0, l);
  mkdir = λ p l. (2 ^ 32 - 2, l);
  file_open = λ f p n l. (2 ^ 32 - 2, f, l);
  file_close = λ f l. (2 ^ 32 - 2, f, l);
  file_read = λ f n l. (2 ^ 32 - 2, [], f, l);
  file_write = λ f b l. (2 ^ 32 - 2, f, l);
  file_seek = λ f n w l. (2 ^ 32 - 2, f, l);
  file_truncate = λ f n l. (2 ^ 32 - 2, f, l);
  dir_open = λ d p l. (2 ^ 32 - 2, d, l);
  dir_close = λ d l. (2 ^ 32 - 2, d, l);
  dir_read = λ d l. (2 ^ 32 - 2, 0, d, l);
}

abbrev free_handle : Handle ℕ
free_handle = record { file = 0; taken = 0 }

abbrev taken_handle : Handle ℕ
taken_handle = record { file = 0; taken = 1 }

abbrev at_boot : Fs ℕ ℕ ℕ ℕ
at_boot = record {
  lfs = 0;
  file_handles = replicate 10 free_handle;
  dir_handles = replicate 10 free_handle;
  file_info = 0;
}

abbrev path : List ℕ
path = 0x61 ∷ 0 ∷ []

file_open-Leaks_example :
    ((available at_boot.file_handles ≡ 0)
      × (flashfs_file_open refusing path 1 at_boot ≡ some (no_handle, at_boot)))
    ⊎ ((code : ℕ) × (s' : Fs ℕ ℕ ℕ ℕ) × (flashfs_file_open refusing path 1 at_boot
          ≡ some (code, s'))
        × (2 ^ 31 ≤ code)
        × (length s'.file_handles ≡ 10)
        × (10 ≡ suc (available s'.file_handles)))
file_open-Leaks_example = file_open-Leaks refusing path 1 at_boot (λ f l. omega arith) (omega arith)

abbrev second_free : List (Handle ℕ)
second_free = taken_handle ∷ free_handle ∷ free_handle ∷ []

allocate_lem_example :
    ((available second_free ≡ 0) × (allocate second_free 0 ≡ (no_handle, second_free)))
    ⊎ Allocated second_free 0
allocate_lem_example = allocate_lem second_free 0

-- Four bytes at the start of the last block.
flash_prog_lem_example :
    Touches
      (base_addr + 39 * block_size)
      block_size
      []
      (flash_prog (λ log. true) 39 0 (λ i. i) 4 []).1
    × Locked [] (flash_prog (λ log. true) 39 0 (λ i. i) 4 []).1
flash_prog_lem_example = flash_prog_lem (λ log. true) 39 0 (λ i. i) 4 [] (omega arith)
