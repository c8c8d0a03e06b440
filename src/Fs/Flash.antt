-- ===== src/Fs/Flash.antt =====
-- User/Features/src/fs.c: the block device under littlefs. The flash controller is not part of
-- these sources: its calls are logged, and what a call answers after a log is a parameter.
pub mod Bounds
use not.Prelude.{
  ℕ, zero, suc, ◌+◌, ◌*◌, ◌/◌, ◌^◌, ◌-◌, ◌==◌, ltb, leb, ◌||◌, bit_and, bit_or, negate,
  if◌then◌else◌, Bool, true, false, List, ◌∷◌,
}
use not.Hardware.{u16, u32}

-- A call of the flash controller.
pub data FlashOp : Type 0 where
  unlock clear_flag lock : FlashOp
  program : ℕ → ℕ → FlashOp
  erase : ℕ → FlashOp

abbrev pub base_addr : ℕ
base_addr = 0x08010000

abbrev pub block_size : ℕ
block_size = 4096

-- 160 KiB of 4 KiB.
abbrev pub block_count : ℕ
block_count = 40

-- The codes of littlefs that these functions return, as 32 bits: -22 and -5.
abbrev pub err_inval : ℕ
err_inval = 2 ^ 32 - 22

abbrev pub err_io : ℕ
err_io = 2 ^ 32 - 5

unfoldable pub addr_valid : ℕ → ℕ → ℕ → Bool
addr_valid block off size =
    if leb block_count block
    then false
    else if ltb block_size (u32 (off + size))
    then false
    else true

unfoldable pub phys_addr : ℕ → ℕ → ℕ
phys_addr block off = u32 (u32 (base_addr + u32 (block * block_size)) + off)

-- `flash_read`: the bytes of the memory `mem`, from the address on, are what the caller gets.
unfoldable pub flash_read : (ℕ → ℕ → List ℕ) → ℕ → ℕ → ℕ → List ℕ → ℕ × List ℕ
flash_read mem block off size buffer =
    if negate (addr_valid block off size)
    then (err_inval, buffer)
    else (0, mem (phys_addr block off) size)

module _ (completes : List FlashOp → Bool) where
  -- The loop of `flash_prog` at index `i`, with `left` half words to go. `completes` says whether
  -- the newest call of the log returns `FLASH_COMPLETE`.
  unfoldable pub prog_from : ℕ → (ℕ → ℕ) → ℕ → ℕ → List FlashOp → ℕ × List FlashOp
  prog_from addr src zero i log = (0, lock ∷ log)
  prog_from addr src (suc left) i log =
      let half = u16 (bit_or (src i) (src (i + 1) * 2 ^ 8)) in
      let log' = program (u32 (addr + i)) half ∷ log in
      let rest = prog_from addr src left (i + 2) log' in
      if negate (completes log') then (err_io, lock ∷ log') else rest

  unfoldable pub flash_prog : ℕ → ℕ → (ℕ → ℕ) → ℕ → List FlashOp → ℕ × List FlashOp
  flash_prog block off src size log =
      if negate (addr_valid block off size)
      then (err_inval, log)
      else if negate (bit_and off 1 == 0) || negate (bit_and size 1 == 0)
      then (err_inval, log)
      else prog_from (phys_addr block off) src (size / 2) 0 (clear_flag ∷ unlock ∷ log)

  unfoldable pub flash_erase : ℕ → List FlashOp → ℕ × List FlashOp
  flash_erase block log =
      let log' = erase (phys_addr block 0) ∷ clear_flag ∷ unlock ∷ log in
      if leb block_count block
      then (err_inval, log)
      else if negate (completes log')
      then (err_io, lock ∷ log')
      else (0, lock ∷ log')
