-- ===== src/Fs/Flash/Bounds.antt =====
-- Where `flash_prog` and `flash_erase` of fs.c touch the flash.
use not.Prelude.{
  bit_and, bit_or, ℕ, zero, suc, ◌+◌, ◌*◌, ◌/◌, ◌%◌, ◌^◌, ◌<◌, ◌≤◌, ◌==◌, ◌||◌, ◌≡◌, ◌⊎◌, inl, inr,
  refl, arith, List, ◌∷◌, Bool, true, negate, Bool-cases,
}
use not.Fs.Flash.{
  FlashOp, unlock, clear_flag, lock, program, base_addr, block_size, addr_valid, phys_addr,
  prog_from, flash_prog,
}

-- Each new call of a log stays inside `size` bytes from an address, and the flash is locked in the
-- end.
abbrev pub Within : ℕ → ℕ → FlashOp → Type 0
Within from size (FlashOp.program addr half) = (from ≤ addr) × (addr + 2 ≤ from + size)
Within from size (FlashOp.erase addr) = addr ≡ from
Within from size op = Unit {0}

-- The calls of `new` that are not in `old`, all of them within the bytes.
pub data Touches (from size : ℕ) (old : List FlashOp) : List FlashOp → Type 0 where
  here : Touches from size old old
  more :
      (op : FlashOp) (log : List FlashOp)
      → Within from size op
      → Touches from size old log
      → Touches from size old (op ∷ log)

-- Nothing was called, or the last call locks the flash.
abbrev pub Locked : List FlashOp → List FlashOp → Type 0
Locked old new = (new ≡ old) ⊎ ((log : List FlashOp) × (new ≡ lock ∷ log))

addr_valid_lem :
    (block off size : ℕ)
    → addr_valid block off size ≡ true
    → off + size < 2 ^ 32
    → (block < 40) × (off + size ≤ 4096)
unfolding addr_valid
addr_valid_lem block off size e h = ground arith

phys_addr_lem :
    (block off : ℕ)
    → block < 40
    → off ≤ 4096
    → phys_addr block off ≡ base_addr + block * block_size + off
unfolding phys_addr
phys_addr_lem block off h h' = omega arith

prog_within :
    (completes : List FlashOp → Bool) (from size addr : ℕ) (src : ℕ → ℕ) (left i : ℕ)
    (old log : List FlashOp)
    → from ≤ addr
    → addr + i + left * 2 ≤ from + size
    → from + size < 2 ^ 32
    → Touches from size old log
    → Touches from size old (prog_from completes addr src left i log).1
      × ((l : List FlashOp) × ((prog_from completes addr src left i log).1 ≡ lock ∷ l))
unfolding prog_from
prog_within completes from size addr src zero i old log low high small t =
    (Touches.more lock log tt t, (log, refl))
prog_within completes from size addr src (suc left) i old log low high small t =
    let op = program ((addr + i) % 2 ^ 32) (bit_or (src i) (src (i + 1) * 2 ^ 8) % 2 ^ 16) in
    let fits : Within from size op = (omega arith, omega arith) in
    let t' = Touches.more op log fits t in
    elim (Bool-cases (completes (op ∷ log))) [
      | inl e ↦ rw e (
          prog_within completes from size addr src left (i + 2) old (op ∷ log) low (omega arith)
            small t')
      | inr e ↦ rw e (Touches.more lock (op ∷ log) tt t', (op ∷ log, refl))
    ]

-- `flash_prog` on every branch: it programs nothing outside the 4096 bytes of its block, and where
-- it calls the flash controller at all, its last call locks the flash, also after an error. The
-- condition is that `off + size` fits 32 bits.
pub flash_prog_lem :
    (completes : List FlashOp → Bool) (block off : ℕ) (src : ℕ → ℕ) (size : ℕ) (log : List FlashOp)
    → off + size < 2 ^ 32
    → Touches
        (base_addr + block * block_size)
        block_size
        log
        (flash_prog completes block off src size log).1
      × Locked log (flash_prog completes block off src size log).1
unfolding flash_prog
flash_prog_lem completes block off src size log h = elim (Bool-cases (addr_valid block off size)) [
  | inr e ↦ rw e (Touches.here, inl refl)
  | inl e ↦ elim (Bool-cases (negate (bit_and off 1 == 0) || negate (bit_and size 1 == 0))) [
    | inl odd ↦ rw (e, odd) (Touches.here, inl refl)
    | inr even ↦
        let (in_block, fits) = addr_valid_lem block off size e h in
        let addr = phys_addr_lem block off in_block (omega arith) in
        let (inside, last) =
          prog_within completes (base_addr + block * block_size) block_size (phys_addr block off)
            src (size / 2) 0 log (clear_flag ∷ unlock ∷ log) (omega (arith, addr))
            (omega (arith, addr)) (omega arith)
            (Touches.more clear_flag (unlock ∷ log) tt (Touches.more unlock log tt Touches.here)) in
        rw (e, even) (inside, inr last)
  ]
]
