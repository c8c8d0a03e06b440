-- ===== src/Vm/Scans.antt =====
-- What the scans of opcodes.c find, against what the instructions of execute.c do.
use not.Prelude.{
  ℕ, zero, suc, ◌+◌, ◌*◌, ◌≡◌, ◌↔◌, inl, inr, sym, ap, ◌∙◌, arith, Bool, true, List, [], ◌∷◌, some,
  get_elem?, Bool-cases,
}
use not.Vm.Opcodes.{
  scan, is_register_reader, is_register_writer, is_pile_reader, is_pile_writer, reads_registers,
  writes_registers, reads_pile, writes_pile,
}

-- Some byte at a multiple of the stride, counted from `skip` on, passes the test.
abbrev pub Finds : (ℕ → Bool) → ℕ → ℕ → List ℕ → Type 0
Finds test stride skip program =
    (k : ℕ) × (b : ℕ) × (get_elem? program (skip + k * stride) ≡ some b) × (test b ≡ true)

module _ (test : ℕ → Bool) (gap : ℕ) where
  first : 0 + 0 * (gap + 1) ≡ 0
  first = omega arith

  scan-Finds :
      (skip : ℕ) (program : List ℕ)
      → scan test gap skip program ≡ true
      → Finds test (gap + 1) skip program
  unfolding scan
  scan-Finds skip [] h = cc
  scan-Finds zero (b ∷ bs) h = elim (Bool-cases (test b)) [
    | inl e ↦ (0, b, ap (get_elem? (b ∷ bs)) first, e)
    | inr e ↦
        let (k, x, found, passes) = scan-Finds gap bs (rw e at h) in
        let place : 0 + suc k * (gap + 1) ≡ suc (gap + k * (gap + 1)) = grind arith in
        (suc k, x, ap (get_elem? (b ∷ bs)) place ∙ found, passes)
  ]
  scan-Finds (suc skip) (b ∷ bs) h =
      let (k, x, found, passes) = scan-Finds skip bs h in
      let place : suc skip + k * (gap + 1) ≡ suc (skip + k * (gap + 1)) = omega arith in
      (k, x, ap (get_elem? (b ∷ bs)) place ∙ found, passes)

  finds_scan :
      (skip k b : ℕ) (program : List ℕ)
      → get_elem? program (skip + k * (gap + 1)) ≡ some b
      → test b ≡ true
      → scan test gap skip program ≡ true
  unfolding scan
  finds_scan skip k b [] found passes = cc
  finds_scan zero zero b (x ∷ xs) found passes =
      let here : some x ≡ some b = ap (get_elem? (x ∷ xs)) (sym first) ∙ found in
      ground (arith, here)
  finds_scan zero (suc k) b (x ∷ xs) found passes =
      let place : 0 + suc k * (gap + 1) ≡ suc (gap + k * (gap + 1)) = grind arith in
      let rest = finds_scan gap k b xs (rw place at found) passes in ground (arith, rest)
  finds_scan (suc skip) k b (x ∷ xs) found passes =
      let place : suc skip + k * (gap + 1) ≡ suc (skip + k * (gap + 1)) = omega arith in
      finds_scan skip k b xs (rw place at found) passes

  scan_iff : (program : List ℕ) → (scan test gap 0 program ≡ true) ↔ Finds test (gap + 1) 0 program
  scan_iff program = (scan-Finds 0 program, λ f. finds_scan 0 f.0 f.1 program f.2 f.3)

-- The register-writer scan tests exactly the bytes at multiples of 4, where instructions start;
-- the three others test exactly those at multiples of 3.
pub scans_find :
    (program : List ℕ)
    → ((writes_registers program ≡ true) ↔ Finds is_register_writer 4 0 program)
      × ((reads_registers program ≡ true) ↔ Finds is_register_reader 3 0 program)
      × ((reads_pile program ≡ true) ↔ Finds is_pile_reader 3 0 program)
      × ((writes_pile program ≡ true) ↔ Finds is_pile_writer 3 0 program)
unfolding writes_registers reads_registers reads_pile writes_pile
scans_find program = (
  scan_iff is_register_writer 3 program,
  scan_iff is_register_reader 2 program,
  scan_iff is_pile_reader 2 program,
  scan_iff is_pile_writer 2 program,
)
