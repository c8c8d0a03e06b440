-- ===== src/Vm/Missed.antt =====
-- Programs of execute.c whose writes the scans of opcodes.c do not see.
use not.Prelude.{
  ℕ, ◌+◌, ◌<◌, ◌≡◌, refl, ap, ◌∙◌, arith, true, false, List, [], ◌∷◌, some, get_elem?, length,
  bit_and, set, length-set, get_or-set_self, get_elem?-eq-get_or, ltb,
}
use not.Hardware.{Hw, gpio_a, sample, u8, u32}
use not.Vm.Opcodes.{
  Opcode, decode, scan, is_register_writer, is_pile_writer, writes_registers, writes_pile,
}
use not.Vm.State.{Vm, ok}
use not.Vm.Run.{run, step, execute, again}
use not.Vm.Pins.{exec_nop}
use not.Vm.Shift.{exec_read_bank_a}
use not.Vm.Rounds.{step_at, run_again, run_exit, exit_round}
use not.Vm.Sampling.{push_once}

-- NOP, PUSH_UP pin, EXIT.
abbrev pub second_push : ℕ → List ℕ
second_push pin = 0 ∷ 0 ∷ 0 ∷ 0 ∷ 0x21 ∷ 0 ∷ pin ∷ 0 ∷ 0xFF ∷ 0 ∷ 0 ∷ 0 ∷ []

module _ (hw : Hw) (fuel pin : ℕ) (s : Vm) (small : pin < 20) (start : s.pc ≡ 0) where
  nop_round : step hw (second_push pin) fuel s ≡ ok (again (record s { pc = 4 }))
  unfolding execute exec_nop decode
  nop_round =
      let code = second_push pin in
      step_at hw code fuel s 0 Opcode.nop (ap (get_elem? code) start) refl
      ∙ ap (λ n. ok (again (record s { pc = u32 (n + 4) }))) start

  -- A program whose second instruction is a PUSH_UP of any pin below 20 runs to its EXIT and puts
  -- a bit on pile R, and the scan for pile writers does not see it.
  push_missed :
      s.rp ≡ 0
      → length s.pile_r ≡ 256
      → (writes_pile (second_push pin) ≡ false)
        × ((s' : Vm) × (run hw (second_push pin) fuel 3 s ≡ ok s') × (s'.rp ≡ 1))
  unfolding writes_pile scan is_pile_writer
  push_missed empty size =
      let code = second_push pin in
      let s₁ : Vm = record s { pc = 4 } in
      let (s₂, pushed, recorded) =
        push_once hw code fuel pin (omega arith) s₁ refl refl (omega arith) (omega arith)
          (omega arith) in
      (
        ground arith,
        (
          s₂,
          run_again hw code fuel 2 s s₁ nop_round
              ∙ run_again hw code fuel 1 s₁ s₂ pushed
              ∙ run_exit hw code fuel 0 s₂ s₂
                  (exit_round hw code fuel s₂ (ap (get_elem? code) recorded.moved)),
          omega (arith, recorded.counted),
        ),
      )

-- READ_BANK_A reg, EXIT.
abbrev pub bank_reader : ℕ → List ℕ
bank_reader reg = 0x17 ∷ 0 ∷ reg ∷ 0 ∷ 0xFF ∷ 0 ∷ 0 ∷ 0 ∷ []

module _ (hw : Hw) (fuel reg : ℕ) (s : Vm) (small : reg < 32) (start : s.pc ≡ 0) where
  -- The state after READ_BANK_A.
  abbrev bank_read : Vm
  bank_read =
      let byte = u8 (bit_and (hw.read_indr gpio_a s.trace) 0xFF) in
      record s { registers = set s.registers reg byte; pc = 4; trace = sample gpio_a ∷ s.trace }

  bank_round : length s.registers ≡ 32 → step hw (bank_reader reg) fuel s ≡ ok (again bank_read)
  unfolding execute exec_read_bank_a decode
  bank_round size =
      let code = bank_reader reg in
      let operand : get_elem? code (u32 (s.pc + 2)) ≡ some reg =
        ap (λ n. get_elem? code (u32 (n + 2))) start in
      let inside : ltb reg (length s.registers) ≡ true = ground arith in
      step_at hw code fuel s 0x17 Opcode.read_bank_a (ap (get_elem? code) start) refl
      ∙ rw operand (rw inside (ap (λ n. ok (again (record bank_read { pc = u32 (n + 4) }))) start))

-- READ_BANK_A stores the low byte of the port into its register, for each of the 32 registers,
-- and the scan for register writers does not count it as a write.
bank_read_missed :
    (hw : Hw) (fuel reg : ℕ) (s : Vm)
    → reg < 32
    → s.pc ≡ 0
    → length s.registers ≡ 32
    → (writes_registers (bank_reader reg) ≡ false)
      × ((s' : Vm) × (run hw (bank_reader reg) fuel 2 s ≡ ok s')
          × (get_elem? s'.registers reg ≡ some (u8 (bit_and (hw.read_indr gpio_a s.trace) 0xFF))))
unfolding writes_registers scan is_register_writer
bank_read_missed hw fuel reg s small start size =
    let code = bank_reader reg in
    let byte = u8 (bit_and (hw.read_indr gpio_a s.trace) 0xFF) in
    let after = bank_read hw fuel reg s small start in
    let inside : reg < length (set s.registers reg byte) =
      omega (arith, length-set s.registers reg byte) in
    (
      refl,
      (
        after,
        run_again hw code fuel 1 s after (bank_round hw fuel reg s small start size)
            ∙ run_exit hw code fuel 0 after after (exit_round hw code fuel after refl),
        get_elem?-eq-get_or (set s.registers reg byte) reg 0 inside
            ∙ ap some (get_or-set_self s.registers reg byte 0 (omega arith)),
      ),
    )

-- Two programs whose writes the scans do not see, for each pin below 20 and each of the 32 registers.
-- One whose second instruction is a PUSH_UP runs to its EXIT and puts a bit on pile R, and
-- writes_pile says that it does not write to the pile. One that starts with READ_BANK_A stores
-- the low byte of the port into the register, and writes_registers does not count it as a write.
pub writes_missed :
    (hw : Hw) (fuel pin reg : ℕ) (s : Vm)
    → pin < 20
    → reg < 32
    → s.pc ≡ 0
    → s.rp ≡ 0
    → length s.pile_r ≡ 256
    → length s.registers ≡ 32
    → ((writes_pile (second_push pin) ≡ false)
        × ((s' : Vm) × (run hw (second_push pin) fuel 3 s ≡ ok s') × (s'.rp ≡ 1)))
      × ((writes_registers (bank_reader reg) ≡ false)
          × ((s' : Vm) × (run hw (bank_reader reg) fuel 2 s ≡ ok s')
              × (get_elem? s'.registers reg
                  ≡ some (u8 (bit_and (hw.read_indr gpio_a s.trace) 0xFF)))))
writes_missed hw fuel pin reg s pins regs start empty pile size = (
  push_missed hw fuel pin s pins start empty pile,
  bank_read_missed hw fuel reg s regs start size,
)
