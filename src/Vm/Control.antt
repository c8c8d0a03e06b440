-- ===== src/Vm/Control.antt =====
-- Calls, returns and unknown codes in the loop of execute.c.
use not.Prelude.{
  ℕ, zero, suc, ◌+◌, ◌-◌, ◌^◌, ◌<◌, ◌≤◌, ◌≡◌, inl, inr, refl, ap, ◌∙◌, arith, Bool, true, false,
  List, Option, none, some, leb, ltb, ◌&&◌, ◌||◌, Bool-cases, get_elem?, set, length, length-set,
  get_elem?-eq-get_or, get_elem?-none, get_or-set_self, holds_below, holds_below_sound,
  if◌then◌else◌,
}
use not.Hardware.{Hw, u32}
use not.Vm.Opcodes.{Opcode, decode}
use not.Vm.State.{Vm, ok, fault, waiting, operand_u16}
use not.Vm.Pile.{one_less}
use not.Vm.Run.{exec_call, exec_ret, execute_byte, step, run, again}

-- The state after a call that the stack has room for.
abbrev pub called : Vm → ℕ → Vm
called s target = record s { stack = set s.stack s.sp (u32 (s.pc + 4)); sp = s.sp + 1; pc = target }

exec_call_lem :
    (code : List ℕ) (s : Vm) (target : ℕ)
    → operand_u16 code s ≡ ok target
    → length s.stack ≡ 16
    → exec_call code s ≡ (if ltb s.sp 16 then ok (called s target) else fault)
unfolding exec_call
exec_call_lem code s target operand size = elim (Bool-cases (ltb s.sp 16)) [
  | inl e ↦
      let small : u32 (s.sp + 1) ≡ s.sp + 1 = ground arith in
      rw operand (rw size (rw e (ap (λ n. ok (record (called s target) { sp = n })) small)))
  | inr e ↦ rw operand (rw size (rw e refl))
]

saved :
    (s : Vm) (target : ℕ)
    → length s.stack ≡ 16
    → s.sp < 16
    → s.pc + 4 < 2 ^ 32
    → get_elem? (called s target).stack s.sp ≡ some (s.pc + 4)
saved s target size room small =
    let fits : u32 (s.pc + 4) ≡ s.pc + 4 = omega arith in
    let inside : s.sp < length (set s.stack s.sp (u32 (s.pc + 4))) =
      omega (arith, length-set s.stack s.sp (u32 (s.pc + 4))) in
    get_elem?-eq-get_or (set s.stack s.sp (u32 (s.pc + 4))) s.sp 0 inside
    ∙ ap some (get_or-set_self s.stack s.sp (u32 (s.pc + 4)) 0 (omega arith) ∙ fits)

-- With fewer than 16 calls open, CALL saves the address of the next instruction and jumps; a RET
-- back at the same depth, whatever ran in between, returns to that instruction if the saved word
-- is still in its slot.
pub exec_call-exec_ret :
    (code : List ℕ) (s s₂ : Vm) (target : ℕ)
    → operand_u16 code s ≡ ok target
    → length s.stack ≡ 16
    → s.sp < 16
    → s.pc + 4 < 2 ^ 32
    → s₂.sp ≡ s.sp + 1
    → get_elem? s₂.stack s.sp ≡ get_elem? (called s target).stack s.sp
    → (exec_call code s ≡ ok (called s target))
      × (exec_ret s₂ ≡ ok (record s₂ { sp = s.sp; pc = s.pc + 4 }))
unfolding exec_ret
exec_call-exec_ret code s s₂ target operand size room small depth kept =
    let fits : ltb s.sp 16 ≡ true = ground arith in
    let down : one_less s₂.sp ≡ s.sp = omega arith in
    (
      exec_call_lem code s target operand size ∙ rw fits refl,
      rw down (rw (kept ∙ saved s target size room small) refl),
    )

-- Opening a 17th call writes outside the 16 words of the stack, and a RET with no call open reads
-- outside them.
pub stack_bounds :
    (code : List ℕ) (s : Vm) (target : ℕ)
    → operand_u16 code s ≡ ok target
    → length s.stack ≡ 16
    → 16 ≤ s.sp
    → (exec_call code s ≡ fault) × (exec_ret (record s { sp = 0 }) ≡ fault)
unfolding exec_ret
stack_bounds code s target operand size full =
    let over : ltb s.sp 16 ≡ false = ground arith in
    let outside = get_elem?-none s.stack (2 ^ 32 - 1) (omega arith) in
    (exec_call_lem code s target operand size ∙ rw over refl, rw outside refl)

-- The codes between the last instruction and EXIT, and a gap before ASSIGN.
abbrev pub is_unused : ℕ → Bool
is_unused b = leb 0x25 b && ltb b 0xFF || leb 0x19 b && ltb b 0x1F

is_none : Option Opcode → Bool
is_none none = true
is_none (some op) = false

none_of : (o : Option Opcode) → is_none o ≡ true → o ≡ none
unfolding is_none
none_of none h = refl
none_of (some op) h = cc

unused_table : holds_below 256 (λ b. if is_unused b then is_none (decode b) else true) ≡ true
unfolding holds_below decode is_none
unused_table = refl

decode_unused : (b : ℕ) → b < 256 → is_unused b ≡ true → decode b ≡ none
decode_unused b h u =
    let row : (if is_unused b then is_none (decode b) else true) ≡ true =
      holds_below_sound 256 (λ x. if is_unused x then is_none (decode x) else true) b h
        unused_table in
    none_of (decode b) (rw u at row)

-- On a byte that is no instruction code a round changes nothing, so the interpreter never stops:
-- after any number of rounds it is still running.
pub run_unused :
    (hw : Hw) (code : List ℕ) (fuel rounds : ℕ) (s : Vm) (b : ℕ)
    → get_elem? code s.pc ≡ some b
    → b < 256
    → is_unused b ≡ true
    → (step hw code fuel s ≡ ok (again s)) × (run hw code fuel rounds s ≡ waiting)
unfolding run step execute_byte
run_unused hw code fuel rounds s b e h u = (stays, for_ever rounds)
  where
    stays : step hw code fuel s ≡ ok (again s)
    stays = rw (e, decode_unused b h u)

    for_ever : (n : ℕ) → run hw code fuel n s ≡ waiting
    for_ever zero = refl
    for_ever (suc n) = rw stays (for_ever n)
