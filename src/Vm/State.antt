-- ===== src/Vm/State.antt =====
-- The state of `run` in User/VMIOX/src/execute.c and how its arrays are read and written.
use not.Prelude.{
  ℕ, ◌+◌, ◌*◌, ◌^◌, ltb, if◌then◌else◌, List, Option, none, some, get_elem?, set, length,
}
use not.Hardware.{Trace, u32}

-- The locals and the arrays that the caller passes. `stack` is an array of 16 words.
pub record Vm : Type 0 where
  pub pc : ℕ
  pub sp : ℕ
  pub stack : List ℕ
  pub registers : List ℕ
  pub pile_t : List ℕ
  pub pile_r : List ℕ
  pub tp : ℕ
  pub rp : ℕ
  pub trace : Trace

-- `fault` is an access out of the bounds of an array, which C leaves undefined; `waiting` means
-- that the fuel of a loop ran out before the loop ended.
pub data Result {ℓ} (A : Type ℓ) : Type ℓ where
  ok : A → Result A
  fault waiting : Result A

infixl 5 ◌>>=◌
abbrev pub ◌>>=◌ {ℓ κ} : {A : Type ℓ} {B : Type κ} → Result A → (A → Result B) → Result B
ok a >>= f = f a
fault >>= f = fault
waiting >>= f = waiting

abbrev pub or_fault {ℓ} : {A : Type ℓ} → Option A → Result A
or_fault none = fault
or_fault (some a) = ok a

-- A read of an array.
abbrev pub load : List ℕ → ℕ → Result ℕ
load xs i = or_fault (get_elem? xs i)

-- A write of an array.
abbrev pub store : List ℕ → ℕ → ℕ → Result (List ℕ)
store xs i v = if ltb i (length xs) then ok (set xs i v) else fault

abbrev pub bytes_per_instruction : ℕ
bytes_per_instruction = 4

abbrev pub stack_size : ℕ
stack_size = 16

abbrev pub pile_size : ℕ
pile_size = 256

abbrev pub register_count : ℕ
register_count = 32

-- `opcodes[pc + 2]` and `opcodes[pc + 3]`: the operands X and Y.
abbrev pub operand_x : List ℕ → Vm → Result ℕ
operand_x code s = load code (u32 (s.pc + 2))

abbrev pub operand_y : List ℕ → Vm → Result ℕ
operand_y code s = load code (u32 (s.pc + 3))

-- `*(uint16_t*)(opcodes + pc + 2)`, little-endian.
abbrev pub operand_u16 : List ℕ → Vm → Result ℕ
operand_u16 code s =
    operand_x code s >>= λ low. operand_y code s >>= λ high. ok (low + high * 2 ^ 8)

-- `pc += BYTES_PER_INSTRUCTION`, with the history after the instruction.
abbrev pub advance : Vm → Trace → Vm
advance s t = record s { pc = u32 (s.pc + bytes_per_instruction); trace = t }
