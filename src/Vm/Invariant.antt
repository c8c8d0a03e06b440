-- ===== src/Vm/Invariant.antt =====
-- The well-formedness of the interpreter's state, kept by every instruction of execute.c.
pub mod Steps
pub mod Loop
use not.Prelude.{
  ℕ, zero, suc, ◌+◌, ◌-◌, ◌*◌, ◌/◌, ◌%◌, ◌^◌, ◌<◌, ◌≤◌, ◌≡◌, refl, arith, Bool, true, false, List,
  ◌∷◌, Option, none, some, bit_and, bit_or, Option-cases, get_elem?, inl, inr,
}
use not.Hardware.{Trace, Hw, u8, u32, gpio_a, pin_is_high, read_port, Event}
use not.Vm.Opcodes.{Opcode, decode}
use not.Vm.State.{
  Vm, Result, ok, fault, waiting, ◌>>=◌, load, store, or_fault, advance, operand_x, operand_y,
  operand_u16,
}
use not.Vm.Returns.{
  Returns, returns, faults, waits, bind-Returns, AllBelow, load-Returns, IsArray, store-Returns,
}
use not.Vm.Shift.{exec_shift_right_out, exec_shift_left_out, exec_assign, drive_pin}
use not.Vm.Pile.{write_bit, put_bit, get_bit, one_less, from_top, exec_pop_up, exec_pop_down}
use not.Vm.Run.{execute, execute_byte, step, exec_call, exec_ret, Round, again, exited}

-- The arrays have the sizes of their declarations, their elements fit their types, and so do the
-- counters.
pub record IsValid (s : Vm) : Type 0 where
  pub pc_fits : s.pc < 2 ^ 32
  pub sp_fits : s.sp < 2 ^ 32
  pub tp_fits : s.tp < 2 ^ 32
  pub rp_fits : s.rp < 2 ^ 32
  pub stack_ok : IsArray 16 (2 ^ 32) s.stack
  pub registers_ok : IsArray 32 256 s.registers
  pub pile_t_ok : IsArray 256 256 s.pile_t
  pub pile_r_ok : IsArray 256 256 s.pile_r

pub IsValid-advance : (s : Vm) (t : Trace) → IsValid s → IsValid (advance s t)
IsValid-advance s t v = record {
  pc_fits = omega arith;
  sp_fits = v.sp_fits;
  tp_fits = v.tp_fits;
  rp_fits = v.rp_fits;
  stack_ok = v.stack_ok;
  registers_ok = v.registers_ok;
  pile_t_ok = v.pile_t_ok;
  pile_r_ok = v.pile_r_ok;
}

with_registers :
    (s : Vm) (r : List ℕ) → IsValid s → IsArray 32 256 r → IsValid (record s { registers = r })
with_registers s r v a = record {
  pc_fits = v.pc_fits;
  sp_fits = v.sp_fits;
  tp_fits = v.tp_fits;
  rp_fits = v.rp_fits;
  stack_ok = v.stack_ok;
  registers_ok = a;
  pile_t_ok = v.pile_t_ok;
  pile_r_ok = v.pile_r_ok;
}

-- The rule for a step that reads an array.
pub reads :
    {B : Type 0} (Q : B → Type 0) (n : ℕ) (xs : List ℕ) (i : ℕ) (f : ℕ → Result B)
    → AllBelow n xs
    → ((x : ℕ) → x < n → Returns Q (f x))
    → Returns Q (load xs i >>= f)
reads Q n xs i f all k = bind-Returns (λ x. x < n) Q (load xs i) f (load-Returns n xs i all) k

-- The rule for a step that writes an array.
pub writes :
    {B : Type 0} (Q : B → Type 0) (size bound : ℕ) (xs : List ℕ) (i v : ℕ) (f : List ℕ → Result B)
    → IsArray size bound xs
    → v < bound
    → ((ys : List ℕ) → IsArray size bound ys → Returns Q (f ys))
    → Returns Q (store xs i v >>= f)
writes Q size bound xs i v f a hv k =
    bind-Returns (IsArray size bound) Q (store xs i v) f (store-Returns size bound xs i v a hv) k

-- The rule for an instruction that ends with `pc += BYTES_PER_INSTRUCTION`.
pub advances : (s : Vm) (t : Trace) → IsValid s → Returns IsValid (ok (advance s t))
advances s t v = returns (IsValid-advance s t v)

operand_u16-Returns :
    (code : List ℕ) (s : Vm) → AllBelow 256 code → Returns (λ x. x < 2 ^ 16) (operand_u16 code s)
operand_u16-Returns code s bytes =
    reads (λ x. x < 2 ^ 16) 256 code (u32 (s.pc + 2)) _ bytes
      λ low hl.
        reads (λ x. x < 2 ^ 16) 256 code (u32 (s.pc + 3)) _ bytes λ high hh. returns (omega arith)

write_bit-lt : (b p : ℕ) (v : Bool) → write_bit b p v < 256
unfolding write_bit
write_bit-lt b p true = omega arith
write_bit-lt b p false = omega arith

put_bit-Returns :
    (pile : List ℕ) (i : ℕ) (v : Bool)
    → IsArray 256 256 pile
    → Returns (IsArray 256 256) (put_bit pile i v)
unfolding put_bit
put_bit-Returns pile i v a =
    reads (IsArray 256 256) 256 pile (i / 8) _ a.bounded
      λ b _. store-Returns 256 256 pile (i / 8) (write_bit b (i % 8) v) a (write_bit-lt b (i % 8) v)

get_bit-Returns : (pile : List ℕ) (i : ℕ) → Returns (λ _. Unit {0}) (get_bit pile i)
unfolding get_bit
get_bit-Returns pile i = elim (Option-cases (get_elem? pile (i / 8))) [
  | inl e ↦ rw e faults
  | inr (b, e) ↦ rw e (returns tt)
]

module _ (code : List ℕ) (s : Vm) (bytes : AllBelow 256 code) (v : IsValid s) where
  -- The rule for an instruction that reads both operands.
  pub two_operands :
      (f : ℕ → ℕ → Result Vm)
      → ((x y : ℕ) → Returns IsValid (f x y))
      → Returns IsValid (operand_x code s >>= λ x. operand_y code s >>= f x)
  two_operands f k =
      reads IsValid 256 code (u32 (s.pc + 2)) _ bytes
        λ x _. reads IsValid 256 code (u32 (s.pc + 3)) _ bytes λ y _. k x y

  pub one_operand :
      (f : ℕ → Result Vm)
      → ((x : ℕ) → Returns IsValid (f x))
      → Returns IsValid (operand_x code s >>= f)
  one_operand f k = reads IsValid 256 code (u32 (s.pc + 2)) _ bytes λ x _. k x

  pub word_operand :
      (f : ℕ → Result Vm)
      → ((x : ℕ) → x < 2 ^ 16 → Returns IsValid (f x))
      → Returns IsValid (operand_u16 code s >>= f)
  word_operand f k =
      bind-Returns (λ x. x < 2 ^ 16) IsValid (operand_u16 code s) f
        (operand_u16-Returns code s bytes) k

  -- The rule for an instruction that writes one register and goes on.
  pub sets_register :
      (reg value : ℕ) (t : Trace)
      → value < 256
      → Returns IsValid
          (store s.registers reg value >>= λ r. ok (advance (record s { registers = r }) t))
  sets_register reg value t hv =
      writes IsValid 32 256 s.registers reg value _ v.registers_ok hv
        λ r a. advances (record s { registers = r }) t (with_registers s r v a)

  pub call-IsValid : Returns IsValid (exec_call code s)
  unfolding exec_call
  call-IsValid = word_operand _ λ x hx.
      writes IsValid 16 (2 ^ 32) s.stack s.sp (u32 (s.pc + 4)) _ v.stack_ok (omega arith) λ st a.
        returns (record {
          pc_fits = omega arith;
          sp_fits = omega arith;
          tp_fits = v.tp_fits;
          rp_fits = v.rp_fits;
          stack_ok = a;
          registers_ok = v.registers_ok;
          pile_t_ok = v.pile_t_ok;
          pile_r_ok = v.pile_r_ok;
        })

  pub ret-IsValid : Returns IsValid (exec_ret s)
  unfolding exec_ret
  ret-IsValid = reads IsValid (2 ^ 32) s.stack (one_less s.sp) _ v.stack_ok.bounded λ link hl.
      returns (record {
        pc_fits = hl;
        sp_fits = omega arith;
        tp_fits = v.tp_fits;
        rp_fits = v.rp_fits;
        stack_ok = v.stack_ok;
        registers_ok = v.registers_ok;
        pile_t_ok = v.pile_t_ok;
        pile_r_ok = v.pile_r_ok;
      })

  pub assign-IsValid : Returns IsValid (exec_assign code s)
  unfolding exec_assign
  assign-IsValid = two_operands _ λ x y.
      reads IsValid 256 s.registers y _ v.registers_ok.bounded λ r hr. sets_register x r s.trace hr

  pub shift_right_out-IsValid : Returns IsValid (exec_shift_right_out code s)
  unfolding exec_shift_right_out
  shift_right_out-IsValid = two_operands _ λ x y.
      reads IsValid 256 s.registers y _ v.registers_ok.bounded
        λ r hr. sets_register y (r / 2) _ (omega arith)

  pub shift_left_out-IsValid : Returns IsValid (exec_shift_left_out code s)
  unfolding exec_shift_left_out
  shift_left_out-IsValid = two_operands _ λ x y.
      reads IsValid 256 s.registers y _ v.registers_ok.bounded
        λ r hr. sets_register y (u8 (r * 2)) _ (omega arith)

  -- The rule for an instruction that pops pile T.
  pops :
      (i : ℕ) (f : ℕ → Trace)
      → Returns IsValid
          (get_bit s.pile_t i >>= λ w. ok (advance (record s { tp = one_less s.tp }) (f w)))
  pops i f =
      bind-Returns (λ _. Unit {0}) IsValid (get_bit s.pile_t i) _ (get_bit-Returns s.pile_t i)
        λ w _.
          advances (record s { tp = one_less s.tp }) _
            (record {
              pc_fits = v.pc_fits;
              sp_fits = v.sp_fits;
              tp_fits = omega arith;
              rp_fits = v.rp_fits;
              stack_ok = v.stack_ok;
              registers_ok = v.registers_ok;
              pile_t_ok = v.pile_t_ok;
              pile_r_ok = v.pile_r_ok;
            })

  pub pop_up-IsValid : Returns IsValid (exec_pop_up code s)
  unfolding exec_pop_up
  pop_up-IsValid = one_operand _ λ x. pops (one_less s.tp) _

  pub pop_down-IsValid : Returns IsValid (exec_pop_down code s)
  unfolding exec_pop_down
  pop_down-IsValid = one_operand _ λ x. pops (from_top (one_less s.tp)) _

  -- The rule for an instruction that pushes on pile R.
  pub pushes :
      (i : ℕ) (b : Bool) (t : Trace)
      → Returns IsValid (
          put_bit s.pile_r i b >>= λ pile.
          ok (advance (record s { pile_r = pile; rp = u32 (s.rp + 1) }) t))
  pushes i b t =
      bind-Returns (IsArray 256 256) IsValid (put_bit s.pile_r i b) _
        (put_bit-Returns s.pile_r i b v.pile_r_ok)
        λ pile a.
          advances (record s { pile_r = pile; rp = u32 (s.rp + 1) }) t
            (record {
              pc_fits = v.pc_fits;
              sp_fits = v.sp_fits;
              tp_fits = v.tp_fits;
              rp_fits = omega arith;
              stack_ok = v.stack_ok;
              registers_ok = v.registers_ok;
              pile_t_ok = v.pile_t_ok;
              pile_r_ok = a;
            })
