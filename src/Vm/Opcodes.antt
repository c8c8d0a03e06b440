-- ===== src/Vm/Opcodes.antt =====
-- User/VMIOX/inc/opcodes.h and src/opcodes.c: the instruction codes and the four scans of a
-- program that decide which state is exchanged with the host.
use mathlib.Core.Bool.{cond}
use not.Prelude.{
  ℕ, zero, suc, ◌==◌, if◌then◌else◌, Bool, true, false, ◌||◌, List, [], ◌∷◌, Option, none, some,
}

pub data Opcode : Type 0 where
  nop : Opcode
  set_pin_x clear_pin_x : Opcode
  shift_left_in shift_right_out shift_left_out shift_right_in : Opcode
  wait_for_low wait_for_high wait_for_rising_edge wait_for_falling_edge : Opcode
  delay_nops_x delay_ticks_x delay_micros_x delay_millis_x : Opcode
  write_bank_a write_bank_d read_bank_a read_bank_d : Opcode
  input_floating input_pull_down input_pull_up output_pp output_od : Opcode
  call_x ret : Opcode
  assign_reg : Opcode
  push_down_pile_r push_up_pile_r pop_down_pile_t pop_up_pile_t : Opcode
  exit : Opcode

-- The `#define`s.
abbrev pub code_of : Opcode → ℕ
code_of nop = 0x00
code_of set_pin_x = 0x01
code_of clear_pin_x = 0x02
code_of shift_left_in = 0x03
code_of shift_right_out = 0x04
code_of shift_left_out = 0x0C
code_of shift_right_in = 0x0D
code_of wait_for_low = 0x05
code_of wait_for_high = 0x06
code_of wait_for_rising_edge = 0x07
code_of wait_for_falling_edge = 0x08
code_of delay_nops_x = 0x24
code_of delay_ticks_x = 0x09
code_of delay_micros_x = 0x0A
code_of delay_millis_x = 0x0B
code_of write_bank_a = 0x0E
code_of write_bank_d = 0x0F
code_of read_bank_a = 0x17
code_of read_bank_d = 0x18
code_of input_floating = 0x10
code_of input_pull_down = 0x11
code_of input_pull_up = 0x12
code_of output_pp = 0x13
code_of output_od = 0x14
code_of call_x = 0x15
code_of ret = 0x16
code_of assign_reg = 0x1F
code_of push_down_pile_r = 0x20
code_of push_up_pile_r = 0x21
code_of pop_down_pile_t = 0x22
code_of pop_up_pile_t = 0x23
code_of exit = 0xFF

-- The cases of the `switch` of `run`, in its order.
abbrev pub cases : List Opcode
cases =
    nop ∷ input_floating ∷ input_pull_down ∷ input_pull_up ∷ output_pp ∷ output_od ∷ set_pin_x
    ∷ clear_pin_x ∷ wait_for_rising_edge ∷ wait_for_falling_edge ∷ wait_for_low ∷ wait_for_high
    ∷ shift_left_in ∷ shift_right_out ∷ shift_right_in ∷ shift_left_out ∷ write_bank_a
    ∷ write_bank_d ∷ read_bank_a ∷ read_bank_d ∷ delay_nops_x ∷ delay_ticks_x ∷ delay_micros_x
    ∷ delay_millis_x ∷ call_x ∷ ret ∷ assign_reg ∷ push_up_pile_r ∷ push_down_pile_r ∷ pop_up_pile_t
    ∷ pop_down_pile_t ∷ exit ∷ []

abbrev pub find_case : List Opcode → ℕ → Option Opcode
find_case [] byte = none
find_case (c ∷ cs) byte = if byte == code_of c then some c else find_case cs byte

-- The case that the `switch` takes; `none` when no case has that code.
unfoldable pub decode : ℕ → Option Opcode
decode byte = find_case cases byte

-- `for (int i = 0; i < len; i += stride) if (program[i] is one of ops) return 1; return 0;`, on
-- the bytes from index `i` on: `skip` more bytes are passed over before the next test.
unfoldable pub scan : (ℕ → Bool) → ℕ → ℕ → List ℕ → Bool
scan test gap skip [] = false
scan test gap zero (b ∷ bs) = let rest = scan test gap gap bs in cond (test b) true rest
scan test gap (suc skip) (b ∷ bs) = scan test gap skip bs

unfoldable pub is_register_reader : ℕ → Bool
is_register_reader b =
    b == code_of shift_left_out
    || b == code_of shift_right_out
    || b == code_of read_bank_a
    || b == code_of read_bank_d
    || b == code_of assign_reg

unfoldable pub is_register_writer : ℕ → Bool
is_register_writer b =
    b == code_of shift_left_in
    || b == code_of shift_right_in
    || b == code_of write_bank_a
    || b == code_of write_bank_d
    || b == code_of assign_reg

unfoldable pub is_pile_reader : ℕ → Bool
is_pile_reader b = b == code_of pop_up_pile_t || b == code_of pop_down_pile_t

unfoldable pub is_pile_writer : ℕ → Bool
is_pile_writer b = b == code_of push_up_pile_r || b == code_of push_down_pile_r

-- The program is the list of its `len` bytes. The stride is 3 in three of the scans.
unfoldable pub reads_registers : List ℕ → Bool
reads_registers program = scan is_register_reader 2 0 program

unfoldable pub writes_registers : List ℕ → Bool
writes_registers program = scan is_register_writer 3 0 program

unfoldable pub reads_pile : List ℕ → Bool
reads_pile program = scan is_pile_reader 2 0 program

unfoldable pub writes_pile : List ℕ → Bool
writes_pile program = scan is_pile_writer 2 0 program
