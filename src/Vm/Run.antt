-- ===== src/Vm/Run.antt =====
-- The loop of `run` in execute.c.
use not.Prelude.{ℕ, zero, suc, ◌+◌, List, Option, none, some}
use not.Hardware.{Hw, u32}
use not.Gpio.{mode_in_floating, mode_ipd, mode_ipu, mode_out_pp, mode_out_od}
use not.Vm.Opcodes.{Opcode, decode}
use not.Vm.State.{Vm, Result, ok, waiting, ◌>>=◌, load, store, operand_u16, bytes_per_instruction}
use not.Vm.Pile.{one_less, exec_push_up, exec_push_down, exec_pop_up, exec_pop_down}
use not.Vm.Wait.{exec_wait_rising, exec_wait_falling, exec_wait_low, exec_wait_high}
use not.Vm.Pins.{
  exec_nop, exec_setup, exec_set_pin, exec_clear_pin, exec_delay_nops, exec_delay_ticks,
  exec_delay_micros, exec_delay_millis,
}
use not.Vm.Shift.{
  exec_shift_left_in, exec_shift_right_in, exec_shift_right_out, exec_shift_left_out,
  exec_write_bank_a, exec_write_bank_d, exec_read_bank_a, exec_read_bank_d, exec_assign,
}

-- CALL_X: the address of the next instruction goes on the stack.
unfoldable pub exec_call : List ℕ → Vm → Result Vm
exec_call code s = do
  jump_address ← operand_u16 code s
  stack ← store s.stack s.sp (u32 (s.pc + bytes_per_instruction))
  ok (record s { stack = stack; sp = u32 (s.sp + 1); pc = jump_address })

-- RET.
unfoldable pub exec_ret : Vm → Result Vm
exec_ret s = do link ← load s.stack (one_less s.sp); ok (record s { sp = one_less s.sp; pc = link })

-- How one round of the loop ends.
pub data Round : Type 0 where
  again : Vm → Round
  exited : Vm → Round

abbrev on_again : Result Vm → Result Round
on_again r = r >>= λ s. ok (again s)

module _ (hw : Hw) (code : List ℕ) (fuel : ℕ) where
  -- The `switch`, case by case. `fuel` bounds the polls of each blocking instruction.
  unfoldable pub execute : Opcode → Vm → Result Round
  execute Opcode.nop s = on_again (exec_nop s)
  execute Opcode.input_floating s = on_again (exec_setup hw code mode_in_floating s)
  execute Opcode.input_pull_down s = on_again (exec_setup hw code mode_ipd s)
  execute Opcode.input_pull_up s = on_again (exec_setup hw code mode_ipu s)
  execute Opcode.output_pp s = on_again (exec_setup hw code mode_out_pp s)
  execute Opcode.output_od s = on_again (exec_setup hw code mode_out_od s)
  execute Opcode.set_pin_x s = on_again (exec_set_pin code s)
  execute Opcode.clear_pin_x s = on_again (exec_clear_pin code s)
  execute Opcode.wait_for_rising_edge s = on_again (exec_wait_rising hw code fuel s)
  execute Opcode.wait_for_falling_edge s = on_again (exec_wait_falling hw code fuel s)
  execute Opcode.wait_for_low s = on_again (exec_wait_low hw code fuel s)
  execute Opcode.wait_for_high s = on_again (exec_wait_high hw code fuel s)
  execute Opcode.shift_left_in s = on_again (exec_shift_left_in hw code s)
  execute Opcode.shift_right_out s = on_again (exec_shift_right_out code s)
  execute Opcode.shift_right_in s = on_again (exec_shift_right_in hw code s)
  execute Opcode.shift_left_out s = on_again (exec_shift_left_out code s)
  execute Opcode.write_bank_a s = on_again (exec_write_bank_a hw code s)
  execute Opcode.write_bank_d s = on_again (exec_write_bank_d hw code s)
  execute Opcode.read_bank_a s = on_again (exec_read_bank_a hw code s)
  execute Opcode.read_bank_d s = on_again (exec_read_bank_d hw code s)
  execute Opcode.delay_nops_x s = on_again (exec_delay_nops code s)
  execute Opcode.delay_ticks_x s = on_again (exec_delay_ticks code s)
  execute Opcode.delay_micros_x s = on_again (exec_delay_micros code s)
  execute Opcode.delay_millis_x s = on_again (exec_delay_millis code s)
  execute Opcode.call_x s = on_again (exec_call code s)
  execute Opcode.ret s = on_again (exec_ret s)
  execute Opcode.assign_reg s = on_again (exec_assign code s)
  execute Opcode.push_up_pile_r s = on_again (exec_push_up hw code s)
  execute Opcode.push_down_pile_r s = on_again (exec_push_down hw code s)
  execute Opcode.pop_up_pile_t s = on_again (exec_pop_up code s)
  execute Opcode.pop_down_pile_t s = on_again (exec_pop_down code s)
  execute Opcode.exit s = ok (exited s)

  -- A byte with no case leaves the state alone, and the loop goes on: `switch` has no `default`.
  unfoldable pub execute_byte : Option Opcode → Vm → Result Round
  execute_byte none s = ok (again s)
  execute_byte (some op) s = execute op s

  -- One round: `switch (opcodes[pc])`.
  unfoldable pub step : Vm → Result Round
  step s = load code s.pc >>= λ byte. execute_byte (decode byte) s

  -- The rounds until EXIT; `waiting` when there are more than `rounds`.
  unfoldable pub run : ℕ → Vm → Result Vm
  run zero s = waiting
  run (suc rounds) s = step s >>= elim [ again s' ↦ run rounds s' | exited s' ↦ ok s' ]
