-- ===== src/Vm/Invariant/Loop.antt =====
-- A round of the loop of execute.c, and a whole run, keep the state well-formed.
use not.Prelude.{ℕ, zero, suc, List, Option, none, some}
use not.Hardware.{Hw}
use not.Vm.Opcodes.{Opcode, decode}
use not.Vm.State.{Vm, Result, ok, ◌>>=◌}
use not.Vm.Returns.{Returns, returns, waits, bind-Returns, AllBelow}
use not.Vm.Pins.{exec_nop}
use not.Gpio.{mode_in_floating, mode_ipd, mode_ipu, mode_out_pp, mode_out_od}
use not.Vm.Run.{execute, execute_byte, step, run, Round, again, exited}
use not.Vm.Invariant.{
  IsValid, reads, advances, call-IsValid, ret-IsValid, assign-IsValid, shift_right_out-IsValid,
  shift_left_out-IsValid, pop_up-IsValid, pop_down-IsValid,
}
use not.Vm.Invariant.Steps.{
  set_pin-IsValid, clear_pin-IsValid, delay_nops-IsValid, delay_ticks-IsValid, delay_micros-IsValid,
  delay_millis-IsValid, setup-IsValid, shift_left_in-IsValid, shift_right_in-IsValid,
  write_bank_a-IsValid, write_bank_d-IsValid, read_bank_a-IsValid, read_bank_d-IsValid,
  push_up-IsValid, push_down-IsValid, wait_low-IsValid, wait_high-IsValid, wait_rising-IsValid,
  wait_falling-IsValid,
}

-- The state after a round is well-formed.
abbrev pub RoundIsValid : Round → Type 0
RoundIsValid (again s) = IsValid s
RoundIsValid (exited s) = IsValid s

goes_again : (r : Result Vm) → Returns IsValid r → Returns RoundIsValid (r >>= λ s. ok (again s))
goes_again r h = bind-Returns IsValid RoundIsValid r _ h λ s v. returns v

module _ (hw : Hw) (code : List ℕ) (fuel : ℕ) (bytes : AllBelow 256 code) where
  execute-IsValid :
      (op : Opcode) (s : Vm) → IsValid s → Returns RoundIsValid (execute hw code fuel op s)
  unfolding execute exec_nop
  execute-IsValid Opcode.nop s v = goes_again _ (advances s s.trace v)
  execute-IsValid Opcode.input_floating s v =
      goes_again _ (setup-IsValid code s bytes v hw mode_in_floating)
  execute-IsValid Opcode.input_pull_down s v =
      goes_again _ (setup-IsValid code s bytes v hw mode_ipd)
  execute-IsValid Opcode.input_pull_up s v = goes_again _ (setup-IsValid code s bytes v hw mode_ipu)
  execute-IsValid Opcode.output_pp s v = goes_again _ (setup-IsValid code s bytes v hw mode_out_pp)
  execute-IsValid Opcode.output_od s v = goes_again _ (setup-IsValid code s bytes v hw mode_out_od)
  execute-IsValid Opcode.set_pin_x s v = goes_again _ (set_pin-IsValid code s bytes v)
  execute-IsValid Opcode.clear_pin_x s v = goes_again _ (clear_pin-IsValid code s bytes v)
  execute-IsValid Opcode.wait_for_rising_edge s v =
      goes_again _ (wait_rising-IsValid code s bytes v hw fuel)
  execute-IsValid Opcode.wait_for_falling_edge s v =
      goes_again _ (wait_falling-IsValid code s bytes v hw fuel)
  execute-IsValid Opcode.wait_for_low s v = goes_again _ (wait_low-IsValid code s bytes v hw fuel)
  execute-IsValid Opcode.wait_for_high s v = goes_again _ (wait_high-IsValid code s bytes v hw fuel)
  execute-IsValid Opcode.shift_left_in s v = goes_again _ (shift_left_in-IsValid code s bytes v hw)
  execute-IsValid Opcode.shift_right_out s v = goes_again _ (shift_right_out-IsValid code s bytes v)
  execute-IsValid Opcode.shift_right_in s v =
      goes_again _ (shift_right_in-IsValid code s bytes v hw)
  execute-IsValid Opcode.shift_left_out s v = goes_again _ (shift_left_out-IsValid code s bytes v)
  execute-IsValid Opcode.write_bank_a s v = goes_again _ (write_bank_a-IsValid code s bytes v hw)
  execute-IsValid Opcode.write_bank_d s v = goes_again _ (write_bank_d-IsValid code s bytes v hw)
  execute-IsValid Opcode.read_bank_a s v = goes_again _ (read_bank_a-IsValid code s bytes v hw)
  execute-IsValid Opcode.read_bank_d s v = goes_again _ (read_bank_d-IsValid code s bytes v hw)
  execute-IsValid Opcode.delay_nops_x s v = goes_again _ (delay_nops-IsValid code s bytes v)
  execute-IsValid Opcode.delay_ticks_x s v = goes_again _ (delay_ticks-IsValid code s bytes v)
  execute-IsValid Opcode.delay_micros_x s v = goes_again _ (delay_micros-IsValid code s bytes v)
  execute-IsValid Opcode.delay_millis_x s v = goes_again _ (delay_millis-IsValid code s bytes v)
  execute-IsValid Opcode.call_x s v = goes_again _ (call-IsValid code s bytes v)
  execute-IsValid Opcode.ret s v = goes_again _ (ret-IsValid code s bytes v)
  execute-IsValid Opcode.assign_reg s v = goes_again _ (assign-IsValid code s bytes v)
  execute-IsValid Opcode.push_up_pile_r s v = goes_again _ (push_up-IsValid code s bytes v hw)
  execute-IsValid Opcode.push_down_pile_r s v = goes_again _ (push_down-IsValid code s bytes v hw)
  execute-IsValid Opcode.pop_up_pile_t s v = goes_again _ (pop_up-IsValid code s bytes v)
  execute-IsValid Opcode.pop_down_pile_t s v = goes_again _ (pop_down-IsValid code s bytes v)
  execute-IsValid Opcode.exit s v = returns v

  execute_byte-IsValid :
      (o : Option Opcode) (s : Vm)
      → IsValid s
      → Returns RoundIsValid (execute_byte hw code fuel o s)
  unfolding execute_byte
  execute_byte-IsValid none s v = returns v
  execute_byte-IsValid (some op) s v = execute-IsValid op s v

  step-IsValid : (s : Vm) → IsValid s → Returns RoundIsValid (step hw code fuel s)
  unfolding step
  step-IsValid s v =
      reads RoundIsValid 256 code s.pc _ bytes λ byte _. execute_byte-IsValid (decode byte) s v

  -- Whatever program of bytes is run from a well-formed state, the state at its EXIT is
  -- well-formed: the arrays have kept their sizes and their elements and the counters fit
  -- their types.
  pub run-IsValid : (rounds : ℕ) (s : Vm) → IsValid s → Returns IsValid (run hw code fuel rounds s)
  unfolding run
  run-IsValid zero s v = waits
  run-IsValid (suc rounds) s v =
      bind-Returns RoundIsValid IsValid (step hw code fuel s) _ (step-IsValid s v)
        elim [ again s' ↦ λ v'. run-IsValid rounds s' v' | exited s' ↦ λ v'. returns v' ]
