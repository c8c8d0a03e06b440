-- ===== src/Vm/Invariant/Steps.antt =====
-- Every instruction that touches the pins keeps the state of execute.c well-formed, and so do a
-- round of the loop and a whole run.
use not.Prelude.{ℕ, arith, true, false, List, ◌∷◌}
use not.Hardware.{Trace, Hw, timer_reset}
use not.Gpio.{gpio_init_pin}
use not.Vm.State.{Vm, Result, ok, fault, waiting, ◌>>=◌, or_fault, advance}
use not.Vm.Returns.{Returns, returns, faults, waits, bind-Returns, AllBelow}
use not.Vm.Pins.{
  exec_setup, exec_set_pin, exec_clear_pin, exec_delay_nops, exec_delay_ticks, exec_delay_micros,
  exec_delay_millis,
}
use not.Vm.Wait.{
  wait_while, start_timer_us_u8, exec_wait_rising, exec_wait_falling, exec_wait_low, exec_wait_high,
}
use not.Vm.Shift.{
  exec_shift_left_in, exec_shift_right_in, exec_write_bank_a, exec_write_bank_d, exec_read_bank_a,
  exec_read_bank_d, shift_in_left, shift_in_right,
}
use not.Vm.Pile.{exec_push_up, exec_push_down, from_top}
use not.Vm.Invariant.{
  IsValid, reads, advances, two_operands, one_operand, word_operand, sets_register, pushes,
}

any_trace : (r : Result Trace) → Returns (λ _. Unit {0}) r
any_trace (ok t) = returns tt
any_trace fault = faults
any_trace waiting = waits

module _ (code : List ℕ) (s : Vm) (bytes : AllBelow 256 code) (v : IsValid s) where
  -- The rule for an instruction that only adds to the history.
  goes_on :
      (r : Result Trace) (f : Trace → Trace) → Returns IsValid (r >>= λ t. ok (advance s (f t)))
  goes_on r f = bind-Returns (λ _. Unit {0}) IsValid r _ (any_trace r) (λ t _. advances s (f t) v)

  pub set_pin-IsValid : Returns IsValid (exec_set_pin code s)
  unfolding exec_set_pin
  set_pin-IsValid = word_operand code s bytes v _ λ x _. advances s _ v

  pub clear_pin-IsValid : Returns IsValid (exec_clear_pin code s)
  unfolding exec_clear_pin
  clear_pin-IsValid = word_operand code s bytes v _ λ x _. advances s _ v

  pub delay_nops-IsValid : Returns IsValid (exec_delay_nops code s)
  unfolding exec_delay_nops
  delay_nops-IsValid = word_operand code s bytes v _ λ x _. advances s _ v

  pub delay_ticks-IsValid : Returns IsValid (exec_delay_ticks code s)
  unfolding exec_delay_ticks
  delay_ticks-IsValid = word_operand code s bytes v _ λ x _. advances s _ v

  pub delay_micros-IsValid : Returns IsValid (exec_delay_micros code s)
  unfolding exec_delay_micros
  delay_micros-IsValid = word_operand code s bytes v _ λ x _. advances s _ v

  pub delay_millis-IsValid : Returns IsValid (exec_delay_millis code s)
  unfolding exec_delay_millis
  delay_millis-IsValid = word_operand code s bytes v _ λ x _. advances s _ v

  module _ (hw : Hw) where
    pub setup-IsValid : (mode : ℕ) → Returns IsValid (exec_setup hw code mode s)
    unfolding exec_setup
    setup-IsValid mode =
        one_operand code s bytes v _
          λ x. goes_on (or_fault (gpio_init_pin hw x mode s.trace)) (λ t. t)

    pub shift_left_in-IsValid : Returns IsValid (exec_shift_left_in hw code s)
    unfolding exec_shift_left_in shift_in_left
    shift_left_in-IsValid = two_operands code s bytes v _ λ x y.
        reads IsValid 256 s.registers y _ v.registers_ok.bounded
          λ r hr. sets_register code s bytes v y _ _ (omega arith)

    pub shift_right_in-IsValid : Returns IsValid (exec_shift_right_in hw code s)
    unfolding exec_shift_right_in shift_in_right
    shift_right_in-IsValid = two_operands code s bytes v _ λ x y.
        reads IsValid 256 s.registers y _ v.registers_ok.bounded
          λ r hr. sets_register code s bytes v y _ _ (omega arith)

    pub write_bank_a-IsValid : Returns IsValid (exec_write_bank_a hw code s)
    unfolding exec_write_bank_a
    write_bank_a-IsValid =
        one_operand code s bytes v _
          λ x. reads IsValid 256 s.registers x _ v.registers_ok.bounded λ r hr. advances s _ v

    pub write_bank_d-IsValid : Returns IsValid (exec_write_bank_d hw code s)
    unfolding exec_write_bank_d
    write_bank_d-IsValid =
        one_operand code s bytes v _
          λ x. reads IsValid 256 s.registers x _ v.registers_ok.bounded λ r hr. advances s _ v

    pub read_bank_a-IsValid : Returns IsValid (exec_read_bank_a hw code s)
    unfolding exec_read_bank_a
    read_bank_a-IsValid =
        one_operand code s bytes v _ λ x. sets_register code s bytes v x _ _ (omega arith)

    pub read_bank_d-IsValid : Returns IsValid (exec_read_bank_d hw code s)
    unfolding exec_read_bank_d
    read_bank_d-IsValid =
        one_operand code s bytes v _ λ x. sets_register code s bytes v x _ _ (omega arith)

    pub push_up-IsValid : Returns IsValid (exec_push_up hw code s)
    unfolding exec_push_up
    push_up-IsValid = one_operand code s bytes v _ λ x. pushes code s bytes v s.rp _ _

    pub push_down-IsValid : Returns IsValid (exec_push_down hw code s)
    unfolding exec_push_down
    push_down-IsValid = one_operand code s bytes v _ λ x. pushes code s bytes v (from_top s.rp) _ _

    module _ (fuel : ℕ) where
      pub wait_low-IsValid : Returns IsValid (exec_wait_low hw code fuel s)
      unfolding exec_wait_low
      wait_low-IsValid = two_operands code s bytes v _ λ x y.
          goes_on (wait_while hw true x fuel (start_timer_us_u8 y s.trace)) (λ t. timer_reset ∷ t)

      pub wait_high-IsValid : Returns IsValid (exec_wait_high hw code fuel s)
      unfolding exec_wait_high
      wait_high-IsValid = two_operands code s bytes v _ λ x y.
          goes_on (wait_while hw false x fuel (start_timer_us_u8 y s.trace)) (λ t. timer_reset ∷ t)

      pub wait_rising-IsValid : Returns IsValid (exec_wait_rising hw code fuel s)
      unfolding exec_wait_rising
      wait_rising-IsValid = two_operands code s bytes v _ λ x y.
          let first = wait_while hw true x fuel (start_timer_us_u8 y s.trace) in
          bind-Returns (λ _. Unit {0}) IsValid first _ (any_trace first)
            λ t _. goes_on (wait_while hw false x fuel t) (λ t. timer_reset ∷ t)

      pub wait_falling-IsValid : Returns IsValid (exec_wait_falling hw code fuel s)
      unfolding exec_wait_falling
      wait_falling-IsValid = two_operands code s bytes v _ λ x y.
          let first = wait_while hw false x fuel (start_timer_us_u8 y s.trace) in
          bind-Returns (λ _. Unit {0}) IsValid first _ (any_trace first)
            λ t _. goes_on (wait_while hw true x fuel t) (λ t. timer_reset ∷ t)
