-- ===== src/Vm/Wait.antt =====
-- The blocking instructions of execute.c: they poll a pin of port A until its level changes or
-- the timer runs out.
use not.Prelude.{ℕ, zero, suc, ◌*◌, Bool, true, false, List, ◌∷◌}
use not.Hardware.{gpio_a, timer_start, timer_reset, Trace, Hw, pin_is_high, poll_timer, u32}
use not.Vm.State.{Vm, Result, ok, waiting, ◌>>=◌, operand_x, operand_y, advance}

abbrev pub same_level : Bool → Bool → Bool
same_level true b = b
same_level false true = false
same_level false false = true

-- `start_timer_us_u8(timeout)` starts the timer for 20 times as many microseconds.
unfoldable pub start_timer_us_u8 : ℕ → Trace → Trace
start_timer_us_u8 timeout t = timer_start (u32 (timeout * 20)) ∷ t

module _ (hw : Hw) where
  -- `while (pin has this level && !has_timer_timeout());`, on fuel.
  unfoldable pub wait_while : Bool → ℕ → ℕ → Trace → Result Trace
  wait_while level pin zero t = waiting
  wait_while level pin (suc fuel) t =
      let (high, t₁) = pin_is_high hw gpio_a pin t in
      let (done, t₂) = poll_timer hw t₁ in
      elim (same_level level high) [
        | false ↦ ok t₁
        | true ↦ elim done [ true ↦ ok t₂ | false ↦ wait_while level pin fuel t₂ ]
      ]

  -- WAIT_FOR_RISING_EDGE_X_TIMEOUT_Y.
  unfoldable pub exec_wait_rising : List ℕ → ℕ → Vm → Result Vm
  exec_wait_rising code fuel s = do
    pin_number ← operand_x code s
    timeout ← operand_y code s
    t₁ ← wait_while true pin_number fuel (start_timer_us_u8 timeout s.trace)
    t₂ ← wait_while false pin_number fuel t₁
    ok (advance s (timer_reset ∷ t₂))

  -- WAIT_FOR_FALLING_EDGE_X_TIMEOUT_Y.
  unfoldable pub exec_wait_falling : List ℕ → ℕ → Vm → Result Vm
  exec_wait_falling code fuel s = do
    pin_number ← operand_x code s
    timeout ← operand_y code s
    t₁ ← wait_while false pin_number fuel (start_timer_us_u8 timeout s.trace)
    t₂ ← wait_while true pin_number fuel t₁
    ok (advance s (timer_reset ∷ t₂))

  -- WAIT_FOR_LOW_PIN_X_TIMEOUT_Y.
  unfoldable pub exec_wait_low : List ℕ → ℕ → Vm → Result Vm
  exec_wait_low code fuel s = do
    pin_number ← operand_x code s
    timeout ← operand_y code s
    t ← wait_while true pin_number fuel (start_timer_us_u8 timeout s.trace)
    ok (advance s (timer_reset ∷ t))

  -- WAIT_FOR_HIGH_PIN_X_TIMEOUT_Y.
  unfoldable pub exec_wait_high : List ℕ → ℕ → Vm → Result Vm
  exec_wait_high code fuel s = do
    pin_number ← operand_x code s
    timeout ← operand_y code s
    t ← wait_while false pin_number fuel (start_timer_us_u8 timeout s.trace)
    ok (advance s (timer_reset ∷ t))
