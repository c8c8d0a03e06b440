-- ===== src/Vm/Pins.antt =====
-- The instructions of execute.c that set pins up, drive them or only pass time.
use not.Prelude.{ℕ, ◌∷◌, List}
use not.Hardware.{gpio_a, bshr, bcr, delay_us, delay_ms, delay_ticks, Hw, delay_nops}
use not.Gpio.{gpio_init_pin}
use not.Vm.State.{Vm, Result, ok, ◌>>=◌, or_fault, operand_x, operand_u16, advance}

-- NOP.
unfoldable pub exec_nop : Vm → Result Vm
exec_nop s = ok (advance s s.trace)

-- INPUT_FLOATING, INPUT_PULL_DOWN, INPUT_PULL_UP, OUTPUT_PP, OUTPUT_OD: one case for each mode.
unfoldable pub exec_setup : Hw → List ℕ → ℕ → Vm → Result Vm
exec_setup hw code mode s = do
  pin_number ← operand_x code s
  t ← or_fault (gpio_init_pin hw pin_number mode s.trace)
  ok (advance s t)

-- SET_PIN_X: the operand is a mask of the pins of port A.
unfoldable pub exec_set_pin : List ℕ → Vm → Result Vm
exec_set_pin code s = do mask ← operand_u16 code s; ok (advance s (bshr gpio_a mask ∷ s.trace))

-- CLEAR_PIN_X.
unfoldable pub exec_clear_pin : List ℕ → Vm → Result Vm
exec_clear_pin code s = do mask ← operand_u16 code s; ok (advance s (bcr gpio_a mask ∷ s.trace))

-- DELAY_NOPS_X.
unfoldable pub exec_delay_nops : List ℕ → Vm → Result Vm
exec_delay_nops code s = do
  nop_count ← operand_u16 code s
  ok (advance s (delay_nops nop_count s.trace).1)

-- DELAY_TICKS_X.
unfoldable pub exec_delay_ticks : List ℕ → Vm → Result Vm
exec_delay_ticks code s = do
  tick_count ← operand_u16 code s
  ok (advance s (delay_ticks tick_count ∷ s.trace))

-- DELAY_MICROS_X.
unfoldable pub exec_delay_micros : List ℕ → Vm → Result Vm
exec_delay_micros code s = do
  microseconds ← operand_u16 code s
  ok (advance s (delay_us microseconds ∷ s.trace))

-- DELAY_MILLIS_X.
unfoldable pub exec_delay_millis : List ℕ → Vm → Result Vm
exec_delay_millis code s = do
  milliseconds ← operand_u16 code s
  ok (advance s (delay_ms milliseconds ∷ s.trace))
