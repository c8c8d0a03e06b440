-- ===== src/Pulse/Capture.antt =====
-- The interrupts of the pulse capture: how User/Features/src/pulse_in.c arms the line of a pin, and
-- the handlers of User/ch32v20x_it.c.
use not.Prelude.{ℕ, ◌+◌, ◌^◌, ◌==◌, leb, if◌then◌else◌, Bool, List, [], ◌∷◌, Option, none, some}
use not.Hardware.{
  Trace, Hw, gpio_a, bshr, bcr, delay_us, exti_source, exti_enable, exti_disable, exti_clear,
  nvic_enable, tim4_start, tim4_stop, u32,
}
use not.Gpio.{gpio_init_pin, mode_out_od, mode_in_floating}
use not.Pulse.{Pulses, capture_pulse}

-- The numbers of the interrupts.
abbrev pub exti0_irq : ℕ
exti0_irq = 22

abbrev pub exti9_5_irq : ℕ
exti9_5_irq = 39

abbrev pub exti15_10_irq : ℕ
exti15_10_irq = 56

-- The choice of the interrupt in `EXTI_INIT`.
unfoldable pub exti_irq : ℕ → ℕ
exti_irq pin =
    if leb pin 4 then exti0_irq + pin else if leb pin 9 then exti9_5_irq else exti15_10_irq

abbrev pub line_of : ℕ → ℕ
line_of pin = u32 (2 ^ pin)

-- `EXTI_INIT`: the calls of the vendor's library.
unfoldable pub exti_init : ℕ → Trace → Trace
exti_init pin t =
    nvic_enable (exti_irq pin)
    ∷ exti_clear (line_of pin)
    ∷ exti_enable (line_of pin)
    ∷ exti_source pin
    ∷ t

unfoldable pub exti_deinit : ℕ → Trace → Trace
exti_deinit pin t = exti_clear (line_of pin) ∷ exti_disable (line_of pin) ∷ t

-- `none` when the pin is not in the tables of gpio.c.
unfoldable pub pulseio_in_resume : Hw → ℕ → ℕ → Trace → Option Trace
pulseio_in_resume hw pin trigger_duration t =
    elim (if trigger_duration == 0 then some t else elim (gpio_init_pin hw pin mode_out_od t) [
      | none ↦ none
      | some t₁ ↦
          some
            (bshr gpio_a (line_of pin) ∷ delay_us trigger_duration ∷ bcr gpio_a (line_of pin) ∷ t₁)
    ]) [
      | none ↦ none
      | some t₂ ↦ elim (gpio_init_pin hw pin mode_in_floating t₂) [
        | none ↦ none
        | some t₃ ↦ some (tim4_start ∷ exti_init pin t₃)
      ]
    ]

unfoldable pub pulseio_in_stop : ℕ → Trace → Trace
pulseio_in_stop pin t = tim4_stop ∷ exti_deinit pin t

-- What the interrupt lines and the timer answer after a history.
pub record Interrupts : Type 0 where
  pub pending : ℕ → Trace → Bool
  pub counter : Trace → ℕ

-- The lines on which a handler calls `capture_pulse`, in its order.
unfoldable pub handled_pins : ℕ → List ℕ
handled_pins irq =
    if irq == exti9_5_irq
    then 5 ∷ 6 ∷ 7 ∷ 8 ∷ 9 ∷ []
    else if irq == exti15_10_irq
    then 10 ∷ 11 ∷ 12 ∷ 13 ∷ 14 ∷ 15 ∷ []
    else if irq == exti0_irq
    then 0 ∷ []
    else if irq == exti0_irq + 1
    then 1 ∷ []
    else if irq == exti0_irq + 2
    then 2 ∷ []
    else if irq == exti0_irq + 3
    then 3 ∷ []
    else if irq == exti0_irq + 4
    then 4 ∷ []
    else []

module _ (interrupts : Interrupts) where
  -- `capture_pulse` with its calls: the timer is stopped and started around the store.
  unfoldable pub capture_on : ℕ → Pulses × Trace → Pulses × Trace
  capture_on line (p, t) =
      let pending = interrupts.pending line t in
      (
        capture_pulse pending (interrupts.counter t) p,
        if pending then tim4_start ∷ exti_clear line ∷ tim4_stop ∷ t else t,
      )

  unfoldable pub capture_each : List ℕ → Pulses × Trace → Pulses × Trace
  capture_each [] s = s
  capture_each (pin ∷ pins) s = capture_each pins (capture_on (2 ^ pin) s)

  -- The handler of an interrupt: `EXTI0_IRQHandler` to `EXTI15_10_IRQHandler`.
  unfoldable pub irq_handler : ℕ → Pulses × Trace → Pulses × Trace
  irq_handler irq s = capture_each (handled_pins irq) s
