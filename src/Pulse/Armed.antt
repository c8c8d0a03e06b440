-- ===== src/Pulse/Armed.antt =====
-- Which pulses the interrupt handlers of User/ch32v20x_it.c record, against the interrupt that
-- pulse_in.c enables for a pin.
use not.Prelude.{
  ℕ, ◌^◌, ◌<◌, ◌==◌, ◌≡◌, ◌≢◌, refl, sym, ◌∙◌, ap, arith, ltb, if◌then◌else◌, Bool, true, false,
  Bool-cases, inl, inr, List, [], ◌∷◌, holds_below, holds_below_sound,
}
use not.Hardware.{Trace}
use not.Pulse.{Pulses, capture_pulse}
use not.Pulse.Capture.{Interrupts, exti_irq, handled_pins, capture_on, capture_each, irq_handler}

-- The pin is not in the list; it is there once.
abbrev absent : ℕ → List ℕ → Bool
absent pin [] = true
absent pin (q ∷ qs) = if q == pin then false else absent pin qs

abbrev once : ℕ → List ℕ → Bool
once pin [] = false
once pin (q ∷ qs) = if q == pin then absent pin qs else once pin qs

module _ (interrupts : Interrupts) (pin : ℕ)
    (quiet : (q : ℕ) → q ≢ pin → (t : Trace) → interrupts.pending (2 ^ q) t ≡ false) where
  passes : (q : ℕ) (s : Pulses × Trace) → q ≢ pin → capture_on interrupts (2 ^ q) s ≡ s
  unfolding capture_on capture_pulse
  passes q (p, t) apart = rw (quiet q apart t) refl

  absent_lem :
      (pins : List ℕ) (s : Pulses × Trace)
      → absent pin pins ≡ true
      → capture_each interrupts pins s ≡ s
  unfolding capture_each
  absent_lem [] s e = refl
  absent_lem (q ∷ qs) s e = elim (Bool-cases (q == pin)) [
    | inl same ↦
        let no : false ≡ true = ap (λ t. if t then false else absent pin qs) (sym same) ∙ e in
        absurd (ground (arith, no))
    | inr other ↦
        let rest : absent pin qs ≡ true =
          ap (λ t. if t then false else absent pin qs) (sym other) ∙ e in
        ap (capture_each interrupts qs) (passes q s (ground (arith, other))) ∙ absent_lem qs s rest
  ]

  once_lem :
      (pins : List ℕ) (s : Pulses × Trace)
      → once pin pins ≡ true
      → capture_each interrupts pins s ≡ capture_on interrupts (2 ^ pin) s
  unfolding capture_each
  once_lem [] s e = absurd (ground (arith, e))
  once_lem (q ∷ qs) s e = elim (Bool-cases (q == pin)) [
    | inl same ↦
        let rest : absent pin qs ≡ true =
          ap (λ t. if t then absent pin qs else once pin qs) (sym same) ∙ e in
        let it : q ≡ pin = ground (arith, same) in
        absent_lem qs (capture_on interrupts (2 ^ q) s) rest
        ∙ ap (λ k. capture_on interrupts (2 ^ k) s) it
    | inr other ↦
        let rest : once pin qs ≡ true =
          ap (λ t. if t then absent pin qs else once pin qs) (sym other) ∙ e in
        ap (capture_each interrupts qs) (passes q s (ground (arith, other))) ∙ once_lem qs s rest
  ]

-- What a table of the pins gives: the handler of a pin's interrupt looks at the pin's line once, or,
-- from pin 16 on, not at all.
handled_ok : ℕ → Bool
handled_ok pin =
    let pins = handled_pins (exti_irq pin) in if ltb pin 16 then once pin pins else absent pin pins

all_handled : holds_below 20 handled_ok ≡ true
unfolding holds_below handled_ok handled_pins exti_irq
all_handled = refl

-- Where the line of one pin is pending and no other, the handler of the interrupt that pulse_in.c
-- enables for that pin records one pulse, the count of the timer, for each of the pins 0 to 15. For
-- the four other pins of the tables it records none: no handler looks at their lines.
pub irq_handler_lem :
    (interrupts : Interrupts) (pin : ℕ) (p : Pulses) (t : Trace)
    → pin < 20
    → ((q : ℕ) → q ≢ pin → (t : Trace) → interrupts.pending (2 ^ q) t ≡ false)
    → interrupts.pending (2 ^ pin) t ≡ true
    → (irq_handler interrupts (exti_irq pin) (p, t)).0
      ≡ (if ltb pin 16 then capture_pulse true (interrupts.counter t) p else p)
unfolding irq_handler capture_on handled_ok
irq_handler_lem interrupts pin p t known quiet pending =
    let handled = holds_below_sound 20 handled_ok pin known all_handled in
    elim (Bool-cases (ltb pin 16)) [
      | inl low ↦
          let here : once pin (handled_pins (exti_irq pin)) ≡ true =
            ap
              (λ b.
                if b
                then once pin (handled_pins (exti_irq pin))
                else absent pin (handled_pins (exti_irq pin)))
              (sym low)
            ∙ handled in
          rw low (
            ap (λ s. s.0) (once_lem interrupts pin quiet (handled_pins (exti_irq pin)) (p, t) here)
            ∙ ap (λ b. capture_pulse b (interrupts.counter t) p) pending)
      | inr high ↦
          let gone : absent pin (handled_pins (exti_irq pin)) ≡ true =
            ap
              (λ b.
                if b
                then once pin (handled_pins (exti_irq pin))
                else absent pin (handled_pins (exti_irq pin)))
              (sym high)
            ∙ handled in
          rw high (
            ap (λ s. s.0)
              (absent_lem interrupts pin quiet (handled_pins (exti_irq pin)) (p, t) gone))
    ]
