-- ===== src/Adc.antt =====
-- User/Features/src/adc.c and touchkey.c: one conversion. The converter is not part of these
-- sources: the calls of its library and the writes to its registers are events, and what it answers
-- after a history is a parameter.
use not.Prelude.{
  ℕ, zero, suc, ◌+◌, ◌-◌, ◌^◌, ltb, leb, ◌==◌, bit_and, bit_or, if◌then◌else◌, Bool, true, false,
  ◌∷◌, Option, none, some,
}
use not.Hardware.{
  Trace, adc_channel, adc_start, adc_poll, adc_clear, tkey_ctlr1, tkey_idatar1, tkey_rdatar, u16,
}
use not.Vm.State.{Result, ok, waiting}

pub record Converter : Type 0 where
  pub done : Trace → Bool
  pub value : Trace → ℕ
  pub read_ctlr1 : Trace → ℕ
  pub read_rdatar : Trace → ℕ

-- `ADC_SampleTime_55Cycles5` and `ADC_SampleTime_7Cycles5`.
abbrev pub cycles_55 : ℕ
cycles_55 = 5

abbrev pub cycles_7 : ℕ
cycles_7 = 1

module _ (adc : Converter) where
  -- `while (ADC_GetFlagStatus(ADC1, ADC_FLAG_EOC) == RESET);` with fuel.
  unfoldable pub wait_eoc : ℕ → Trace → Result Trace
  wait_eoc zero t = waiting
  wait_eoc (suc fuel) t = elim (adc.done t) [
    | true ↦ ok (adc_poll ∷ t)
    | false ↦ wait_eoc fuel (adc_poll ∷ t)
  ]

  unfoldable pub adc_read : ℕ → ℕ → Trace → Result (ℕ × Trace)
  adc_read fuel pin t =
      let channel = if ltb pin 8 then pin else pin - 8 in
      elim (wait_eoc fuel (adc_start ∷ adc_channel channel cycles_55 ∷ t)) [
        | ok t' ↦ ok (u16 (adc.value t'), adc_clear ∷ t')
        | Result.fault ↦ Result.fault
        | waiting ↦ waiting
      ]

  -- The channel of a touch key; `none` is `return 0`.
  unfoldable pub tkey_channel : ℕ → Option ℕ
  tkey_channel pin =
      if leb pin 7
      then some pin
      else if pin == 16
      then some 8
      else if pin == 17
      then some 9
      else none

  -- `(1U << 24) | (1U << 26)`.
  abbrev pub tkey_bits : ℕ
  tkey_bits = 2 ^ 24 + 2 ^ 26

  unfoldable pub tkey_read : ℕ → ℕ → Trace → Result (ℕ × Trace)
  tkey_read fuel pin t = elim (tkey_channel pin) [
    | none ↦ ok (0, t)
    | some channel ↦
        let t₁ = tkey_ctlr1 (bit_or (adc.read_ctlr1 t) tkey_bits) ∷ t in
        elim (wait_eoc fuel
          (tkey_rdatar 0x08 ∷ tkey_idatar1 0x10 ∷ adc_channel channel cycles_7 ∷ t₁)) [
            | ok t₂ ↦ ok (
              u16 (adc.read_rdatar t₂),
              tkey_ctlr1 (bit_and (adc.read_ctlr1 t₂) (2 ^ 32 - 1 - tkey_bits)) ∷ t₂,
            )
            | Result.fault ↦ Result.fault
            | waiting ↦ waiting
          ]
  ]
