-- ===== src/Vm/Waiting.antt =====
-- The blocking instructions of execute.c end, and why they end.
use mathlib.Core.Bool.{false≢true}
use native.Mathlib.Decide.{dec_lt}
use not.Prelude.{
  ℕ, zero, suc, ◌+◌, ◌*◌, ◌<◌, ◌≤◌, ◌≡◌, ◌≢◌, inl, inr, refl, sym, ◌∙◌, arith, Bool, true, false,
  List, [], ◌∷◌, Bool-cases, Option, none, some,
}
use not.Hardware.{
  Hw, Event, Trace, gpio_a, sample, timer_poll, timer_reset, timer_start, pin_is_high, u32,
}
use not.Vm.State.{Vm, Result, ok, operand_x, operand_y, advance}
use not.Vm.Wait.{
  same_level, wait_while, start_timer_us_u8, exec_wait_rising, exec_wait_falling, exec_wait_low,
  exec_wait_high,
}

-- How often the timer was asked since it was started; `none` when it is not running: it was never
-- started, or was reset or used for a delay since.
abbrev pub polls : Trace → Option ℕ
polls [] = none
polls (Event.timer_start d ∷ t) = some 0
polls (Event.timer_poll ∷ t) = elim (polls t) [ none ↦ none | some n ↦ some (suc n) ]
polls (Event.timer_reset ∷ t) = none
polls (Event.delay_us d ∷ t) = none
polls (Event.delay_ms d ∷ t) = none
polls (Event.delay_ticks d ∷ t) = none
polls (e ∷ t) = polls t

-- A timer that is running runs out: it says so from some number of questions on.
abbrev pub RunsOut : Hw → ℕ → Type 0
RunsOut hw limit = (t : Trace) (n : ℕ) → polls t ≡ some n → limit ≤ n → hw.timed_out t ≡ true

-- What a wait does that goes on while the pin has a level: it samples the pin and asks the timer, and
-- ends with a sample of the other level, or when the timer has run out, and not before.
pub data Waits (hw : Hw) (level : Bool) (pin : ℕ) : Trace → Trace → Type 0 where
  changed :
      (t : Trace)
      → (pin_is_high hw gpio_a pin t).0 ≢ level
      → Waits hw level pin t (sample gpio_a ∷ t)
  expired :
      (t : Trace)
      → (pin_is_high hw gpio_a pin t).0 ≡ level
      → hw.timed_out (sample gpio_a ∷ t) ≡ true
      → Waits hw level pin t (timer_poll ∷ sample gpio_a ∷ t)
  again :
      (t t' : Trace)
      → (pin_is_high hw gpio_a pin t).0 ≡ level
      → hw.timed_out (sample gpio_a ∷ t) ≡ false
      → Waits hw level pin (timer_poll ∷ sample gpio_a ∷ t) t'
      → Waits hw level pin t t'

same_level-false : (level b : Bool) → same_level level b ≡ false → b ≢ level
same_level-false true b e same = cc
same_level-false false true e same = cc
same_level-false false false e same = cc

same_level-true : (level b : Bool) → same_level level b ≡ true → b ≡ level
same_level-true true b e = e
same_level-true false true e = sym e
same_level-true false false e = refl

-- How a wait ends: as it must, and with the timer still running.
abbrev Ends : Hw → Bool → ℕ → ℕ → Trace → Type 0
Ends hw level pin fuel t =
    (t' : Trace) × (n : ℕ) × (wait_while hw level pin fuel t ≡ ok t')
    × Waits hw level pin t t'
    × (polls t' ≡ some n)

module _ (hw : Hw) (level : Bool) (pin limit : ℕ) (runs_out : RunsOut hw limit) where
  wait_changed :
      (fuel : ℕ) (t : Trace)
      → same_level level (pin_is_high hw gpio_a pin t).0 ≡ false
      → wait_while hw level pin (suc fuel) t ≡ ok (sample gpio_a ∷ t)
  unfolding wait_while
  wait_changed fuel t e = ground arith

  wait_expired :
      (fuel : ℕ) (t : Trace)
      → same_level level (pin_is_high hw gpio_a pin t).0 ≡ true
      → hw.timed_out (sample gpio_a ∷ t) ≡ true
      → wait_while hw level pin (suc fuel) t ≡ ok (timer_poll ∷ sample gpio_a ∷ t)
  unfolding wait_while
  wait_expired fuel t e d = ground arith

  wait_again :
      (fuel : ℕ) (t : Trace)
      → same_level level (pin_is_high hw gpio_a pin t).0 ≡ true
      → hw.timed_out (sample gpio_a ∷ t) ≡ false
      → wait_while hw level pin (suc fuel) t
        ≡ wait_while hw level pin fuel (timer_poll ∷ sample gpio_a ∷ t)
  unfolding wait_while
  wait_again fuel t e d = ground arith

  wait_while-Ends :
      (fuel : ℕ) (t : Trace) (n : ℕ)
      → polls t ≡ some n
      → 0 < fuel
      → limit < fuel + n
      → Ends hw level pin fuel t
  wait_while-Ends zero t n asked some_left enough = absurd (omega arith)
  wait_while-Ends (suc fuel) t n asked some_left enough =
      let high = (pin_is_high hw gpio_a pin t).0 in
      let t₁ : Trace = sample gpio_a ∷ t in
      let more : polls (timer_poll ∷ t₁) ≡ some (suc n) = rw asked refl in
      elim (Bool-cases (same_level level high)) [
        | inr e ↦
            (t₁, n, wait_changed fuel t e, Waits.changed t (same_level-false level high e), asked)
        | inl e ↦ elim (Bool-cases (hw.timed_out t₁)) [
          | inl d ↦ (
            timer_poll ∷ t₁,
            suc n,
            wait_expired fuel t e d,
            Waits.expired t (same_level-true level high e) d,
            more,
          )
          | inr d ↦
              let early : n < limit = elim (dec_lt n limit) [
                | yes h ↦ h
                | no h ↦ absurd (false≢true (sym d ∙ runs_out t₁ n asked (omega arith)))
              ] in
              let (t', m, ends, waits, running) =
                wait_while-Ends fuel (timer_poll ∷ t₁) (suc n) more (omega arith) (omega arith) in
              (
                t',
                m,
                wait_again fuel t e d ∙ ends,
                Waits.again t t' (same_level-true level high e) d waits,
                running,
              )
        ]
      ]

-- The history when the timer has just been started for 20 times as many microseconds.
abbrev pub timer_on : ℕ → Vm → Trace
timer_on timeout s = timer_start (u32 (timeout * 20)) ∷ s.trace

-- How an instruction with one loop returns: the timer is started, the loop waits, and the next
-- instruction follows with the timer reset.
abbrev pub Resumes : Hw → Bool → ℕ → ℕ → Vm → Result Vm → Type 0
Resumes hw level pin timeout s r =
    (t : Trace) × (r ≡ ok (advance s (timer_reset ∷ t))) × Waits hw level pin (timer_on timeout s) t

-- The same with two loops, the second with the other level.
abbrev pub ResumesTwice : Hw → Bool → Bool → ℕ → ℕ → Vm → Result Vm → Type 0
ResumesTwice hw first second pin timeout s r =
    (t t' : Trace) × (r ≡ ok (advance s (timer_reset ∷ t')))
    × Waits hw first pin (timer_on timeout s) t
    × Waits hw second pin t t'

-- When a timer that is running runs out after at most `limit` questions, each of the four blocking
-- instructions ends within `limit + 1` rounds of each of its loops. It starts the timer for 20
-- times as many microseconds as its operand says, waits, resets the timer and goes on at the next
-- instruction. The wait for a level ends with a sample of this level, or when the timer has run
-- out, and not before; the wait for an edge is first the wait for the level before the edge and then
-- the wait for the level behind it.
pub waits_resume :
    (hw : Hw) (code : List ℕ) (fuel limit pin timeout : ℕ) (s : Vm)
    → RunsOut hw limit
    → limit < fuel
    → operand_x code s ≡ ok pin
    → operand_y code s ≡ ok timeout
    → Resumes hw true pin timeout s (exec_wait_low hw code fuel s)
      × Resumes hw false pin timeout s (exec_wait_high hw code fuel s)
      × ResumesTwice hw true false pin timeout s (exec_wait_rising hw code fuel s)
      × ResumesTwice hw false true pin timeout s (exec_wait_falling hw code fuel s)
unfolding exec_wait_low exec_wait_high exec_wait_rising exec_wait_falling start_timer_us_u8
waits_resume hw code fuel limit pin timeout s runs_out enough x y =
    let t = timer_on timeout s in
    let ends = λ (level : Bool) (t₀ : Trace) (n : ℕ) (asked : polls t₀ ≡ some n).
      wait_while-Ends hw level pin limit runs_out fuel t₀ n asked (omega arith) (omega arith) in
    let (t₁, n₁, low, waits₁, running₁) = ends true t 0 refl in
    let (t₂, n₂, high, waits₂, running₂) = ends false t 0 refl in
    let (t₃, n₃, rising, waits₃, running₃) = ends false t₁ n₁ running₁ in
    let (t₄, n₄, falling, waits₄, running₄) = ends true t₂ n₂ running₂ in
    (
      (t₁, rw (x, y, low) refl, waits₁),
      (t₂, rw (x, y, high) refl, waits₂),
      (t₁, t₃, rw (x, y, low, rising) refl, waits₁, waits₃),
      (t₂, t₄, rw (x, y, high, falling) refl, waits₂, waits₄),
    )
