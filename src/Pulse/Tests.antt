-- ===== src/Pulse/Tests.antt =====
-- The ring of captured pulses at its turn.
use native.Mathlib.Nat.{pow-suc, one-le-pow}
use not.Prelude.{
  zero, suc, ◌^◌, ◌==◌, ◌≢◌, ap, false, ℕ, ◌≡◌, ◌++◌, refl, arith, true, List, [], ◌∷◌, replicate,
}
use not.Pulse.{Pulses, capture_pulse, pulseio_in_words}
use not.Pulse.Capture.{Interrupts, exti_irq, irq_handler}
use not.Pulse.Armed.{irq_handler_lem}
use not.Pulse.Recent.{IsPulses, pulseio_in_words-capture_pulse}

abbrev full_ring : Pulses
full_ring = record { buffer = replicate 3000 7; head = 2999; count = 3000 }

full_ring-IsPulses : IsPulses full_ring
full_ring-IsPulses = record { sized = refl; head_in = omega arith; count_in = omega arith }

pulseio_in_words-capture_pulse_example :
    (ds : List ℕ) × (pulseio_in_words 2 full_ring ≡ 2 ∷ ds)
    × (pulseio_in_words 3 (capture_pulse true 9 full_ring) ≡ 3 ∷ (ds ++ 9 ∷ []))
    × IsPulses (capture_pulse true 9 full_ring)
pulseio_in_words-capture_pulse_example =
    pulseio_in_words-capture_pulse full_ring 9 2 full_ring-IsPulses (omega arith) (omega arith)

-- Only the line of pin 7 is pending, and the timer stands at 120.
abbrev line_7 : Interrupts
line_7 = record { pending = λ line t. line == 2 ^ 7; counter = λ t. 120 }

pow-apart : (q n : ℕ) → q ≢ n → 2 ^ q ≢ 2 ^ n
pow-apart zero zero apart e = apart refl
pow-apart zero (suc n) apart e = absurd (omega (arith, e, pow-suc 2 n, one-le-pow n 2))
pow-apart (suc q) zero apart e = absurd (omega (arith, e, pow-suc 2 q, one-le-pow q 2))
pow-apart (suc q) (suc n) apart e =
    pow-apart q n (λ same. apart (ap suc same)) (omega (arith, e, pow-suc 2 q, pow-suc 2 n))

alone : (q : ℕ) → q ≢ 7 → (2 ^ q == 2 ^ 7) ≡ false
alone q apart = ground (arith, pow-apart q 7 apart)

irq_handler_lem_example :
    (irq_handler line_7 (exti_irq 7) (full_ring, [])).0 ≡ capture_pulse true 120 full_ring
irq_handler_lem_example =
    irq_handler_lem line_7 7 full_ring [] (omega arith) (λ q apart t. alone q apart) refl
