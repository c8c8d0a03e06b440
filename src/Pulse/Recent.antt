-- ===== src/Pulse/Recent.antt =====
-- What a read of the captured pulses gives.
use not.Prelude.{
  ℕ, zero, suc, ◌+◌, ◌-◌, ◌%◌, ◌^◌, ◌<◌, ◌≤◌, ◌≡◌, ◌≢◌, refl, ap, ap₂, ◌∙◌, arith, true, false, ltb,
  List, [], ◌∷◌, ◌++◌, get_or, set, length, length-set, get_or-set_self, get_or-set_ne,
}
use not.Hardware.{u32}
use not.Pulse.{Pulses, ring_size, capture_pulse, durations, pulseio_in_words}

pub record IsPulses (p : Pulses) : Type 0 where
  pub sized : length p.buffer ≡ 3000
  pub head_in : p.head < 3000
  pub count_in : p.count ≤ 3000

-- The `n` durations before the head.
abbrev pub recent : ℕ → Pulses → List ℕ
recent n p = durations p.buffer (u32 (p.head + ring_size + 2 ^ 32 - n) % ring_size) 0 n

durations-snoc :
    (buffer : List ℕ) (tail i n : ℕ)
    → durations buffer tail i (suc n)
      ≡ durations buffer tail i n ++ get_or buffer (u32 (tail + (i + n)) % ring_size) 0 ∷ []
unfolding durations
durations-snoc buffer tail i zero =
    let at : u32 (tail + i) % ring_size ≡ u32 (tail + (i + 0)) % ring_size = omega arith in
    ap (λ k. get_or buffer k 0 ∷ []) at
durations-snoc buffer tail i (suc n) =
    let at : u32 (tail + (i + 1 + n)) % ring_size ≡ u32 (tail + (i + suc n)) % ring_size =
      omega arith in
    ap (λ l. get_or buffer (u32 (tail + i) % ring_size) 0 ∷ l)
      (durations-snoc buffer tail (i + 1) n
        ∙ ap (λ k. durations buffer tail (i + 1) n ++ get_or buffer k 0 ∷ []) at)

-- A write at the place behind them leaves the durations alone.
durations-set :
    (buffer : List ℕ) (tail i n head d : ℕ)
    → tail < 3000
    → i + n < 3000
    → head ≡ (tail + (i + n)) % 3000
    → durations (set buffer head d) tail i n ≡ durations buffer tail i n
unfolding durations
durations-set buffer tail i zero head d ht hn e = refl
durations-set buffer tail i (suc n) head d ht hn e =
    let apart : head ≢ u32 (tail + i) % ring_size = λ same. absurd (omega arith) in
    ap₂ (λ x l. x ∷ l) (get_or-set_ne buffer head (u32 (tail + i) % ring_size) d 0 apart)
      (durations-set buffer tail (i + 1) n head d ht (omega arith) (omega arith))

capture-recent :
    (p : Pulses) (d n : ℕ)
    → IsPulses p
    → n < 3000
    → recent (suc n) (capture_pulse true d p) ≡ recent n p ++ d ∷ []
unfolding capture_pulse
capture-recent p d n v h =
    let buffer' = set p.buffer p.head d in
    let tail = u32 (p.head + ring_size + 2 ^ 32 - n) % ring_size in
    let same : u32 (u32 (p.head + 1) % ring_size + ring_size + 2 ^ 32 - suc n) % ring_size ≡ tail =
      omega (arith, v.head_in) in
    let place : u32 (tail + (0 + n)) % ring_size ≡ p.head = omega (arith, v.head_in) in
    let last : get_or buffer' (u32 (tail + (0 + n)) % ring_size) 0 ≡ d =
      ap (λ k. get_or buffer' k 0) place
      ∙ get_or-set_self p.buffer p.head d 0 (omega (arith, v.sized, v.head_in)) in
    ap (λ k. durations buffer' k 0 (suc n)) same
    ∙ durations-snoc buffer' tail 0 n
    ∙ ap₂ (λ l x. l ++ x ∷ [])
        (durations-set p.buffer tail 0 n p.head d (omega arith) (omega arith)
          (omega (arith, v.head_in)))
        last

capture-IsPulses : (p : Pulses) (d : ℕ) → IsPulses p → IsPulses (capture_pulse true d p)
unfolding capture_pulse
capture-IsPulses p d v = record {
  sized = length-set p.buffer p.head d ∙ v.sized;
  head_in = omega arith;
  count_in = ground (arith, v.count_in);
}

enough_after :
    (p : Pulses) (d n : ℕ)
    → n ≤ p.count
    → n < 3000
    → ltb (capture_pulse true d p).count (suc n) ≡ false
unfolding capture_pulse
enough_after p d n h h' = ground arith

-- `capture_pulse` and `pulseio_in_read`: when a read of `n` pulses gives `n` durations, then after
-- one more capture a read of `n + 1` pulses gives the same durations in the same order and behind
-- them the new one, also when the ring has turned over. The ring stays well formed. The condition is
-- that it is well formed and that `n` durations, fewer than 3000, were captured.
pub pulseio_in_words-capture_pulse :
    (p : Pulses) (d n : ℕ)
    → IsPulses p
    → n < 3000
    → n ≤ p.count
    → (ds : List ℕ) × (pulseio_in_words n p ≡ n ∷ ds)
      × (pulseio_in_words (suc n) (capture_pulse true d p) ≡ suc n ∷ (ds ++ d ∷ []))
      × IsPulses (capture_pulse true d p)
unfolding pulseio_in_words
pulseio_in_words-capture_pulse p d n v h there =
    let enough : ltb p.count n ≡ false = ground arith in
    let enough' : ltb (capture_pulse true d p).count (suc n) ≡ false = enough_after p d n there h in
    (
      recent n p,
      rw enough refl,
      rw enough' (ap (λ l. suc n ∷ l) (capture-recent p d n v h)),
      capture-IsPulses p d v,
    )
