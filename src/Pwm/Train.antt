-- ===== src/Pwm/Train.antt =====
-- What `pulseio_out_send` puts on a pin: the duty of its channel over the waits between.
use mathlib.Core.List.{append_assoc, append-nil}
use not.Prelude.{
  ℕ, ◌+◌, ◌%◌, ◌^◌, ◌<◌, ◌≡◌, ◌⊎◌, inl, inr, refl, sym, ap, ◌∙◌, arith, ◌==◌, ◌&&◌, if◌then◌else◌,
  true, false, Bool-cases, List, [], ◌∷◌, ◌++◌, some, length, map,
}
use not.Hardware.{Event, compare_write, delay_us, Trace, u16}
use not.Usb.Serial.{bytes_of}
use not.Comms.{Link}
use not.Comms.Exchange.{word_of-bytes_of}
use not.Comms.Pipe.{IsPipe}
use not.Pwm.{pwm_set_duty, play, recv_pulses, pulseio_out_send}

-- The timer and the channel of a pin. Of the pins that pwm.c names, A0 to A3 are channels 1 to 4 of
-- TIM2, A6, A7, B0 and B1 those of TIM3, and D0 to D3 those of TIM1.
abbrev pub channels : List (ℕ × ℕ × ℕ)
channels =
    (0, 2, 1)
    ∷ (1, 2, 2)
    ∷ (2, 2, 3)
    ∷ (3, 2, 4)
    ∷ (6, 3, 1)
    ∷ (7, 3, 2)
    ∷ (16, 3, 3)
    ∷ (17, 3, 4)
    ∷ (8, 1, 1)
    ∷ (9, 1, 2)
    ∷ (10, 1, 3)
    ∷ (11, 1, 4)
    ∷ []

abbrev pub Among : ℕ × ℕ × ℕ → List (ℕ × ℕ × ℕ) → Type 0
Among c [] = ⊥
Among c (d ∷ ds) = (c ≡ d) ⊎ Among c ds

-- The compare register of a channel, and the waits so far, oldest first, each with the value that the
-- register had in it.
module _ (timer channel : ℕ) where
  abbrev notice : Event → ℕ × List (ℕ × ℕ) → ℕ × List (ℕ × ℕ)
  notice (compare_write m k v) (duty, waits) =
      if m == timer && k == channel then (v, waits) else (duty, waits)
  notice (delay_us n) (duty, waits) = (duty, waits ++ (duty, n) ∷ [])
  notice e (duty, waits) = (duty, waits)

  abbrev pub waves : Trace → ℕ × List (ℕ × ℕ)
  waves [] = (0, [])
  waves (e ∷ t) = notice e (waves t)

-- A train: the duty and 0 in turn.
abbrev pub train : ℕ → ℕ → List ℕ → List (ℕ × ℕ)
train duty next [] = []
train duty next (pulse ∷ pulses) = (duty, pulse) ∷ train next duty pulses

module _ (pin timer channel : ℕ) (on : Among (pin, timer, channel) channels) where
  duty_lem :
      (v : ℕ) (t : Trace)
      → waves timer channel (pwm_set_duty pin v t) ≡ (v, (waves timer channel t).1)
  unfolding pwm_set_duty
  duty_lem v t = ground (arith, on)

  waited :
      (v pulse : ℕ) (t : Trace) (rest : List (ℕ × ℕ))
      → (waves timer channel (delay_us pulse ∷ pwm_set_duty pin v t)).1 ++ rest
        ≡ (waves timer channel t).1 ++ (v, pulse) ∷ rest
  waited v pulse t rest =
      ap (λ w. (w.1 ++ (w.0, pulse) ∷ []) ++ rest) (duty_lem v t)
      ∙ append_assoc (waves timer channel t).1 ((v, pulse) ∷ []) rest

  play_lem :
      (duty i : ℕ) (pulses : List ℕ) (t : Trace)
      → (waves timer channel (play pin duty i pulses t)).1
        ≡ (waves timer channel t).1
          ++ (if i % 2 == 0 then train duty 0 pulses else train 0 duty pulses)
  unfolding play
  play_lem duty i [] t = elim (Bool-cases (i % 2 == 0)) [
    | inl even ↦ rw even (sym (append-nil (waves timer channel t).1))
    | inr odd ↦ rw odd (sym (append-nil (waves timer channel t).1))
  ]
  play_lem duty i (pulse ∷ pulses) t = elim (Bool-cases (i % 2 == 0)) [
    | inl even ↦
        let next : ((i + 1) % 2 == 0) ≡ false = ground arith in
        let rest = play_lem duty (i + 1) pulses (delay_us pulse ∷ pwm_set_duty pin duty t) in
        rw (even) (rest ∙ rw next (waited duty pulse t (train 0 duty pulses)))
    | inr odd ↦
        let next : ((i + 1) % 2 == 0) ≡ true = ground arith in
        let rest = play_lem duty (i + 1) pulses (delay_us pulse ∷ pwm_set_duty pin 0 t) in
        rw (odd) (rest ∙ rw next (waited 0 pulse t (train duty 0 pulses)))
  ]

-- The words that the host sends, the lowest byte of each first.
abbrev pub words_out : List ℕ → List ℕ
words_out [] = []
words_out (w ∷ ws) = bytes_of w ++ words_out ws

abbrev pub AllWords : List ℕ → Type 0
AllWords [] = Unit
AllWords (w ∷ ws) = (w < 2 ^ 32) × AllWords ws

module _ {S : Type 0} (usb : Link S) (limit : ℕ) (Holds : S → List ℕ → List ℕ → Type 0)
    (pipe : IsPipe usb limit Holds) where
  recv_pulses_lem :
      (ws : List ℕ) (s : S) (inp out : List ℕ)
      → AllWords ws
      → Holds s (words_out ws ++ inp) out
      → (s' : S) × (recv_pulses usb (length ws) s ≡ some (map u16 ws, s')) × Holds s' inp out
  unfolding recv_pulses bytes_of
  recv_pulses_lem [] s inp out small h = (s, refl, h)
  recv_pulses_lem (w ∷ ws) s inp out small h =
      let (s', got, h') = pipe.recv_lem s (words_out (w ∷ ws) ++ inp) out 4 h (omega arith) in
      let (s'', rest, h'') = recv_pulses_lem ws s' inp out small.1 h' in
      (
        s'',
        rw (recv_pulses, got, rest)
            (ap (λ x. some (u16 x ∷ map u16 ws, s'')) (word_of-bytes_of w small.0)),
        h'',
      )

  -- A train of pulses on a pin that has PWM: the durations are taken off the link in the order in which
  -- the host sends them, 16 bits of each, and the pin has the duty in the first of them, 0 in
  -- the second, and so on in turn; in the end it has the duty 0. The link is a pipe, and the
  -- host sends as many words as it says.
  pub pulseio_out_send_lem :
      (pin timer channel duty : ℕ) (ws : List ℕ) (s : S) (inp out : List ℕ) (t : Trace)
      → Among (pin, timer, channel) channels
      → AllWords ws
      → Holds s (words_out ws ++ inp) out
      → (t' : Trace) × (s' : S) × (pulseio_out_send usb pin duty (length ws) s t
          ≡ some (map u16 ws, t', s'))
        × Holds s' inp out
        × (waves timer channel t' ≡ (0, (waves timer channel t).1 ++ train duty 0 (map u16 ws)))
  unfolding pulseio_out_send
  pulseio_out_send_lem pin timer channel duty ws s inp out t on small h =
      let (s', got, h') = recv_pulses_lem ws s inp out small h in
      let pulses = map u16 ws in
      (
        pwm_set_duty pin 0 (play pin duty 0 pulses t),
        s',
        rw (pulseio_out_send, got) refl,
        h',
        duty_lem pin timer channel on 0 (play pin duty 0 pulses t)
            ∙ ap (λ l. (0, l)) (play_lem pin timer channel on duty 0 pulses t),
      )
