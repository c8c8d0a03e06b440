-- ===== src/Main/Setups.antt =====
-- Requests that the loop of User/main.c serves turn by turn.
use not.Prelude.{
  ◌⊎◌, ℕ, ◌==◌, ◌≡◌, refl, ◌∙◌, if◌then◌else◌, Bool, true, Bool-cases, Option-cases, inl, inr, List,
  [], ◌∷◌, length, Option, none, some,
}
use not.Hardware.{Hw, Trace}
use not.Gpio.{gpio_init_pin}
use not.Comms.{mode_usb}
use not.Vm.State.{ok, fault}
use not.Packet.{Chip, Board, Handler, ◌>>=◌, ◌>>◌, pure, look, to_link}
use not.Packet.Dispatch.{get_packet}
use not.Packet.Served.{Wire, Carries, andthen, bind_faults}
use not.Packet.Requests.{Setup, setup_code, setup_mode, setup_request_lem}
use not.Main.{main_round, main_rounds}

-- The bytes of requests that set pins up, before what comes behind them.
abbrev pub setup_bytes : List (Setup × ℕ) → List ℕ → List ℕ
setup_bytes [] inp = inp
setup_bytes ((p, pin) ∷ requests) inp = setup_code p ∷ pin ∷ setup_bytes requests inp

-- The pins set up one after the other; `none` when one of them is out of bounds.
abbrev pub set_up : Hw → List (Setup × ℕ) → Trace → Option Trace
set_up hw [] t = some t
set_up hw ((p, pin) ∷ requests) t = elim (gpio_init_pin hw pin (setup_mode p) t) [
  | none ↦ none
  | some t' ↦ set_up hw requests t'
]

module _ {S L F D I : Type 0} (c : Chip S L F D I) (w : Wire c) (available : S → Bool)
    (flush : S → S) where
  -- The loop sees a request when one is to come, and a flush keeps what is on the link.
  abbrev pub SeesAll : Type 0
  SeesAll = (s : S) (byte : ℕ) (inp out : List ℕ) → w.Holds s (byte ∷ inp) out → available s ≡ true

  abbrev pub FlushKeeps : Type 0
  FlushKeeps = (s : S) (inp out : List ℕ) → w.Holds s inp out → w.Holds (flush s) inp out

  module _ (sees : SeesAll) (keeps : FlushKeeps) where
    abbrev finish : Handler S L F D I
    finish = look c (λ b. b) >>= λ b'.
        if b'.mode == mode_usb then to_link c (λ mode s. some (flush s)) else pure tt

    finish_lem :
        (b : Board S L F D I) (inp out : List ℕ)
        → w.Holds b.link inp out
        → (s : S) × (finish b ≡ ok (tt, record b { link = s })) × w.Holds s inp out
    unfolding look to_link pure ◌>>=◌
    finish_lem b inp out h = elim (Bool-cases (b.mode == mode_usb)) [
      | inl e ↦ (flush b.link, rw e refl, keeps b.link inp out h)
      | inr e ↦ (b.link, rw e refl, h)
    ]

    round_is :
        (b : Board S L F D I)
        → available b.link ≡ true
        → main_round c available flush b ≡ (get_packet c >> finish) b
    unfolding main_round look ◌>>=◌
    round_is b e = rw e refl

    round_lem :
        (b : Board S L F D I) (p : Setup) (pin : ℕ) (inp out : List ℕ)
        → Carries c w b (setup_code p ∷ pin ∷ inp) out
        → (s : S) × (main_round c available flush b
            ≡ elim (gpio_init_pin c.hw pin (setup_mode p) b.trace) [
              | none ↦ fault
              | some t ↦ ok (tt, record b { link = s; trace = t })
            ])
          × w.Holds s inp out
    unfolding ◌>>=◌
    round_lem b p pin inp out h =
        let start = round_is b (sees b.link (setup_code p) (pin ∷ inp) out h.1) in
        let (s, e, h') = setup_request_lem c w p b pin inp out h in
        elim (Option-cases (gpio_init_pin c.hw pin (setup_mode p) b.trace)) [
          | inl n ↦
              let stops : get_packet c b ≡ fault = rw n at e in
              (s, start ∙ bind_faults (get_packet c) (λ r. finish) b stops ∙ rw n refl, h')
          | inr (t, some_t) ↦
              let goes : get_packet c b ≡ ok (tt, record b { link = s; trace = t }) =
                rw some_t at e in
              let (s', e', h'') = finish_lem (record b { link = s; trace = t }) inp out h' in
              (
                s',
                start ∙ andthen (get_packet c) (λ r. finish) {b = b} goes e' ∙ rw some_t refl,
                h'',
              )
        ]

    -- Requests that set pins up are served in as many turns of the loop as there are, in the order in
    -- which the host sends them: the pins are set up one after the other, nothing else of the board
    -- changes, and nothing is sent. Where the set-up of one pin is out of bounds, so is the loop. The link
    -- is a pipe, the loop finds a byte whenever one is to come, and a flush keeps what is on the
    -- link.
    pub main_setups_lem :
        (requests : List (Setup × ℕ)) (b : Board S L F D I) (inp out : List ℕ)
        → Carries c w b (setup_bytes requests inp) out
        → ((set_up c.hw requests b.trace ≡ none)
            × (main_rounds c available flush (length requests) b ≡ fault))
          ⊎ ((t : Trace) × (s : S) × (set_up c.hw requests b.trace ≡ some t)
              × (main_rounds c available flush (length requests) b
                  ≡ ok (tt, record b { link = s; trace = t }))
              × w.Holds s inp out)
    unfolding main_rounds pure
    main_setups_lem [] b inp out h = inr (b.trace, b.link, refl, refl, h.1)
    main_setups_lem ((p, pin) ∷ requests) b inp out h =
        let rest = main_rounds c available flush (length requests) in
        let (s, e, h') = round_lem b p pin (setup_bytes requests inp) out h in
        elim (Option-cases (gpio_init_pin c.hw pin (setup_mode p) b.trace)) [
          | inl n ↦
              let stops : main_round c available flush b ≡ fault = rw n at e in
              inl (
                rw (set_up, n) refl,
                bind_faults (main_round c available flush) (λ r. rest) b stops,
              )
          | inr (t, some_t) ↦
              let b₁ : Board S L F D I = record b { link = s; trace = t } in
              let goes : main_round c available flush b ≡ ok (tt, b₁) = rw some_t at e in
              elim (main_setups_lem requests b₁ inp out (h.0, h')) [
                | inl (none_t, stops) ↦ inl (
                  rw (set_up, some_t) none_t,
                  andthen (main_round c available flush) (λ r. rest) {b = b} goes stops,
                )
                | inr (t', s', done, ends, h'') ↦ inr (
                  t',
                  s',
                  rw (set_up, some_t) done,
                  andthen (main_round c available flush) (λ r. rest) {b = b} goes ends,
                  h'',
                )
              ]
        ]
