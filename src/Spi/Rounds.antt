-- ===== src/Spi/Rounds.antt =====
-- One round of the loop of `spi_xfer_byte_bb_ch32`, in each of its four kinds.
use not.Prelude.{
  List, ℕ, ◌*◌, ◌^◌, ◌==◌, ◌≡◌, ◌≢◌, refl, ap, ◌∙◌, Bool, true, false, ◌∷◌, bit_and, bit_or, negate,
  to_bit,
}
use not.Hardware.{gpio_a, sample, Trace, Hw, delay_nops, u8}
use not.Spi.{Lines, top_bit, gpio_write_fast, gpio_read_fast, leading_round, trailing_round}
use not.Spi.Slave.{
  Slave, slave, high, after_sck, after_mosi, slave-sample, slave-delay_nops, slave-write_sck,
  slave-write_mosi,
}

-- What a round does for a slave that sees `view`: SCK is at `rest` again, the slave took the top
-- bit of `out`, and the level of MISO that goes into `in` was read when the slave had just taken
-- this bit, SCK still being at `level`.
pub record Exchanged (hw : Hw) (miso : ℕ) (view : Trace → Slave) (rest level : Bool) (out inp : ℕ)
    (t : Trace) (r : ℕ × Trace) : Type 0 where
  pub at_rest : (view r.1).sck ≡ rest
  pub taken : (view r.1).bits ≡ high (top_bit out) ∷ (view t).bits
  pub seen : Trace
  pub seen_level : (view seen).sck ≡ level
  pub seen_bits : (view seen).bits ≡ high (top_bit out) ∷ (view t).bits
  pub value :
      r.0 ≡ u8 (bit_or (inp * 2) (to_bit (negate (bit_and (hw.read_indr gpio_a seen) miso == 0))))

abbrev pub Round : Hw → ℕ → (ℕ → ℕ → Trace → ℕ × Trace) → (Trace → Slave) → Bool → Bool → Type 0
Round hw miso round view rest level =
    (out inp : ℕ) (t : Trace)
    → (view t).sck ≡ rest
    → Exchanged hw miso view rest level out inp t (round out inp t)

module _ (hw : Hw) (clk dat miso delay idle active : ℕ) (w : Slave) (apart : clk ≢ dat) where
  abbrev pub wires : Lines
  wires = record {
    sck_mask = 2 ^ clk;
    mosi_mask = 2 ^ dat;
    miso_mask = miso;
    idle = idle;
    active = active;
    edge_delay_nops = delay;
  }

  -- The histories at which the two kinds of round read MISO.
  abbrev leading_seen : ℕ → Trace → Trace
  leading_seen out t =
      (delay_nops delay
        (gpio_write_fast (2 ^ clk) active (gpio_write_fast (2 ^ dat) (top_bit out) t).1).1).1

  abbrev trailing_seen : ℕ → Trace → Trace
  trailing_seen out t =
      let t₁ = (delay_nops delay (gpio_write_fast (2 ^ clk) active t).1).1 in
      let t₂ = (gpio_write_fast (2 ^ dat) (top_bit out) t₁).1 in
      (delay_nops delay (gpio_write_fast (2 ^ clk) idle t₂).1).1

  leading_seen_lem :
      (edge : Bool) (out : ℕ) (t : Trace)
      → slave clk dat edge w (leading_seen out t)
        ≡ after_sck edge active (after_mosi (top_bit out) (slave clk dat edge w t))
  leading_seen_lem edge out t =
      let t₁ = (gpio_write_fast (2 ^ dat) (top_bit out) t).1 in
      slave-delay_nops clk dat edge w apart delay (gpio_write_fast (2 ^ clk) active t₁).1
      ∙ slave-write_sck clk dat edge w apart active t₁
      ∙ ap (after_sck edge active) (slave-write_mosi clk dat edge w apart (top_bit out) t)

  leading_lem :
      (edge : Bool) (out inp : ℕ) (t : Trace)
      → slave clk dat edge w (leading_round hw wires out inp t).1
        ≡ after_sck edge idle (slave clk dat edge w (leading_seen out t))
  unfolding leading_round gpio_read_fast
  leading_lem edge out inp t =
      let t₄ = sample gpio_a ∷ leading_seen out t in
      slave-delay_nops clk dat edge w apart delay (gpio_write_fast (2 ^ clk) idle t₄).1
      ∙ slave-write_sck clk dat edge w apart idle t₄
      ∙ ap (after_sck edge idle) (slave-sample clk dat edge w apart gpio_a (leading_seen out t))

  trailing_seen_lem :
      (edge : Bool) (out : ℕ) (t : Trace)
      → slave clk dat edge w (trailing_seen out t)
        ≡ after_sck edge idle
            (after_mosi (top_bit out) (after_sck edge active (slave clk dat edge w t)))
  trailing_seen_lem edge out t =
      let t₁ = (gpio_write_fast (2 ^ clk) active t).1 in
      let t₂ = (delay_nops delay t₁).1 in
      let t₃ = (gpio_write_fast (2 ^ dat) (top_bit out) t₂).1 in
      slave-delay_nops clk dat edge w apart delay (gpio_write_fast (2 ^ clk) idle t₃).1
      ∙ slave-write_sck clk dat edge w apart idle t₃
      ∙ ap (after_sck edge idle) (
          slave-write_mosi clk dat edge w apart (top_bit out) t₂
          ∙ ap (after_mosi (top_bit out)) (
              slave-delay_nops clk dat edge w apart delay t₁
              ∙ slave-write_sck clk dat edge w apart active t))

  trailing_lem :
      (edge : Bool) (out inp : ℕ) (t : Trace)
      → slave clk dat edge w (trailing_round hw wires out inp t).1
        ≡ slave clk dat edge w (trailing_seen out t)
  unfolding trailing_round gpio_read_fast
  trailing_lem edge out inp t = slave-sample clk dat edge w apart gpio_a (trailing_seen out t)

  -- A round is right when its edges are: the slave takes its bit on the first change of SCK in a
  -- leading round, and on the second in a trailing round.
  leading-Round :
      (edge rest level : Bool)
      → ((v : ℕ) (s : Slave)
          → s.sck ≡ rest
          → after_sck edge active (after_mosi v s)
            ≡ record { sck = level; mosi = high v; bits = high v ∷ s.bits })
      → ((m : Bool) (bs : List Bool)
          → after_sck edge idle (record { sck = level; mosi = m; bits = bs })
            ≡ record { sck = rest; mosi = m; bits = bs })
      → Round hw miso (leading_round hw wires) (slave clk dat edge w) rest level
  unfolding leading_round gpio_read_fast
  leading-Round edge rest level first second out inp t e =
      let s = slave clk dat edge w t in
      let v = top_bit out in
      let mid = leading_seen_lem edge out t ∙ first v s e in
      let end =
        leading_lem edge out inp t
        ∙ ap (after_sck edge idle) mid
        ∙ second (high v) (high v ∷ s.bits) in
      record {
        at_rest = ap (λ r. r.sck) end;
        taken = ap (λ r. r.bits) end;
        seen = leading_seen out t;
        seen_level = ap (λ r. r.sck) mid;
        seen_bits = ap (λ r. r.bits) mid;
        value = refl;
      }

  trailing-Round :
      (edge rest : Bool)
      → ((v : ℕ) (s : Slave)
          → s.sck ≡ rest
          → after_sck edge idle (after_mosi v (after_sck edge active s))
            ≡ record { sck = rest; mosi = high v; bits = high v ∷ s.bits })
      → Round hw miso (trailing_round hw wires) (slave clk dat edge w) rest rest
  unfolding trailing_round gpio_read_fast
  trailing-Round edge rest both out inp t e =
      let mid = trailing_seen_lem edge out t ∙ both (top_bit out) (slave clk dat edge w t) e in
      let end = trailing_lem edge out inp t ∙ mid in
      record {
        at_rest = ap (λ r. r.sck) end;
        taken = ap (λ r. r.bits) end;
        seen = trailing_seen out t;
        seen_level = ap (λ r. r.sck) mid;
        seen_bits = ap (λ r. r.bits) mid;
        value = refl;
      }

-- The rounds of the four modes.
module _ (hw : Hw) (clk dat miso delay : ℕ) (w : Slave) (apart : clk ≢ dat) where
  pub round_0 :
      Round hw miso
        (leading_round hw (wires hw clk dat miso delay 0 1 w apart))
        (slave clk dat true w)
        false
        true
  round_0 =
      leading-Round hw clk dat miso delay 0 1 w apart true false true (λ v s e. rw e refl)
        (λ m bs. refl)

  pub round_1 :
      Round hw miso
        (trailing_round hw (wires hw clk dat miso delay 0 1 w apart))
        (slave clk dat false w)
        false
        false
  round_1 = trailing-Round hw clk dat miso delay 0 1 w apart false false (λ v s e. rw e refl)

  pub round_2 :
      Round hw miso
        (leading_round hw (wires hw clk dat miso delay 1 0 w apart))
        (slave clk dat false w)
        true
        false
  round_2 =
      leading-Round hw clk dat miso delay 1 0 w apart false true false (λ v s e. rw e refl)
        (λ m bs. refl)

  pub round_3 :
      Round hw miso
        (trailing_round hw (wires hw clk dat miso delay 1 0 w apart))
        (slave clk dat true w)
        true
        true
  round_3 = trailing-Round hw clk dat miso delay 1 0 w apart true true (λ v s e. rw e refl)
