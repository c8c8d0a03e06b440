-- ===== src/Spi/Slave.antt =====
-- What a slave on the SPI pins sees.
use not.Prelude.{
  ℕ, zero, suc, ◌^◌, ◌==◌, ◌≡◌, ◌≢◌, refl, sym, ◌∙◌, if◌then◌else◌, negate, Bool, List, [], ◌∷◌,
  Bool-cases, inl, inr,
}
use not.Hardware.{Port, Event, sample, Trace, delay_nops}
use not.Hardware.Wires.{
  line, edge_seen, edge_seen_same, line-bshr, line-bcr, line-bshr_ne, line-bcr_ne,
}
use not.Spi.{gpio_write_fast}

-- A slave keeps the two levels and the bits it took, the newest first. It takes the level of MOSI
-- at each change of SCK to the level `edge`.
pub record Slave : Type 0 where
  pub sck : Bool
  pub mosi : Bool
  pub bits : List Bool

module _ (clk dat : ℕ) (edge : Bool) where
  abbrev pub hears : Event → Slave → Slave
  hears e w =
      let sck' = line clk e w.sck in
      record {
        sck = sck';
        mosi = line dat e w.mosi;
        bits = if edge_seen edge w.sck sck' then w.mosi ∷ w.bits else w.bits;
      }

  abbrev pub slave : Slave → Trace → Slave
  slave w [] = w
  slave w (e ∷ t) = hears e (slave w t)

abbrev pub high : ℕ → Bool
high v = negate (v == 0)

-- What a write to SCK or to MOSI does to the slave.
abbrev pub after_sck : Bool → ℕ → Slave → Slave
after_sck edge v w = record {
  sck = high v;
  mosi = w.mosi;
  bits = if edge_seen edge w.sck (high v) then w.mosi ∷ w.bits else w.bits;
}

abbrev pub after_mosi : ℕ → Slave → Slave
after_mosi v w = record w { mosi = high v }

module _ (clk dat : ℕ) (edge : Bool) (w : Slave) (apart : clk ≢ dat) where
  pub slave-sample :
      (p : Port) (t : Trace) → slave clk dat edge w (sample p ∷ t) ≡ slave clk dat edge w t
  slave-sample p t = rw (edge_seen_same edge (slave clk dat edge w t).sck) refl

  pub slave-delay_nops :
      (n : ℕ) (t : Trace) → slave clk dat edge w (delay_nops n t).1 ≡ slave clk dat edge w t
  unfolding delay_nops
  slave-delay_nops zero t = refl
  slave-delay_nops (suc n) t =
      slave-delay_nops n (Event.nop ∷ t)
      ∙ rw (edge_seen_same edge (slave clk dat edge w t).sck) refl

  pub slave-write_sck :
      (v : ℕ) (t : Trace)
      → slave clk dat edge w (gpio_write_fast (2 ^ clk) v t).1
        ≡ after_sck edge v (slave clk dat edge w t)
  unfolding gpio_write_fast
  slave-write_sck v t =
      let s = slave clk dat edge w t in
      elim (Bool-cases (v == 0)) [
        | inl e ↦ rw (e, line-bcr clk s.sck, line-bcr_ne dat clk s.mosi (λ q. apart (sym q))) refl
        | inr e ↦ rw (e, line-bshr clk s.sck, line-bshr_ne dat clk s.mosi (λ q. apart (sym q))) refl
      ]

  pub slave-write_mosi :
      (v : ℕ) (t : Trace)
      → slave clk dat edge w (gpio_write_fast (2 ^ dat) v t).1
        ≡ after_mosi v (slave clk dat edge w t)
  unfolding gpio_write_fast
  slave-write_mosi v t =
      let s = slave clk dat edge w t in
      elim (Bool-cases (v == 0)) [
        | inl e ↦
            rw (e, line-bcr dat s.mosi, line-bcr_ne clk dat s.sck apart, edge_seen_same edge s.sck)
              refl
        | inr e ↦
            rw
              (e, line-bshr dat s.mosi, line-bshr_ne clk dat s.sck apart, edge_seen_same edge s.sck)
              refl
      ]
