-- ===== src/Spi/Transfer.antt =====
-- One byte of `spi_xfer_byte_bb_ch32`: what the slave takes, and what is read from it.
use not.Prelude.{
  ℕ, zero, suc, ◌^◌, ◌<◌, ◌==◌, ◌||◌, ◌≡◌, ◌≢◌, sym, ap, subst, ◌∙◌, arith, if◌then◌else◌, Bool,
  true, false, ◌∷◌, refl,
}
use not.Hardware.{Trace, Hw, delay_nops}
use not.Hardware.Wires.{clocked, edge_seen, edge_seen_same}
use not.Spi.{gpio_write_fast, leading_round, trailing_round, rounds, spi_xfer_byte}
use not.Spi.Bits.{mask_lem, sent, sent_lem, upper-8}
use not.Spi.Loop.{Shows, rounds-sck, rounds-bits, rounds-reply}
use not.Spi.Rounds.{Round, wires, round_0, round_1, round_2, round_3}
use not.Spi.Slave.{Slave, slave, high, after_sck, slave-delay_nops, slave-write_sck}

-- The edge on which a slave takes a bit and the idle level of SCK, in the four modes. The edge is
-- also the level of SCK from this edge to the next.
abbrev pub sampling_edge : ℕ → Bool
sampling_edge mode = mode == 0 || mode == 3

abbrev pub idle_high : ℕ → Bool
idle_high mode = mode == 2 || mode == 3

-- What the transfer of a byte does, for a slave that is `before` first.
pub record Transferred (hw : Hw) (miso : ℕ) (view : Trace → Slave) (rest level : Bool) (out : ℕ)
    (before : Slave) (r : ℕ × Trace) : Type 0 where
  pub at_rest : (view r.1).sck ≡ rest
  pub taken : (view r.1).bits ≡ clocked 8 out before.bits
  pub received :
      (reply : ℕ) → reply < 256 → Shows hw miso view level before.bits 8 reply → r.0 ≡ reply

-- The first write puts SCK on its idle level; that is an edge only when it was not there.
idle_start :
    (clk dat delay idle : ℕ) (edge : Bool) (w : Slave)
    → clk ≢ dat
    → (t : Trace) → (slave clk dat edge w t).sck ≡ high idle
    → slave clk dat edge w (delay_nops delay (gpio_write_fast (2 ^ clk) idle t).1).1
      ≡ slave clk dat edge w t
idle_start clk dat delay idle edge w apart t e =
    slave-delay_nops clk dat edge w apart delay (gpio_write_fast (2 ^ clk) idle t).1
    ∙ slave-write_sck clk dat edge w apart idle t
    ∙ at_rest (slave clk dat edge w t) e
  where
    at_rest : (s : Slave) → s.sck ≡ high idle → after_sck edge idle s ≡ s
    at_rest s e =
        ap
          (λ b. record s {
            sck = b;
            bits = if edge_seen edge s.sck b then s.mosi ∷ s.bits else s.bits;
          })
          (sym e)
        ∙ rw (edge_seen_same edge s.sck) refl

module _ (hw : Hw) (sck mosi miso out delay : ℕ) (w : Slave) (t : Trace) (in_sck : sck < 16)
    (in_mosi : mosi < 16) (in_miso : miso < 16) (apart : sck ≢ mosi) where
  -- The whole transfer, from its rounds.
  by_rounds :
      (edge level : Bool) (idle : ℕ) (round : ℕ → ℕ → Trace → ℕ × Trace)
      → Round hw (2 ^ miso) round (slave sck mosi edge w) (high idle) level
      → (slave sck mosi edge w t).sck ≡ high idle
      → Transferred hw miso
          (slave sck mosi edge w)
          (high idle)
          level
          out
          (slave sck mosi edge w t)
          (rounds hw round 8 out 0 (delay_nops delay (gpio_write_fast (2 ^ sck) idle t).1).1)
  by_rounds edge level idle round one e =
      let view = slave sck mosi edge w in
      let t₁ = (delay_nops delay (gpio_write_fast (2 ^ sck) idle t).1).1 in
      let start = idle_start sck mosi delay idle edge w apart t e in
      let resting = ap (λ s. s.sck) start ∙ e in
      record {
        at_rest = rounds-sck hw miso round view (high idle) level one 8 out 0 t₁ resting;
        taken =
            rounds-bits hw miso round view (high idle) level one 8 out 0 t₁ resting
            ∙ ap (λ s. sent 8 out s.bits) start
            ∙ sent_lem out (view t).bits;
        received = λ reply small shows.
            rounds-reply hw miso round view (high idle) level one 8 out 0 reply t₁ resting small
              (sym (upper-8 reply small))
              (subst (λ s. Shows hw miso view level s.bits 8 reply) (sym start) shows);
      }

  pub spi_xfer_byte-Transferred :
      (mode : ℕ)
      → mode < 4
      → (slave sck mosi (sampling_edge mode) w t).sck ≡ idle_high mode
      → Transferred hw miso
          (slave sck mosi (sampling_edge mode) w)
          (idle_high mode)
          (sampling_edge mode)
          out
          (slave sck mosi (sampling_edge mode) w t)
          (spi_xfer_byte hw sck mosi miso out mode delay t)
  unfolding spi_xfer_byte
  spi_xfer_byte-Transferred zero h e =
      rw (mask_lem sck in_sck, mask_lem mosi in_mosi, mask_lem miso in_miso)
        (by_rounds true true 0 (leading_round hw (wires hw sck mosi (2 ^ miso) delay 0 1 w apart))
          (round_0 hw sck mosi (2 ^ miso) delay w apart) e)
  spi_xfer_byte-Transferred (suc zero) h e =
      rw (mask_lem sck in_sck, mask_lem mosi in_mosi, mask_lem miso in_miso)
        (by_rounds false false 0
          (trailing_round hw (wires hw sck mosi (2 ^ miso) delay 0 1 w apart))
          (round_1 hw sck mosi (2 ^ miso) delay w apart) e)
  spi_xfer_byte-Transferred (suc (suc zero)) h e =
      rw (mask_lem sck in_sck, mask_lem mosi in_mosi, mask_lem miso in_miso)
        (by_rounds false false 1 (leading_round hw (wires hw sck mosi (2 ^ miso) delay 1 0 w apart))
          (round_2 hw sck mosi (2 ^ miso) delay w apart) e)
  spi_xfer_byte-Transferred (suc (suc (suc zero))) h e =
      rw (mask_lem sck in_sck, mask_lem mosi in_mosi, mask_lem miso in_miso)
        (by_rounds true true 1 (trailing_round hw (wires hw sck mosi (2 ^ miso) delay 1 0 w apart))
          (round_3 hw sck mosi (2 ^ miso) delay w apart) e)
  spi_xfer_byte-Transferred (suc (suc (suc (suc mode)))) h e = absurd (omega arith)
