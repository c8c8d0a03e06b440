-- ===== src/Spi/Buffer.antt =====
-- `spi_write_read` over a whole buffer, against a slave that takes and shows bits.
use not.Prelude.{
  ℕ, suc, ◌+◌, ◌*◌, ◌<◌, ◌≡◌, ◌≢◌, refl, ap, ap₂, ◌∙◌, arith, Bool, List, [], ◌∷◌, length, get_or,
  bit,
}
use not.Hardware.{gpio_a, Trace, Hw}
use not.Hardware.Wires.{clocked, length-clocked}
use not.Spi.{spi_xfer_byte, spi_write_read}
use not.Spi.Slave.{Slave, slave}
use not.Spi.Transfer.{spi_xfer_byte-Transferred, sampling_edge, idle_high}

-- The bits of a buffer, each byte from bit 7 down, behind those that were there.
abbrev pub clocked_bytes : List ℕ → List Bool → List Bool
clocked_bytes [] acc = acc
clocked_bytes (x ∷ xs) acc = clocked_bytes xs (clocked 8 x acc)

-- The slave shows the bytes of `replies` on MISO, each from bit 7 down: from the edge on which it
-- takes a bit of byte `j`, with `m` bits of this byte to come, to the next edge, the pin has bit
-- `m` of reply `j`.
abbrev pub Answers : Hw → ℕ → (Trace → Slave) → Bool → List Bool → List ℕ → Type 0
Answers hw miso view level before replies =
    (j m : ℕ) (seen : Trace)
    → j < length replies
    → m < 8
    → length (view seen).bits + m ≡ length before + 8 * suc j
    → (view seen).sck ≡ level
    → bit (hw.read_indr gpio_a seen) miso ≡ bit (get_or replies j 0) m

module _ (hw : Hw) (sck mosi miso mode delay : ℕ) (w : Slave) (in_sck : sck < 16)
    (in_mosi : mosi < 16) (in_miso : miso < 16) (apart : sck ≢ mosi) (in_mode : mode < 4) where
  -- `spi_write_read` in each of the four modes: a slave that takes MOSI on the edges of its mode has
  -- the bits of all bytes of the write buffer after it, each from bit 7 down, and has taken nothing
  -- else, SCK is idle, and the read buffer holds the bytes that the slave showed on MISO in the
  -- same bits. The pins are on port A, SCK and MOSI are different pins, and SCK was idle before.
  pub spi_write_read_lem :
      (outs replies : List ℕ) (t : Trace)
      → (slave sck mosi (sampling_edge mode) w t).sck ≡ idle_high mode
      → length replies ≡ length outs
      → ((j : ℕ) → j < length replies → get_or replies j 0 < 256)
      → Answers hw miso
          (slave sck mosi (sampling_edge mode) w)
          (sampling_edge mode)
          (slave sck mosi (sampling_edge mode) w t).bits
          replies
      → ((spi_write_read hw sck mosi miso mode delay outs t).0 ≡ replies)
        × ((slave sck mosi
              (sampling_edge mode)
              w
              (spi_write_read hw sck mosi miso mode delay outs t).1).bits
            ≡ clocked_bytes outs (slave sck mosi (sampling_edge mode) w t).bits)
        × ((slave sck mosi
              (sampling_edge mode)
              w
              (spi_write_read hw sck mosi miso mode delay outs t).1).sck
            ≡ idle_high mode)
  unfolding spi_write_read
  spi_write_read_lem [] [] t e size bytes answers = (refl, refl, e)
  spi_write_read_lem [] (reply ∷ replies) t e size bytes answers = absurd (omega arith)
  spi_write_read_lem (out ∷ outs) [] t e size bytes answers = absurd (omega arith)
  spi_write_read_lem (out ∷ outs) (reply ∷ replies) t e size bytes answers =
      let view = slave sck mosi (sampling_edge mode) w in
      let one =
        spi_xfer_byte-Transferred hw sck mosi miso out delay w t in_sck in_mosi in_miso apart mode
          in_mode e in
      let got =
        one.received reply (bytes 0 (omega arith))
          (λ m seen h taken. answers 0 m seen (omega arith) h (omega arith)) in
      let behind = length-clocked 8 out (view t).bits in
      let (bs, taken, idle) =
        spi_write_read_lem outs replies (spi_xfer_byte hw sck mosi miso out mode delay t).1
          one.at_rest (omega arith) (λ j h. bytes (suc j) (omega arith))
          (λ j m seen h hm now.
            answers (suc j) m seen (omega arith) hm
              (omega (arith, now, ap length one.taken, behind))) in
      (ap₂ (λ x xs. x ∷ xs) got bs, taken ∙ ap (clocked_bytes outs) one.taken, idle)
