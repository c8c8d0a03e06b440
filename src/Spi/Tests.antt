-- ===== src/Spi/Tests.antt =====
-- spi.c on three pins, with a slave that answers.
use not.Prelude.{
  ℕ, zero, suc, ◌-◌, ◌*◌, ◌/◌, ◌%◌, ◌^◌, ◌<◌, ◌≡◌, refl, ap₂, ◌∙◌, arith, false, true, List, [],
  ◌∷◌, length, get_or, bit, bit-lt, bit-shift,
}
use not.Hardware.{Hw}
use not.Spi.{spi_write_read}
use not.Spi.Buffer.{Answers, clocked_bytes, spi_write_read_lem}
use not.Spi.Slave.{Slave, slave}
use not.Spi.Transfer.{sampling_edge, idle_high}

abbrev resting : Slave
resting = record { sck = true; mosi = false; bits = [] }

abbrev replies : List ℕ
replies = 0x3C ∷ 0x81 ∷ []

abbrev shown : ℕ → ℕ
shown taken = bit (get_or replies ((taken - 1) / 8) 0) (7 - (taken - 1) % 8)

-- A slave on the pins 5, 7 and 6 that shows the replies.
abbrev answering : Hw
answering = record {
  read_indr = λ p t. shown (length (slave 5 7 true resting t).bits) * 2 ^ 6;
  read_outdr = λ p t. 0;
  read_cfglr = λ p t. 0;
  read_cfghr = λ p t. 0;
  timed_out = λ t. true;
}

answering-Answers : Answers answering 6 (slave 5 7 true resting) true [] replies
answering-Answers j m seen h hm now level =
    let taken = length (slave 5 7 true resting seen).bits in
    let byte : (taken - 1) / 8 ≡ j = omega (arith, now) in
    let place : 7 - (taken - 1) % 8 ≡ m = omega (arith, now, hm) in
    let one_bit : shown taken % 2 ≡ shown taken =
      omega (arith, bit-lt (get_or replies ((taken - 1) / 8) 0) (7 - (taken - 1) % 8)) in
    bit-shift (shown taken) 6 0 ∙ one_bit ∙ ap₂ (λ i k. bit (get_or replies i 0) k) byte place

replies_small : (j : ℕ) → j < 2 → get_or replies j 0 < 256
replies_small zero h = omega arith
replies_small (suc zero) h = omega arith
replies_small (suc (suc j)) h = absurd (omega arith)

-- The bytes 0xA5 and 0x0F in mode 3, for 0x3C and 0x81.
spi_write_read_lem_example :
    ((spi_write_read answering 5 7 6 3 2 (0xA5 ∷ 0x0F ∷ []) []).0 ≡ replies)
    × ((slave 5 7
          (sampling_edge 3)
          resting
          (spi_write_read answering 5 7 6 3 2 (0xA5 ∷ 0x0F ∷ []) []).1).bits
        ≡ clocked_bytes (0xA5 ∷ 0x0F ∷ []) [])
    × ((slave 5 7
          (sampling_edge 3)
          resting
          (spi_write_read answering 5 7 6 3 2 (0xA5 ∷ 0x0F ∷ []) []).1).sck
        ≡ idle_high 3)
spi_write_read_lem_example =
    spi_write_read_lem answering 5 7 6 3 2 resting (omega arith) (omega arith) (omega arith)
      (λ e. absurd (omega arith)) (omega arith) (0xA5 ∷ 0x0F ∷ []) replies [] refl refl
      replies_small answering-Answers
