-- ===== src/I2c/Tests.antt =====
-- i2c.c on two pins.
use not.Prelude.{
  ℕ, zero, suc, ◌-◌, ◌*◌, ◌/◌, ◌%◌, ◌^◌, ◌<◌, ◌≡◌, ap₂, ◌∙◌, arith, false, true, List, [], ◌∷◌,
  length, get_or, bit, bit-lt, bit-shift,
}
use not.Hardware.{Hw}
use not.I2c.{i2c_send_bytes, i2c_recv_bytes}
use not.I2c.Bus.{Device, device}
use not.I2c.Frame.{frame, i2c_send_bytes_lem}
use not.I2c.Receive.{Answers, acknowledged, i2c_recv_bytes_lem}
use not.Hardware.Wires.{clocked}

abbrev nobody : Hw
nobody = record {
  read_indr = λ p t. 0xFFFF;
  read_outdr = λ p t. 0;
  read_cfglr = λ p t. 0;
  read_cfghr = λ p t. 0;
  timed_out = λ t. true;
}

abbrev idle_bus : Device
idle_bus = record { scl = true; sda = true; bits = []; stopped = true }

-- Two bytes to the address 0x3C, with a STOP asked for.
i2c_send_bytes_lem_example :
    ((device 3 4 idle_bus (i2c_send_bytes nobody 3 4 0x78 (0xAE ∷ 0x01 ∷ []) 1 0 []).1).bits
      ≡ true ∷ frame (0x78 ∷ 0xAE ∷ 0x01 ∷ []) [])
    × ((device 3 4 idle_bus (i2c_send_bytes nobody 3 4 0x78 (0xAE ∷ 0x01 ∷ []) 1 0 []).1).stopped
        ≡ false)
i2c_send_bytes_lem_example =
    i2c_send_bytes_lem nobody 3 4 0 idle_bus (omega arith) (omega arith) (λ e. absurd (omega arith))
      0x78 (0xAE ∷ 0x01 ∷ []) 1 []

abbrev replies : List ℕ
replies = 0x12 ∷ 0xC3 ∷ []

-- What a device shows that has taken so many bits since its START.
abbrev shown : ℕ → ℕ
shown taken = bit (get_or replies ((taken - 10) / 9) 0) (7 - (taken - 10) % 9)

-- A device on the pins 3 and 4 that shows the replies.
abbrev answering : Hw
answering = record {
  read_indr = λ p t. shown (length (device 3 4 idle_bus t).bits) * 2 ^ 3;
  read_outdr = λ p t. 0;
  read_cfglr = λ p t. 0;
  read_cfghr = λ p t. 0;
  timed_out = λ t. true;
}

answering-Answers : Answers answering 3 (device 3 4 idle_bus) 9 replies
answering-Answers j m seen h hm now high free =
    let taken = length (device 3 4 idle_bus seen).bits in
    let byte : (taken - 10) / 9 ≡ j = omega (arith, now) in
    let place : 7 - (taken - 10) % 9 ≡ m = omega (arith, now, hm) in
    let one_bit : shown taken % 2 ≡ shown taken =
      omega (arith, bit-lt (get_or replies ((taken - 10) / 9) 0) (7 - (taken - 10) % 9)) in
    bit-shift (shown taken) 3 0 ∙ one_bit ∙ ap₂ (λ i k. bit (get_or replies i 0) k) byte place

replies_small : (j : ℕ) → j < 2 → get_or replies j 0 < 256
replies_small zero h = omega arith
replies_small (suc zero) h = omega arith
replies_small (suc (suc j)) h = absurd (omega arith)

-- Two bytes from the address 0x3C, with a STOP asked for.
i2c_recv_bytes_lem_example :
    ((i2c_recv_bytes answering 3 4 0x78 2 1 0 []).0 ≡ replies)
    × ((device 3 4 idle_bus (i2c_recv_bytes answering 3 4 0x78 2 1 0 []).1).bits
        ≡ true ∷ acknowledged 2 (true ∷ clocked 8 0x79 []))
    × ((device 3 4 idle_bus (i2c_recv_bytes answering 3 4 0x78 2 1 0 []).1).stopped ≡ false)
i2c_recv_bytes_lem_example =
    i2c_recv_bytes_lem answering 3 4 0 idle_bus (omega arith) (omega arith)
      (λ e. absurd (omega arith)) 0x78 replies 1 [] replies_small answering-Answers
