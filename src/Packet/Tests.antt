-- ===== src/Packet/Tests.antt =====
-- Requests on a board whose link is a list of bytes each way.
use not.Prelude.{ℕ, ◌≡◌, refl, arith, List, [], ◌∷◌, none, some, replicate}
use not.Gpio.{gpio_init_pin, mode_ipu}
use not.I2c.{i2c_send_bytes}
use not.Fs.{flashfs_remove, flashfs_move, flashfs_file_write, on_file}
use not.Usb.Serial.{bytes_of}
use not.Vm.State.{ok, fault}
use not.Packet.{half}
use not.Packet.Memory.{splice}
use not.Packet.Dispatch.{get_packet}
use not.Packet.Requests.{Setup, setup_request_lem}
use not.Packet.Transfers.{i2c_write_request_lem}
use not.Packet.Paths.{remove_request_lem, move_request_lem, file_write_request_lem}
use not.Packet.Oversize.{Lengthy, oversize_request_lem}
use not.Packet.Sample.{willing, all_high, chip, wire, board, board-sized}

setup_request_lem_example :
    (s : List ℕ × List ℕ) × (get_packet chip (board (23 ∷ 5 ∷ []))
      ≡ elim (gpio_init_pin all_high 5 mode_ipu []) [
        | none ↦ fault
        | some t ↦ ok (tt, record (board []) { link = s; trace = t })
      ])
    × (s ≡ ([], []))
setup_request_lem_example =
    setup_request_lem chip wire Setup.pull_up (board (23 ∷ 5 ∷ [])) 5 [] [] (refl, refl)

-- Two bytes to the device at 0x50.
abbrev i2c_request : List ℕ
i2c_request = 143 ∷ 1 ∷ 2 ∷ 0x50 ∷ 2 ∷ 0 ∷ 0 ∷ 0 ∷ 7 ∷ 9 ∷ 1 ∷ 3 ∷ 0 ∷ 0 ∷ 0 ∷ []

i2c_write_request_lem_example :
    (s : List ℕ × List ℕ) × (get_packet chip (board i2c_request)
      ≡ ok (
        tt,
        record (board []) {
          link = s;
          mega = splice 0 (7 ∷ 9 ∷ []) (replicate 5120 0);
          trace = (i2c_send_bytes all_high 1 2 0xA0 (7 ∷ 9 ∷ []) 1 3 []).1;
        },
      ))
    × (s ≡ ([], []))
unfolding bytes_of
i2c_write_request_lem_example =
    i2c_write_request_lem chip wire (board i2c_request) 1 2 0x50 1 3 (7 ∷ 9 ∷ []) [] []
      (board-sized []) (omega arith) (omega arith) (refl, refl)

abbrev remove_request : List ℕ
remove_request = 235 ∷ 1 ∷ 0 ∷ 0 ∷ 0 ∷ 0x61 ∷ []

remove_request_lem_example :
    (s : List ℕ × List ℕ) × (get_packet chip (board remove_request)
      ≡ ok (
        tt,
        record (board []) {
          link = s;
          mega = splice 0 (0x61 ∷ 0 ∷ []) (replicate 5120 0);
          fs = (flashfs_remove willing (0x61 ∷ []) (board []).fs).1;
        },
      ))
    × (s ≡ ([], bytes_of (flashfs_remove willing (0x61 ∷ []) (board []).fs).0))
unfolding bytes_of
remove_request_lem_example =
    remove_request_lem chip wire (board remove_request) (0x61 ∷ []) [] [] (board-sized [])
      (λ e. absurd (omega (arith, e)), tt) (omega arith) (omega arith) (refl, refl)

abbrev move_request : List ℕ
move_request = 236 ∷ 1 ∷ 0 ∷ 0 ∷ 0 ∷ 0x61 ∷ 1 ∷ 0 ∷ 0 ∷ 0 ∷ 0x62 ∷ []

move_request_lem_example :
    (s : List ℕ × List ℕ) × (get_packet chip (board move_request)
      ≡ ok (
        tt,
        record (board []) {
          link = s;
          mega = splice half (0x62 ∷ 0 ∷ []) (splice 0 (0x61 ∷ 0 ∷ []) (replicate 5120 0));
          fs = (flashfs_move willing (0x61 ∷ []) (0x62 ∷ []) (board []).fs).1;
        },
      ))
    × (s ≡ ([], bytes_of (flashfs_move willing (0x61 ∷ []) (0x62 ∷ []) (board []).fs).0))
unfolding bytes_of
move_request_lem_example =
    move_request_lem chip wire (board move_request) (0x61 ∷ []) (0x62 ∷ []) [] [] (board-sized [])
      (λ e. absurd (omega (arith, e)), tt) (λ e. absurd (omega (arith, e)), tt) (omega arith)
      (omega arith) (omega arith) (refl, refl)

abbrev write_request : List ℕ
write_request = 241 ∷ 3 ∷ 0 ∷ 0 ∷ 0 ∷ 2 ∷ 0 ∷ 0 ∷ 0 ∷ 7 ∷ 9 ∷ []

file_write_request_lem_example :
    (s : List ℕ × List ℕ) × (get_packet chip (board write_request)
      ≡ ok (tt, record (board []) { link = s; mega = splice 0 (7 ∷ 9 ∷ []) (replicate 5120 0) }))
    × (s ≡ ([], bytes_of 2))
unfolding bytes_of flashfs_file_write on_file
file_write_request_lem_example =
    file_write_request_lem chip wire (board write_request) 3 2 (7 ∷ 9 ∷ []) [] [] (board []).fs
      (board-sized []) (omega arith) (omega arith) (omega arith) refl (refl, refl)

-- A path of 5121 bytes, all of which the host sends.
oversize_request_lem_example :
    get_packet chip (board (235 ∷ 1 ∷ 20 ∷ 0 ∷ 0 ∷ replicate 5121 0x61)) ≡ fault
unfolding bytes_of
oversize_request_lem_example =
    oversize_request_lem chip wire Lengthy.remove
      (board (235 ∷ 1 ∷ 20 ∷ 0 ∷ 0 ∷ replicate 5121 0x61)) 5121 (replicate 5121 0x61) []
      (omega arith) (omega arith) (omega arith) (refl, refl)
