-- ===== src/Usb/Tests.antt =====
-- usb_serial.c with short messages.
use not.Comms.{mode_usb}
use not.Comms.Pipe.{IsPipe, chosen}
use not.Usb.Link.{usb_link, Takes, Quiet, comms_usb-IsPipe}
use not.Usb.Serial.Drain.{completions}
use not.Prelude.{
  some, zero, suc, ◌+◌, ◌/◌, min, to_bit, Bool, ℕ, ◌-◌, ◌^◌, ◌++◌, List, ◌≡◌, ◌<◌, ◌≤◌, length,
  refl, arith, true, false, [], ◌∷◌, replicate,
}
use not.Usb.Ring.{Ring, ring_count, count, free}
use not.Usb.Ring.Queue.{IsRing, contents}
use not.Usb.Serial.{Serial, connected}
use not.Usb.Serial.Receive.{ReadsAll, incoming, blocking_read_bytes_lem}
use not.Usb.Serial.Print.{i32_to_str, numeral, i32_to_str_lem}
use not.Usb.Serial.Write.{Writes, blocking_write_lem}

abbrev empty_ring : Ring
empty_ring = record { buf = replicate 2048 0; head = 2047; tail = 2047 }

empty_ring-IsRing : IsRing empty_ring
empty_ring-IsRing = record { sized = refl; head_in = omega arith; tail_in = omega arith }

abbrev ready : Serial
ready = record {
  rx = empty_ring;
  tx = empty_ring;
  tx_pending_kick = false;
  dev_enum_status = 1;
  dev_config = 1;
  ep3_busy = false;
  sent = [];
}

-- Three bytes in two packets, of which two are read, round the end of the ring.
blocking_read_bytes_lem_example : ReadsAll 2 2 ready ((7 ∷ []) ∷ (8 ∷ 9 ∷ []) ∷ [])
unfolding contents ring_count
blocking_read_bytes_lem_example =
    blocking_read_bytes_lem 2 2 ((7 ∷ []) ∷ (8 ∷ 9 ∷ []) ∷ []) ready empty_ring-IsRing three_lower
      three_upper (omega arith)
  where
    three : length (incoming ready ((7 ∷ []) ∷ (8 ∷ 9 ∷ []) ∷ [])) ≡ 3
    three = refl

    three_lower : 2 ≤ length (incoming ready ((7 ∷ []) ∷ (8 ∷ 9 ∷ []) ∷ []))
    three_lower = omega (arith, three)

    three_upper : length (incoming ready ((7 ∷ []) ∷ (8 ∷ 9 ∷ []) ∷ [])) < 2048
    three_upper = omega (arith, three)

blocking_write_lem_example : Writes (true ∷ []) ready (1 ∷ 2 ∷ 3 ∷ [])
unfolding connected ring_count
blocking_write_lem_example =
    blocking_write_lem (true ∷ []) ready (1 ∷ 2 ∷ 3 ∷ []) empty_ring-IsRing refl (omega arith)

-- The number -1234.
i32_to_str_lem_example :
    (digits : List ℕ) × (i32_to_str (2 ^ 32 - 1234) 20 ≡ (0x2D ∷ digits) ++ 0 ∷ [])
    × (numeral digits ≡ some 1234)
i32_to_str_lem_example = i32_to_str_lem (2 ^ 32 - 1234) 20 (omega arith) (omega arith)

-- A host that takes every packet at once.
abbrev host : Serial → List ℕ → List Bool
host s bytes =
    replicate ((count s.tx + min (free s.tx) (length bytes) + 63) / 64 + to_bit s.ep3_busy) true

host-Takes : Takes host
host-Takes s bytes =
    omega (arith, all ((count s.tx + min (free s.tx) (length bytes) + 63) / 64 + to_bit s.ep3_busy))
  where
    all : (n : ℕ) → completions (replicate n true) ≡ n
    all zero = refl
    all (suc n) = omega (arith, all n)

comms_usb-IsPipe_example :
    IsPipe
      (chosen (usb_link host) (usb_link host) mode_usb)
      2047
      (λ s inp out. (length inp ≤ 2047) × Quiet s inp out)
comms_usb-IsPipe_example = comms_usb-IsPipe host (usb_link host) host-Takes
