-- ===== src/OneWire/Tests.antt =====
-- A device that is there and answers 0: a reset, two bits written, one read.
use not.Prelude.{◌^◌, ◌≡◌, refl, Bool, true, false, List, [], ◌∷◌}
use not.Hardware.{Hw}
use not.OneWire.Slots.{
  Slot, Op, write_0, write_1, read_bit, reset_bus, bus, Answers, perform_all, slots_for,
  all_bits_for, perform_all_lem,
}

abbrev held_low : Hw
held_low = record {
  read_indr = λ p t. 0;
  read_outdr = λ p t. 0;
  read_cfglr = λ p t. 0;
  read_cfghr = λ p t. 0;
  timed_out = λ t. true;
}

abbrev pulls : List Slot → Bool
pulls slots = false

held_low-Answers : Answers 3 held_low pulls
held_low-Answers t idle sure = refl

abbrev ops : List Op
ops = reset_bus ∷ write_1 ∷ write_0 ∷ read_bit ∷ []

perform_all_lem_example :
    let (bits, t') = perform_all held_low (2 ^ 3) ops [] in
    ((bus 3 t').low ≡ false)
    × ((bus 3 t').slots ≡ slots_for ops [])
    × (bits ≡ all_bits_for pulls ops [])
perform_all_lem_example = perform_all_lem 3 held_low pulls held_low-Answers ops [] refl
