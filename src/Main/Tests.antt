-- ===== src/Main/Tests.antt =====
-- Three turns of the main loop: three pins are set up.
use not.Prelude.{◌≡◌, ◌⊎◌, ltb, refl, arith, [], ◌∷◌, List, ℕ, length, none, some}
use not.Hardware.{Trace}
use not.Vm.State.{ok, fault}
use not.Packet.Sample.{chip, board, wire, all_high}
use not.Packet.Requests.{Setup}
use not.Main.{main_rounds}
use not.Main.Setups.{set_up, main_setups_lem}

abbrev requests : List (Setup × ℕ)
requests = (Setup.push_pull, 0) ∷ (Setup.pull_up, 5) ∷ (Setup.analog, 9) ∷ []

abbrev on_way : List ℕ
on_way = 20 ∷ 0 ∷ 23 ∷ 5 ∷ 121 ∷ 9 ∷ []

main_setups_lem_example :
    ((set_up all_high requests [] ≡ none)
      × (main_rounds chip (λ s. ltb 0 (length s.0)) (λ s. s) 3 (board on_way) ≡ fault))
    ⊎ ((t : Trace) × (s : List ℕ × List ℕ) × (set_up all_high requests [] ≡ some t)
        × (main_rounds chip (λ s. ltb 0 (length s.0)) (λ s. s) 3 (board on_way)
            ≡ ok (tt, record (board []) { link = s; trace = t }))
        × (s ≡ ([], [])))
main_setups_lem_example =
    main_setups_lem chip wire (λ s. ltb 0 (length s.0)) (λ s. s)
      (λ s byte inp out h. rw h (ground arith)) (λ s inp out h. h) requests (board on_way) [] []
      (refl, refl)
