-- ===== src/Comms/Device/Tests.antt =====
-- A transfer of three bytes to a board that asks for one, and one of two bytes from it.
use not.Prelude.{ℕ, ◌≡◌, refl, arith, true, false, [], ◌∷◌, none, some}
use not.Comms.Device.{Look, i2c_device_read, i2c_device_write}
use not.Comms.Device.Whole.{i2c_device_read_lem, i2c_device_write_lem}

abbrev quiet : Look
quiet = record {
  addressed = false;
  received = none;
  can_send = false;
  refused = false;
  stopped = false;
}

abbrev addressed : Look
addressed = record quiet { addressed = true }

abbrev byte : ℕ → Look
byte b = record quiet { received = some b }

abbrev stop : Look
stop = record quiet { stopped = true }

i2c_device_read_lem_example :
    (i2c_device_read 1
        (quiet ∷ addressed ∷ byte 2 ∷ quiet ∷ byte 8 ∷ byte 0 ∷ stop ∷ addressed ∷ [])
      ≡ some (2 ∷ [], addressed ∷ []))
    × (i2c_device_read 0
          (quiet ∷ addressed ∷ byte 2 ∷ quiet ∷ byte 8 ∷ byte 0 ∷ stop ∷ addressed ∷ [])
        ≡ some ([], quiet ∷ addressed ∷ byte 2 ∷ quiet ∷ byte 8 ∷ byte 0 ∷ stop ∷ addressed ∷ []))
i2c_device_read_lem_example =
    i2c_device_read_lem 1 (quiet ∷ []) (byte 2 ∷ quiet ∷ byte 8 ∷ byte 0 ∷ []) (addressed ∷ [])
      addressed stop (λ e. absurd (omega (arith, e))) (refl, tt) refl
      (refl, (refl, (refl, (refl, tt)))) refl

i2c_device_write_lem_example :
    i2c_device_write (7 ∷ 9 ∷ 11 ∷ []) (
      addressed
      ∷ record quiet { can_send = true }
      ∷ record quiet { can_send = true }
      ∷ record quiet { refused = true }
      ∷ [])
    ≡ some (7 ∷ 9 ∷ [], [])
i2c_device_write_lem_example =
    i2c_device_write_lem (7 ∷ 9 ∷ 11 ∷ []) []
      (record quiet { can_send = true } ∷ record quiet { can_send = true } ∷ []) [] addressed
      (record quiet { refused = true }) (λ e. absurd (omega (arith, e))) tt refl (refl, (refl, tt))
      refl
