-- ===== src/I2c/Frame.antt =====
-- The bytes that `i2c_send_bytes` puts on the bus, as a device takes them.
use native.Mathlib.Nat.{one-le-pow}
use not.Prelude.{
  ℕ, zero, suc, ◌^◌, ◌<◌, ◌==◌, ◌≡◌, ◌≢◌, refl, sym, ap, ◌∙◌, arith, if◌then◌else◌, negate, Bool,
  true, false, List, [], ◌∷◌, Bool-cases, inl, inr, bit, bit-lt, bit_and, bit_and-pow,
}
use not.Hardware.{gpio_a, bshr, bcr, emit, sample, Trace, Hw, delay_nops, pin_mask}
use not.Hardware.Wires.{clocked}
use not.I2c.{
  i2c_start, i2c_send_bit, send_bits, i2c_stop, i2c_send_byte, send_all, stop_if, i2c_send_bytes,
}
use not.I2c.Steps.{
  Holds, wait-Holds, release-Holds, pull-Holds, up-Raised, sample-Raised, down-Holds, wait-Raised,
  release-Raised,
}
use not.I2c.Bus.{
  Device, sees, device, device-delay_nops, device-scl_high, device-scl_low, device-sda_high,
  device-sda_low,
}

-- Behind each byte comes one more bit, in which SDA is released for the acknowledgement.
abbrev pub frame : List ℕ → List Bool → List Bool
frame [] acc = acc
frame (b ∷ bs) acc = frame bs (true ∷ clocked 8 b acc)

is_set : ℕ → Bool
is_set bit = negate (bit == 0)

is_set-bit_and : (x k : ℕ) → is_set (bit_and x (2 ^ k)) ≡ (bit x k == 1)
unfolding is_set
is_set-bit_and x k = ground (arith, bit_and-pow x k, bit-lt x k, one-le-pow k 2)

module _ (hw : Hw) (sda scl delay : ℕ) (d : Device) (in_sda : sda < 16) (in_scl : scl < 16)
    (apart : sda ≢ scl) where
  abbrev pub at : Trace → Device
  at t = device sda scl d t

  abbrev pub wait : Trace → Trace
  wait t = (delay_nops delay t).1

  set_sda :
      (bit : ℕ) (was : Bool) (bits : List Bool) (t : Trace)
      → Holds (at t) was bits
      → Holds
          (at
            ((if bit == 0
                then emit (bcr gpio_a (pin_mask sda))
                else emit (bshr gpio_a (pin_mask sda)))
              t).1)
          (is_set bit)
          bits
  unfolding is_set
  set_sda bit was bits t h = elim (Bool-cases (bit == 0)) [
    | inl e ↦ rw e (pull-Holds sda scl delay d in_sda in_scl apart was bits t h)
    | inr e ↦ rw e (release-Holds sda scl delay d in_sda in_scl apart was bits t h)
  ]

  send_bit_lem :
      (bit : ℕ) (was : Bool) (bits : List Bool) (t : Trace)
      → Holds (at t) was bits
      → Holds (at (i2c_send_bit sda scl bit delay t).1) (is_set bit) (is_set bit ∷ bits)
  unfolding i2c_send_bit
  send_bit_lem bit was bits t h =
      let v = is_set bit in
      let t₁ =
        ((if bit == 0 then emit (bcr gpio_a (pin_mask sda)) else emit (bshr gpio_a (pin_mask sda)))
          t).1 in
      let ready =
        wait-Holds sda scl delay d in_sda in_scl apart v bits t₁ (set_sda bit was bits t h) in
      down-Holds sda scl delay d in_sda in_scl apart v (v ∷ bits)
        (wait (bshr gpio_a (pin_mask scl) ∷ wait t₁))
        (up-Raised sda scl delay d in_sda in_scl apart v bits (wait t₁) ready)

  send_bits_lem :
      (n byte : ℕ) (was : Bool) (bits : List Bool) (t : Trace)
      → Holds (at t) was bits
      → (now : Bool) × Holds (at (send_bits sda scl n byte delay t).1) now (clocked n byte bits)
  unfolding send_bits
  send_bits_lem zero byte was bits t h = (was, h)
  send_bits_lem (suc n) byte was bits t h =
      let b = bit_and byte (2 ^ n) in
      let there : Holds (at (i2c_send_bit sda scl b delay t).1) (is_set b)
          ((bit byte n == 1) ∷ bits) =
        rw (sym (is_set-bit_and byte n)) (send_bit_lem b was bits t h) in
      send_bits_lem n byte (is_set b) ((bit byte n == 1) ∷ bits) (i2c_send_bit sda scl b delay t).1
        there

  ack_lem :
      (was : Bool) (bits : List Bool) (t : Trace)
      → Holds (at t) was bits
      → Holds
          (at (
            bshr gpio_a (pin_mask sda)
            ∷ wait (
                bcr gpio_a (pin_mask scl)
                ∷ sample gpio_a
                ∷ wait (bshr gpio_a (pin_mask scl) ∷ wait (bshr gpio_a (pin_mask sda) ∷ t)))))
          true
          (true ∷ bits)
  ack_lem was bits t h =
      let t₁ = bshr gpio_a (pin_mask sda) ∷ t in
      let t₂ = wait (bshr gpio_a (pin_mask scl) ∷ wait t₁) in
      let h₁ =
        wait-Holds sda scl delay d in_sda in_scl apart true bits t₁
          (release-Holds sda scl delay d in_sda in_scl apart was bits t h) in
      let h₂ =
        sample-Raised sda scl delay d in_sda in_scl apart true (true ∷ bits) t₂
          (up-Raised sda scl delay d in_sda in_scl apart true bits (wait t₁) h₁) in
      release-Holds sda scl delay d in_sda in_scl apart true (true ∷ bits)
        (wait (bcr gpio_a (pin_mask scl) ∷ sample gpio_a ∷ t₂))
        (down-Holds sda scl delay d in_sda in_scl apart true (true ∷ bits) (sample gpio_a ∷ t₂) h₂)

  pub send_byte_lem :
      (byte : ℕ) (was : Bool) (bits : List Bool) (t : Trace)
      → Holds (at t) was bits
      → Holds (at (i2c_send_byte hw sda scl byte delay t).1) true (true ∷ clocked 8 byte bits)
  unfolding i2c_send_byte
  send_byte_lem byte was bits t h =
      let (now, h') = send_bits_lem 8 byte was bits t h in
      ack_lem now (clocked 8 byte bits) (send_bits sda scl 8 byte delay t).1 h'

  send_all_lem :
      (bytes : List ℕ) (bits : List Bool) (t : Trace)
      → Holds (at t) true bits
      → Holds (at (send_all hw sda scl bytes delay t).1) true (frame bytes bits)
  unfolding send_all
  send_all_lem [] bits t h = h
  send_all_lem (b ∷ bs) bits t h =
      send_all_lem bs (true ∷ clocked 8 b bits) (i2c_send_byte hw sda scl b delay t).1
        (send_byte_lem b true bits t h)

  -- SCL goes up and down, with a wait behind each, whatever the device saw before.
  up : (t : Trace) → at (wait (bshr gpio_a (pin_mask scl) ∷ wait t)) ≡ sees true (at t).sda (at t)
  up t =
      device-delay_nops sda scl d in_sda in_scl apart delay (bshr gpio_a (pin_mask scl) ∷ wait t)
      ∙ device-scl_high sda scl d in_sda in_scl apart (wait t)
      ∙ ap (λ x. sees true x.sda x) (device-delay_nops sda scl d in_sda in_scl apart delay t)

  down : (t : Trace) → at (wait (bcr gpio_a (pin_mask scl) ∷ t)) ≡ sees false (at t).sda (at t)
  down t =
      device-delay_nops sda scl d in_sda in_scl apart delay (bcr gpio_a (pin_mask scl) ∷ t)
      ∙ device-scl_low sda scl d in_sda in_scl apart t

  -- Whatever was on the bus, a START makes the device wait for the first bit.
  pub start_lem : (t : Trace) → Holds (at (i2c_start sda scl delay t).1) false []
  unfolding i2c_start
  start_lem t =
      let t₁ = bshr gpio_a (pin_mask sda) ∷ t in
      let t₂ = wait (bshr gpio_a (pin_mask scl) ∷ wait t₁) in
      let t₃ = wait (bcr gpio_a (pin_mask sda) ∷ t₂) in
      let raised : at t₂ ≡ sees true true (sees (at t).scl true (at t)) =
        up t₁ ∙ ap (λ x. sees true x.sda x) (device-sda_high sda scl d in_sda in_scl apart t) in
      let fallen : at t₃ ≡ sees true false (sees true true (sees (at t).scl true (at t))) =
        device-delay_nops sda scl d in_sda in_scl apart delay (bcr gpio_a (pin_mask sda) ∷ t₂)
        ∙ device-sda_low sda scl d in_sda in_scl apart t₂
        ∙ ap (λ x. sees x.scl false x) raised in
      rw (down t₃, fallen)
        (record { scl_low = refl; sda_is = refl; bits_are = refl; no_stop = refl })

  pub stop_lem :
      (bits : List Bool) (t : Trace)
      → Holds (at t) true bits
      → ((at (i2c_stop sda scl delay t).1).bits ≡ true ∷ bits)
        × ((at (i2c_stop sda scl delay t).1).stopped ≡ false)
  unfolding i2c_stop
  stop_lem bits t h =
      let t₁ = wait (bshr gpio_a (pin_mask scl) ∷ t) in
      let r =
        wait-Raised sda scl delay d in_sda in_scl apart true (true ∷ bits)
          (bshr gpio_a (pin_mask sda) ∷ t₁)
          (release-Raised sda scl delay d in_sda in_scl apart (true ∷ bits) t₁
            (up-Raised sda scl delay d in_sda in_scl apart true bits t h)) in
      (r.bits_now, r.running)

  -- `i2c_send_bytes`: since its START, a device has taken the address byte and the bytes of the
  -- buffer, each with bit 7 first and with one bit behind it in which SDA is released. The device
  -- has seen no STOP, also where one was asked for: `i2c_stop` then only raises SCL, which the device
  -- takes for one more bit, since SDA is already released. The condition is that the two pins are
  -- different pins of port A.
  pub i2c_send_bytes_lem :
      (address : ℕ) (buffer : List ℕ) (stop : ℕ) (t : Trace)
      → ((at (i2c_send_bytes hw sda scl address buffer stop delay t).1).bits
          ≡ (if stop == 0 then frame (address ∷ buffer) [] else true ∷ frame (address ∷ buffer) []))
        × ((at (i2c_send_bytes hw sda scl address buffer stop delay t).1).stopped ≡ false)
  unfolding i2c_send_bytes stop_if
  i2c_send_bytes_lem address buffer stop t =
      let first = send_byte_lem address false [] (i2c_start sda scl delay t).1 (start_lem t) in
      let all =
        send_all_lem buffer (true ∷ clocked 8 address [])
          (i2c_send_byte hw sda scl address delay (i2c_start sda scl delay t).1).1 first in
      elim (Bool-cases (stop == 0)) [
        | inl e ↦ rw e (all.bits_are, all.no_stop)
        | inr e ↦ rw e (
            stop_lem (frame (address ∷ buffer) [])
              (send_all hw sda scl buffer delay
                (i2c_send_byte hw sda scl address delay (i2c_start sda scl delay t).1).1).1
              all)
      ]
