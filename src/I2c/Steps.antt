-- ===== src/I2c/Steps.antt =====
-- The single steps of i2c.c, for a device that waits with SCL low or with SCL high.
use not.Prelude.{
  ℕ, ◌*◌, ◌^◌, ◌<◌, ◌≡◌, ◌≢◌, refl, sym, subst, ap, arith, Bool, true, false, List, ◌∷◌, bit-zero,
  to_bit, if◌then◌else◌,
}
use not.Hardware.{gpio_a, bshr, bcr, sample, Trace, delay_nops, pin_mask, u32}
use not.I2c.Bus.{
  Device, sees, device, quiet, device-sample, device-delay_nops, device-scl_high, device-scl_low,
  device-sda_high, device-sda_low,
}

-- SCL is low, and the device has these bits and has seen no STOP since the START.
pub record Holds (d : Device) (sda : Bool) (bits : List Bool) : Type 0 where
  pub scl_low : d.scl ≡ false
  pub sda_is : d.sda ≡ sda
  pub bits_are : d.bits ≡ bits
  pub no_stop : d.stopped ≡ false

-- SCL is high since the device took the newest bit.
pub record Raised (d : Device) (sda : Bool) (bits : List Bool) : Type 0 where
  pub scl_high : d.scl ≡ true
  pub sda_stays : d.sda ≡ sda
  pub bits_now : d.bits ≡ bits
  pub running : d.stopped ≡ false

sda-Holds :
    (d : Device) (b was : Bool) (bits : List Bool)
    → Holds d was bits
    → Holds (sees d.scl b d) b bits
sda-Holds d b was bits h =
    rw h.scl_low
      (record { scl_low = refl; sda_is = refl; bits_are = h.bits_are; no_stop = h.no_stop })

raise-Raised :
    (d : Device) (was : Bool) (bits : List Bool)
    → Holds d was bits
    → Raised (sees true d.sda d) was (was ∷ bits)
raise-Raised d was bits h =
    rw (h.scl_low, h.sda_is)
      (record {
        scl_high = refl;
        sda_stays = refl;
        bits_now = ap (λ l. was ∷ l) h.bits_are;
        running = h.no_stop;
      })

again-Raised :
    (d : Device) (bits : List Bool) → Raised d true bits → Raised (sees d.scl true d) true bits
again-Raised d bits h =
    rw (h.scl_high, h.sda_stays)
      (record { scl_high = refl; sda_stays = refl; bits_now = h.bits_now; running = h.running })

lower-Holds :
    (d : Device) (was : Bool) (bits : List Bool)
    → Raised d was bits
    → Holds (sees false d.sda d) was bits
lower-Holds d was bits h =
    rw (h.scl_high, h.sda_stays)
      (record { scl_low = refl; sda_is = refl; bits_are = h.bits_now; no_stop = h.running })

module _ (sda scl delay : ℕ) (d : Device) (in_sda : sda < 16) (in_scl : scl < 16)
    (apart : sda ≢ scl) where
  abbrev at : Trace → Device
  at t = device sda scl d t

  abbrev wait : Trace → Trace
  wait t = (delay_nops delay t).1

  module _ (was : Bool) (bits : List Bool) (t : Trace) where
    pub wait-Holds : Holds (at t) was bits → Holds (at (wait t)) was bits
    wait-Holds h = rw (device-delay_nops sda scl d in_sda in_scl apart delay t) h

    pub release-Holds :
        Holds (at t) was bits → Holds (at (bshr gpio_a (pin_mask sda) ∷ t)) true bits
    release-Holds h =
        rw (device-sda_high sda scl d in_sda in_scl apart t) (sda-Holds (at t) true was bits h)

    pub pull-Holds : Holds (at t) was bits → Holds (at (bcr gpio_a (pin_mask sda) ∷ t)) false bits
    pull-Holds h =
        rw (device-sda_low sda scl d in_sda in_scl apart t) (sda-Holds (at t) false was bits h)

    pub up-Raised :
        Holds (at t) was bits → Raised (at (wait (bshr gpio_a (pin_mask scl) ∷ t))) was (was ∷ bits)
    up-Raised h =
        rw
          (
            device-delay_nops sda scl d in_sda in_scl apart delay (bshr gpio_a (pin_mask scl) ∷ t),
            device-scl_high sda scl d in_sda in_scl apart t,
          )
          (raise-Raised (at t) was bits h)

    pub wait-Raised : Raised (at t) was bits → Raised (at (wait t)) was bits
    wait-Raised h = rw (device-delay_nops sda scl d in_sda in_scl apart delay t) h

    pub sample-Raised : Raised (at t) was bits → Raised (at (sample gpio_a ∷ t)) was bits
    sample-Raised h = rw (device-sample sda scl d in_sda in_scl apart gpio_a t) h

    pub down-Holds :
        Raised (at t) was bits → Holds (at (wait (bcr gpio_a (pin_mask scl) ∷ t))) was bits
    down-Holds h =
        rw
          (
            device-delay_nops sda scl d in_sda in_scl apart delay (bcr gpio_a (pin_mask scl) ∷ t),
            device-scl_low sda scl d in_sda in_scl apart t,
          )
          (lower-Holds (at t) was bits h)

  -- Releasing SDA again while SCL is high does nothing.
  pub release-Raised :
      (bits : List Bool) (t : Trace)
      → Raised (at t) true bits
      → Raised (at (bshr gpio_a (pin_mask sda) ∷ t)) true bits
  release-Raised bits t h =
      rw (device-sda_high sda scl d in_sda in_scl apart t) (again-Raised (at t) bits h)

  -- A write of no bits to the set or the clear register moves no pin.
  set_none : (t : Trace) → at (bshr gpio_a 0 ∷ t) ≡ at t
  set_none t = rw (bit-zero scl, bit-zero sda) (quiet (at t))

  clear_none : (t : Trace) → at (bcr gpio_a 0 ∷ t) ≡ at t
  clear_none t = rw (bit-zero scl, bit-zero sda) (quiet (at t))

  own_bit : u32 (1 * 2 ^ sda) ≡ pin_mask sda
  own_bit = let one : 1 * 2 ^ sda ≡ 2 ^ sda = omega arith in ap u32 one

  no_bit : u32 (0 * 2 ^ sda) ≡ 0
  no_bit = let none : 0 * 2 ^ sda ≡ 0 = omega arith in ap u32 none

  -- The bit of the acknowledgement: SDA is released, pulled down when the master acknowledges, and
  -- released again behind the pulse.
  pub pull_if-Holds :
      (ack : Bool) (bits : List Bool) (t : Trace)
      → Holds (at t) true bits
      → Holds (at (bcr gpio_a (u32 (to_bit ack * 2 ^ sda)) ∷ t)) (if ack then false else true) bits
  pull_if-Holds true bits t h = rw own_bit (pull-Holds true bits t h)
  pull_if-Holds false bits t h = rw no_bit (subst (λ x. Holds x true bits) (sym (clear_none t)) h)

  pub release_if-Holds :
      (ack : Bool) (bits : List Bool) (t : Trace)
      → Holds (at t) (if ack then false else true) bits
      → Holds (at (bshr gpio_a (u32 (to_bit ack * 2 ^ sda)) ∷ t)) true bits
  release_if-Holds true bits t h = rw own_bit (release-Holds false bits t h)
  release_if-Holds false bits t h = rw no_bit (subst (λ x. Holds x true bits) (sym (set_none t)) h)
