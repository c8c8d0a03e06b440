-- ===== src/I2c/Bus.antt =====
-- What a device on the I2C bus sees: the bits since the last START.
use not.Prelude.{
  ℕ, zero, suc, ◌<◌, ◌≡◌, ◌≢◌, refl, sym, ◌∙◌, arith, if◌then◌else◌, Bool, true, false, List, [],
  ◌∷◌, ◌&&◌,
}
use not.Hardware.{Port, gpio_a, Event, bshr, bcr, sample, Trace, delay_nops, pin_mask}
use not.Hardware.Levels.{pin_mask_lem}
use not.Hardware.Wires.{
  line, edge_seen, edge_seen_same, line-bshr, line-bcr, line-bshr_ne, line-bcr_ne,
}

-- The levels that the master puts on SCL and SDA; what the device took since the last START, the
-- newest bit first: the level of SDA at each rise of SCL; and whether a STOP came since then.
pub record Device : Type 0 where
  pub scl : Bool
  pub sda : Bool
  pub bits : List Bool
  pub stopped : Bool

-- SDA falls while SCL is high: a START. It rises then: a STOP. SCL rises: a bit.
abbrev pub taken : Device → Bool → Bool → List Bool
taken d scl' sda' =
    if d.scl && scl' && edge_seen false d.sda sda'
    then []
    else if edge_seen true d.scl scl'
    then d.sda ∷ d.bits
    else d.bits

abbrev pub stop_seen : Device → Bool → Bool → Bool
stop_seen d scl' sda' =
    if d.scl && scl' && edge_seen false d.sda sda'
    then false
    else if d.scl && scl' && edge_seen true d.sda sda'
    then true
    else d.stopped

-- The device after the two levels are set.
abbrev pub sees : Bool → Bool → Device → Device
sees scl' sda' d = record {
  scl = scl';
  sda = sda';
  bits = taken d scl' sda';
  stopped = stop_seen d scl' sda';
}

abbrev pub device : ℕ → ℕ → Device → Trace → Device
device sda scl d [] = d
device sda scl d (e ∷ t) =
    let d' = device sda scl d t in sees (line scl e d'.scl) (line sda e d'.sda) d'

pub quiet : (d : Device) → sees d.scl d.sda d ≡ d
quiet d =
    rw (edge_seen_same false d.sda, edge_seen_same true d.scl, edge_seen_same true d.sda)
      (at_rest d d.scl)
  where
    at_rest :
        (d : Device) (b : Bool)
        → (◌≡◌) {A = Device}
            (record d {
              bits = if b && b && false then [] else d.bits;
              stopped =
                  if b && b && false then false else if b && b && false then true else d.stopped;
            })
            d
    at_rest d true = refl
    at_rest d false = refl

module _ (sda scl : ℕ) (d : Device) (in_sda : sda < 16) (in_scl : scl < 16)
    (apart : sda ≢ scl) where
  abbrev after : Trace → Device
  after t = device sda scl d t

  pub device-sample : (p : Port) (t : Trace) → after (sample p ∷ t) ≡ after t
  device-sample p t = quiet (after t)

  pub device-delay_nops : (n : ℕ) (t : Trace) → after (delay_nops n t).1 ≡ after t
  unfolding delay_nops
  device-delay_nops zero t = refl
  device-delay_nops (suc n) t = device-delay_nops n (Event.nop ∷ t) ∙ quiet (after t)

  pub device-scl_high :
      (t : Trace) → after (bshr gpio_a (pin_mask scl) ∷ t) ≡ sees true (after t).sda (after t)
  device-scl_high t =
      rw
        (
          pin_mask_lem scl (omega arith),
          line-bshr scl (after t).scl,
          line-bshr_ne sda scl (after t).sda apart,
        )
        refl

  pub device-scl_low :
      (t : Trace) → after (bcr gpio_a (pin_mask scl) ∷ t) ≡ sees false (after t).sda (after t)
  device-scl_low t =
      rw
        (
          pin_mask_lem scl (omega arith),
          line-bcr scl (after t).scl,
          line-bcr_ne sda scl (after t).sda apart,
        )
        refl

  pub device-sda_high :
      (t : Trace) → after (bshr gpio_a (pin_mask sda) ∷ t) ≡ sees (after t).scl true (after t)
  device-sda_high t =
      rw
        (
          pin_mask_lem sda (omega arith),
          line-bshr sda (after t).sda,
          line-bshr_ne scl sda (after t).scl (λ q. apart (sym q)),
        )
        refl

  pub device-sda_low :
      (t : Trace) → after (bcr gpio_a (pin_mask sda) ∷ t) ≡ sees (after t).scl false (after t)
  device-sda_low t =
      rw
        (
          pin_mask_lem sda (omega arith),
          line-bcr sda (after t).sda,
          line-bcr_ne scl sda (after t).scl (λ q. apart (sym q)),
        )
        refl
