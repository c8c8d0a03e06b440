-- ===== src/Hardware/Wires.antt =====
-- What a device sees on its wires: the levels that the writes to port A put there.
use not.Prelude.{
  ℕ, zero, suc, length, ◌+◌, ◌^◌, ◌==◌, ◌≡◌, ◌≢◌, refl, arith, if◌then◌else◌, Bool, true, false,
  List, ◌∷◌, bit, bit-pow_self, bit-pow_ne,
}
use not.Hardware.{Port, gpio_a, Event, bshr, bcr}

-- The level of a pin of port A after an event.
abbrev pub line : ℕ → Event → Bool → Bool
line pin (Event.bshr Port.gpio_a v) old = if bit v pin == 0 then old else true
line pin (Event.bcr Port.gpio_a v) old = if bit v pin == 0 then old else false
line pin e old = old

-- The level changes to the level `edge`.
abbrev pub edge_seen : Bool → Bool → Bool → Bool
edge_seen true false true = true
edge_seen false true false = true
edge_seen edge old new = false

pub edge_seen_same : (edge b : Bool) → edge_seen edge b b ≡ false
edge_seen_same true true = refl
edge_seen_same true false = refl
edge_seen_same false true = refl
edge_seen_same false false = refl

-- The bits of a byte from bit `n - 1` down to bit 0, the last one first, before earlier ones.
abbrev pub clocked : ℕ → ℕ → List Bool → List Bool
clocked zero x acc = acc
clocked (suc n) x acc = clocked n x ((bit x n == 1) ∷ acc)

pub length-clocked : (n x : ℕ) (acc : List Bool) → length (clocked n x acc) ≡ n + length acc
length-clocked zero x acc = omega arith
length-clocked (suc n) x acc = omega (arith, length-clocked n x ((bit x n == 1) ∷ acc))

pub line-bshr : (pin : ℕ) (b : Bool) → line pin (bshr gpio_a (2 ^ pin)) b ≡ true
line-bshr pin b = ground (arith, bit-pow_self pin)

pub line-bcr : (pin : ℕ) (b : Bool) → line pin (bcr gpio_a (2 ^ pin)) b ≡ false
line-bcr pin b = ground (arith, bit-pow_self pin)

pub line-bshr_ne : (pin s : ℕ) (b : Bool) → pin ≢ s → line pin (bshr gpio_a (2 ^ s)) b ≡ b
line-bshr_ne pin s b h = ground (arith, bit-pow_ne s pin h)

pub line-bcr_ne : (pin s : ℕ) (b : Bool) → pin ≢ s → line pin (bcr gpio_a (2 ^ s)) b ≡ b
line-bcr_ne pin s b h = ground (arith, bit-pow_ne s pin h)
