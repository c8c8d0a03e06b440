-- ===== src/OneWire/Slots.antt =====
-- The slots of one_wire.c as a device on the bus takes them.
use native.Mathlib.Nat.{one-le-pow}
use not.Prelude.{
  ℕ, ◌+◌, ◌*◌, ◌^◌, ◌≡◌, refl, ap, ap₂, ◌∙◌, arith, leb, ◌==◌, ◌&&◌, if◌then◌else◌, Bool, true,
  false, List, [], ◌∷◌, ◌++◌, bit, bit-pow_self, bit_and, bit_and-pow, to_bit, negate,
}
use not.Hardware.{Port, gpio_a, Event, bshr, bcr, delay_us, Trace, Hw}
use not.OneWire.{one_wire_write0, one_wire_write1, one_wire_reset, one_wire_read}

-- What a low pulse of the master is to a device, by its length: 480 us or more are a reset, 15 us or less
-- start a slot for a 1 or for a read, and 60 us to 120 us are a slot for a 0.
pub data Slot : Type 0 where
  reset zero_slot short_slot bad : Slot

abbrev pub slot_of : ℕ → Slot
slot_of n =
    if leb 480 n
    then reset
    else if leb n 15
    then short_slot
    else if leb 60 n && leb n 120
    then zero_slot
    else bad

-- Whether the master holds the bus low; the time since it fell or rose, and since it fell; the slots so
-- far, the last one first.
pub record Bus : Type 0 where
  pub low : Bool
  pub since : ℕ
  pub elapsed : ℕ
  pub slots : List Slot

-- What the host asks for, one request for each.
pub data Op : Type 0 where
  write_0 write_1 read_bit reset_bus : Op

module _ (pin : ℕ) where
  unfoldable pub drives : ℕ → Bool
  drives v = bit v pin == 1

  abbrev seen : Event → Bus → Bus
  seen (bcr Port.gpio_a v) b =
      if drives v && negate b.low
      then record { low = true; since = 0; elapsed = 0; slots = b.slots }
      else b
  seen (bshr Port.gpio_a v) b =
      if drives v && b.low
      then record { low = false; since = 0; elapsed = b.elapsed; slots = slot_of b.since ∷ b.slots }
      else b
  seen (delay_us n) b = record b { since = b.since + n; elapsed = b.elapsed + n }
  seen e b = b

  abbrev pub bus : Trace → Bus
  bus [] = record { low = false; since = 0; elapsed = 0; slots = [] }
  bus (e ∷ t) = seen e (bus t)

-- When a device is sure to hold its answer on the bus: for 15 us since the bus fell in a read slot,
-- and from 60 us to 75 us after a reset.
abbrev pub window : List Slot → ℕ → ℕ → Bool
window (Slot.reset ∷ slots) since elapsed = leb 60 since && leb since 75
window (Slot.short_slot ∷ slots) since elapsed = leb elapsed 15
window slots since elapsed = false

-- The device: `answer` says for the slots so far whether it leaves the bus high in the window.
abbrev pub Answers : ℕ → Hw → (List Slot → Bool) → Type 0
Answers pin hw answer =
    (t : Trace)
    → (bus pin t).low ≡ false
    → window (bus pin t).slots (bus pin t).since (bus pin t).elapsed ≡ true
    → bit (hw.read_indr gpio_a t) pin ≡ to_bit (answer (bus pin t).slots)

-- One request, and the bits that the host gets for it.
abbrev pub perform : Hw → ℕ → Op → Trace → List ℕ × Trace
perform hw mask write_0 t = ([], (one_wire_write0 mask t).1)
perform hw mask write_1 t = ([], (one_wire_write1 mask t).1)
perform hw mask read_bit t = let (b, t') = one_wire_read hw mask t in (b ∷ [], t')
perform hw mask reset_bus t = let (b, t') = one_wire_reset hw mask t in (b ∷ [], t')

abbrev pub perform_all : Hw → ℕ → List Op → Trace → List ℕ × Trace
perform_all hw mask [] t = ([], t)
perform_all hw mask (op ∷ ops) t =
    let (bits, t') = perform hw mask op t in
    let (more, t'') = perform_all hw mask ops t' in (bits ++ more, t'')

-- What a device is to take for a request, and what the host is to get.
abbrev pub slot_for : Op → Slot
slot_for write_0 = zero_slot
slot_for write_1 = short_slot
slot_for read_bit = short_slot
slot_for reset_bus = reset

abbrev pub bits_for : (List Slot → Bool) → Op → List Slot → List ℕ
bits_for answer read_bit slots = to_bit (answer slots) ∷ []
bits_for answer reset_bus slots = to_bit (negate (answer slots)) ∷ []
bits_for answer op slots = []

abbrev pub slots_for : List Op → List Slot → List Slot
slots_for [] slots = slots
slots_for (op ∷ ops) slots = slots_for ops (slot_for op ∷ slots)

abbrev pub all_bits_for : (List Slot → Bool) → List Op → List Slot → List ℕ
all_bits_for answer [] slots = []
all_bits_for answer (op ∷ ops) slots =
    bits_for answer op (slot_for op ∷ slots) ++ all_bits_for answer ops (slot_for op ∷ slots)

negate-negate : (b : Bool) → negate (negate b) ≡ b
negate-negate true = refl
negate-negate false = refl

module _ (pin : ℕ) (hw : Hw) (answer : List Slot → Bool) (device : Answers pin hw answer) where
  driven : drives pin (2 ^ pin) ≡ true
  unfolding drives
  driven = ground (arith, bit-pow_self pin)

  test_lem : (x : ℕ) (b : Bool) → bit x pin ≡ to_bit b → (bit_and x (2 ^ pin) == 0) ≡ negate b
  test_lem x true e =
      let set : bit x pin * 2 ^ pin ≡ 1 * 2 ^ pin = ap (λ (n : ℕ). n * 2 ^ pin) e in
      ground (arith, bit_and-pow x pin, set, one-le-pow pin 2)
  test_lem x false e =
      let clear : bit x pin * 2 ^ pin ≡ 0 * 2 ^ pin = ap (λ (n : ℕ). n * 2 ^ pin) e in
      ground (arith, bit_and-pow x pin, clear)

  -- One request: the bus is released, the device has taken the slot, and the host has its bits.
  abbrev Done : Op → Trace → Type 0
  Done op t =
      let r = perform hw (2 ^ pin) op t in
      let slots = slot_for op ∷ (bus pin t).slots in
      ((bus pin r.1).low ≡ false) × ((bus pin r.1).slots ≡ slots) × (r.0 ≡ bits_for answer op slots)

  write_0-Done : (t : Trace) → (bus pin t).low ≡ false → Done write_0 t
  unfolding one_wire_write0
  write_0-Done t idle = rw (driven, idle) (refl, refl, refl)

  write_1-Done : (t : Trace) → (bus pin t).low ≡ false → Done write_1 t
  unfolding one_wire_write1
  write_1-Done t idle = rw (driven, idle) (refl, refl, refl)

  -- Where the host looks at the bus in a read slot, and after a reset.
  abbrev read_point : Trace → Trace
  read_point t = delay_us 9 ∷ bshr gpio_a (2 ^ pin) ∷ delay_us 6 ∷ bcr gpio_a (2 ^ pin) ∷ t

  abbrev presence_point : Trace → Trace
  presence_point t =
      delay_us 70 ∷ bshr gpio_a (2 ^ pin) ∷ delay_us 480 ∷ bcr gpio_a (2 ^ pin) ∷ delay_us 0 ∷ t

  read_lem :
      (t : Trace)
      → (bus pin t).low ≡ false
      → (bus pin (read_point t)
          ≡ record { low = false; since = 9; elapsed = 15; slots = short_slot ∷ (bus pin t).slots })
  read_lem t idle = rw (driven, idle) refl

  presence_lem :
      (t : Trace)
      → (bus pin t).low ≡ false
      → bus pin (presence_point t)
        ≡ record { low = false; since = 70; elapsed = 550; slots = reset ∷ (bus pin t).slots }
  presence_lem t idle = rw (driven, idle) refl

  -- What the port shows at such a point, when the bus is as `b` says.
  sampled :
      (t : Trace) (b : Bus)
      → bus pin t ≡ b
      → b.low ≡ false
      → window b.slots b.since b.elapsed ≡ true
      → (bit_and (hw.read_indr gpio_a t) (2 ^ pin) == 0) ≡ negate (answer b.slots)
  sampled t b e idle sure =
      let shown =
        device t (ap (λ x. x.low) e ∙ idle) (ap (λ x. window x.slots x.since x.elapsed) e ∙ sure) in
      test_lem (hw.read_indr gpio_a t) (answer b.slots)
        (shown ∙ ap (λ x. to_bit (answer x.slots)) e)

  read_bit-Done : (t : Trace) → (bus pin t).low ≡ false → Done read_bit t
  unfolding one_wire_read
  read_bit-Done t idle =
      let slots = (bus pin t).slots in
      let b : Bus = record { low = false; since = 9; elapsed = 15; slots = short_slot ∷ slots } in
      let shown = sampled (read_point t) b (read_lem t idle) refl refl in
      (
        rw (driven, idle) refl,
        rw (driven, idle) refl,
        ap (λ x. to_bit (negate x) ∷ []) shown
            ∙ ap (λ x. to_bit x ∷ []) (negate-negate (answer b.slots)),
      )

  reset_bus-Done : (t : Trace) → (bus pin t).low ≡ false → Done reset_bus t
  unfolding one_wire_reset
  reset_bus-Done t idle =
      let slots = (bus pin t).slots in
      let b : Bus = record { low = false; since = 70; elapsed = 550; slots = reset ∷ slots } in
      let shown = sampled (presence_point t) b (presence_lem t idle) refl refl in
      (rw (driven, idle) refl, rw (driven, idle) refl, ap (λ x. to_bit x ∷ []) shown)

  op-Done : (op : Op) (t : Trace) → (bus pin t).low ≡ false → Done op t
  op-Done write_0 t idle = write_0-Done t idle
  op-Done write_1 t idle = write_1-Done t idle
  op-Done read_bit t idle = read_bit-Done t idle
  op-Done reset_bus t idle = reset_bus-Done t idle

  -- Whatever resets, writes and reads of single bits the host asks for, in any order, a device on the
  -- bus takes each of them for what it is: a reset, a slot for a 0, or a slot for a 1 or a read; and
  -- the host gets the bits that the device answers in its read slots, and 1 for a reset where
  -- the device pulls the bus low. The bus is idle at first, and the device holds its answer
  -- for 15 us since the start of a read slot and from 60 us to 75 us after a reset.
  pub perform_all_lem :
      (ops : List Op) (t : Trace)
      → (bus pin t).low ≡ false
      → let (bits, t') = perform_all hw (2 ^ pin) ops t in
        ((bus pin t').low ≡ false)
        × ((bus pin t').slots ≡ slots_for ops (bus pin t).slots)
        × (bits ≡ all_bits_for answer ops (bus pin t).slots)
  perform_all_lem [] t idle = (idle, refl, refl)
  perform_all_lem (op ∷ ops) t idle =
      let (low, slots, got) = op-Done op t idle in
      let t' = (perform hw (2 ^ pin) op t).1 in
      let (low', slots', got') = perform_all_lem ops t' low in
      (
        low',
        slots' ∙ ap (slots_for ops) slots,
        ap₂ ◌++◌ got (got' ∙ ap (all_bits_for answer ops) slots),
      )
