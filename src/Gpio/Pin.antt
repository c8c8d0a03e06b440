-- ===== src/Gpio/Pin.antt =====
-- What `gpio_init_pin` of gpio.c does to the port of a pin, for each of the 20 pins.
use not.Prelude.{
  ℕ, ◌+◌, ◌-◌, ◌*◌, ◌^◌, ◌%◌, ◌≤◌, ◌<◌, ◌≡◌, ◌⊎◌, refl, arith, bit, ltb, leb, if◌then◌else◌, Bool,
  true, false, Bool-cases, inl, inr, holds_below, holds_below_sound, ◌∷◌,
}
use not.Hardware.{Port, cfglr, cfghr, Trace, Hw, u16}
use not.Gpio.Config.{put_nibble_inside, put_nibble_outside}
use not.Gpio.{config_nibble, put_nibble, gpio_base_init_pins, gpio_init_pin, mode_ipu, mode_ipd}

-- The configuration register of a pin: pins 0-7 are in the low one.
abbrev pub config_register : Hw → Port → ℕ → Trace → ℕ
config_register hw gpio number t =
    if ltb number 8 then hw.read_cfglr gpio t else hw.read_cfghr gpio t

-- `t'` is `t` and one write to the configuration register of the pin, which gives the pin the
-- four bits of the mode and every other pin the bits that it had.
pub record IsConfigured (hw : Hw) (gpio : Port) (number mode : ℕ) (t t' : Trace) : Type 0 where
  pub value : ℕ
  pub written : t' ≡ (if ltb number 8 then cfglr gpio value else cfghr gpio value) ∷ t
  pub mode_bits : (j : ℕ) → j < 4 → bit value (number % 8 * 4 + j) ≡ bit (config_nibble mode) j
  pub other_bits :
      (k : ℕ)
      → k < 32
      → (k < number % 8 * 4) ⊎ (number % 8 * 4 + 4 ≤ k)
      → bit value k ≡ bit (config_register hw gpio number t) k

bool_eq : Bool → Bool → Bool
bool_eq true b = b
bool_eq false true = false
bool_eq false false = true

bool_eq_sound : (a b : Bool) → bool_eq a b ≡ true → a ≡ b
unfolding bool_eq
bool_eq_sound a b = ground arith

high_mask_table : holds_below 16 (λ p. bool_eq (ltb 0xFF (u16 (2 ^ p))) (leb 8 p)) ≡ true
unfolding holds_below bool_eq
high_mask_table = refl

high_mask : (p : ℕ) → p < 16 → ltb 0xFF (u16 (2 ^ p)) ≡ leb 8 p
high_mask p h = bool_eq_sound _ _ (holds_below_sound 16 _ p h high_mask_table)

nibble_table : holds_below 256 (λ m. ltb (config_nibble m) 16) ≡ true
unfolding holds_below config_nibble
nibble_table = refl

config_nibble-lt : (m : ℕ) → m < 256 → config_nibble m < 16
config_nibble-lt m h =
    let test : ltb (config_nibble m) 16 ≡ true = holds_below_sound 256 _ m h nibble_table in
    ground arith

write_of :
    (hw : Hw) (gpio : Port) (number mode : ℕ) (t : Trace)
    → number < 16
    → let value =
        put_nibble (config_register hw gpio number t) (number % 8 * 4) (config_nibble mode) in
      gpio_base_init_pins hw gpio number mode t
      ≡ (if ltb number 8 then cfglr gpio value else cfghr gpio value) ∷ t
unfolding gpio_base_init_pins
write_of hw gpio number mode t small = elim (Bool-cases (ltb number 8)) [
  | inl low ↦
      let same : number % 8 ≡ number = ground arith in
      let test : leb 8 number ≡ false = ground arith in
      rw (high_mask number small) (rw (test, low, same) refl)
  | inr high ↦
      let same : number % 8 ≡ number - 8 = ground arith in
      let test : leb 8 number ≡ true = ground arith in
      rw (high_mask number small) (rw (test, high, same) refl)
]

-- Configuring pin `number` of a port writes one register once: the pin gets the four bits of the
-- mode, and no other pin of the port changes.
pub gpio_base_init_pins-IsConfigured :
    (hw : Hw) (gpio : Port) (number mode : ℕ) (t : Trace)
    → number < 16
    → mode < 256
    → IsConfigured hw gpio number mode t (gpio_base_init_pins hw gpio number mode t)
gpio_base_init_pins-IsConfigured hw gpio number mode t small byte =
    let old = config_register hw gpio number t in
    let pos = number % 8 * 4 in
    let nib = config_nibble mode in
    let place : pos ≤ 28 = omega arith in
    let fits = config_nibble-lt mode byte in
    record {
      value = put_nibble old pos nib;
      written = write_of hw gpio number mode t small;
      mode_bits = put_nibble_inside old pos nib place fits;
      other_bits = put_nibble_outside old pos nib place fits;
    }

-- Pull-up and pull-down configure a pin alike: the code never selects the direction of the pull.
pub gpio_init_pin_pull :
    (hw : Hw) (pin : ℕ) (t : Trace)
    → gpio_init_pin hw pin mode_ipu t ≡ gpio_init_pin hw pin mode_ipd t
unfolding gpio_init_pin gpio_base_init_pins config_nibble
gpio_init_pin_pull hw pin t = refl
