-- ===== src/Gpio.antt =====
-- User/Features/src/gpio.c: the pin table and the configuration of one pin.
pub mod Config
pub mod Pin
mod Tests
use not.Prelude.{
  ℕ, zero, suc, ◌+◌, ◌-◌, ◌*◌, ◌^◌, ◌%◌, bit_and, bit_or, ltb, ◌==◌, if◌then◌else◌, Option, none,
  some, List, [], ◌∷◌, get_elem?, Bool, true, false, negate,
}
use not.Hardware.{
  Port, gpio_a, gpio_b, Event, bshr, bcr, cfglr, cfghr, sample, Trace, Hw, pin_mask, u8, u16, u32,
}

-- `GPIOMode_TypeDef`.
abbrev pub mode_ain : ℕ
mode_ain = 0x0

abbrev pub mode_in_floating : ℕ
mode_in_floating = 0x04

abbrev pub mode_ipd : ℕ
mode_ipd = 0x28

abbrev pub mode_ipu : ℕ
mode_ipu = 0x48

abbrev pub mode_out_od : ℕ
mode_out_od = 0x14

abbrev pub mode_out_pp : ℕ
mode_out_pp = 0x10

abbrev pub mode_af_pp : ℕ
mode_af_pp = 0x18

-- `GPIO_Speed_50MHz`.
abbrev pub speed_50_mhz : ℕ
speed_50_mhz = 3

-- The two tables, entry by entry.
abbrev pub pin_table : List (Port × ℕ)
pin_table =
    (gpio_a, 0)
    ∷ (gpio_a, 1)
    ∷ (gpio_a, 2)
    ∷ (gpio_a, 3)
    ∷ (gpio_a, 4)
    ∷ (gpio_a, 5)
    ∷ (gpio_a, 6)
    ∷ (gpio_a, 7)
    ∷ (gpio_a, 8)
    ∷ (gpio_a, 9)
    ∷ (gpio_a, 10)
    ∷ (gpio_a, 11)
    ∷ (gpio_a, 12)
    ∷ (gpio_a, 13)
    ∷ (gpio_a, 14)
    ∷ (gpio_a, 15)
    ∷ (gpio_b, 0)
    ∷ (gpio_b, 1)
    ∷ (gpio_b, 14)
    ∷ (gpio_b, 15)
    ∷ []

-- The four bits that a mode puts into a configuration register.
unfoldable pub config_nibble : ℕ → ℕ
config_nibble mode =
    let currentmode = bit_and mode 0x0F in
    if negate (bit_and mode 0x10 == 0) then bit_or currentmode speed_50_mhz else currentmode

-- The new value of a configuration register.
unfoldable pub put_nibble : ℕ → ℕ → ℕ → ℕ
put_nibble tmpreg pos currentmode =
    let pinmask = u32 (0x0F * 2 ^ pos) in
    bit_or (bit_and tmpreg (2 ^ 32 - 1 - pinmask)) (u32 (currentmode * 2 ^ pos))

module _ (hw : Hw) where
  -- `pin` is below 16 in every call, so `pin - 8` under the first test does not wrap.
  unfoldable pub gpio_base_init_pins : Port → ℕ → ℕ → Trace → Trace
  gpio_base_init_pins gpio pin mode t =
      let mask = u16 (2 ^ pin) in
      let currentmode = config_nibble mode in
      if ltb 0x00FF mask
      then cfghr gpio (put_nibble (hw.read_cfghr gpio t) ((pin - 8) * 4) currentmode) ∷ t
      else cfglr gpio (put_nibble (hw.read_cfglr gpio t) (pin * 4) currentmode) ∷ t

  -- `none`: the tables are read out of bounds.
  unfoldable pub gpio_init_pin : ℕ → ℕ → Trace → Option Trace
  gpio_init_pin pin mode t = elim (get_elem? pin_table pin) [
    | none ↦ none
    | some (gpio, number) ↦ some (gpio_base_init_pins gpio number mode t)
  ]

  -- The loop over the pins, from `i` on with `left` rounds to go.
  unfoldable pub init_floating : ℕ → ℕ → Trace → Option Trace
  init_floating zero i t = some t
  init_floating (suc left) i t = elim (gpio_init_pin i mode_in_floating t) [
    | none ↦ none
    | some t' ↦ init_floating left (i + 1) t'
  ]

  unfoldable pub gpio_init_default : Trace → Option Trace
  gpio_init_default t = elim (init_floating 20 0 t) [
    | none ↦ none
    | some t' ↦ some (gpio_base_init_pins gpio_b 3 mode_out_pp t')
  ]

  unfoldable pub gpio_read_pin : ℕ → Trace → Option (Bool × Trace)
  gpio_read_pin pin t = elim (get_elem? pin_table pin) [
    | none ↦ none
    | some (gpio, number) ↦
        some (negate (bit_and (hw.read_indr gpio t) (pin_mask number) == 0), sample gpio ∷ t)
  ]

unfoldable pub gpio_set_pin : ℕ → Trace → Option Trace
gpio_set_pin pin t = elim (get_elem? pin_table pin) [
  | none ↦ none
  | some (gpio, number) ↦ some (bshr gpio (pin_mask number) ∷ t)
]

unfoldable pub gpio_clear_pin : ℕ → Trace → Option Trace
gpio_clear_pin pin t = elim (get_elem? pin_table pin) [
  | none ↦ none
  | some (gpio, number) ↦ some (bcr gpio (pin_mask number) ∷ t)
]
