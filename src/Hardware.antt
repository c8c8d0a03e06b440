-- ===== src/Hardware.antt =====
-- The chip as the firmware sees it: a history of accesses, newest first, and what a read of a
-- register answers after a history. The answers are parameters: they come from the pins, from the
-- timers and from the peripheral registers of the CH32V203, which no source line defines.
pub mod Levels
pub mod Wires
use not.Prelude.{ℕ, ◌^◌, ◌%◌, Bool, List, ◌∷◌, zero, suc, ◌==◌, negate, bit_and}

pub data Port : Type 0 where
  gpio_a gpio_b : Port

-- One access: a register write with its value, a read of the input register, a wait.
pub data Event : Type 0 where
  bshr bcr outdr cfglr cfghr : Port → ℕ → Event
  sample : Port → Event
  nop : Event
  delay_us delay_ms delay_ticks timer_start : ℕ → Event
  timer_poll timer_reset : Event
  compare_write : ℕ → ℕ → ℕ → Event
  adc_channel : ℕ → ℕ → Event
  adc_start adc_poll adc_clear : Event
  tkey_ctlr1 tkey_idatar1 tkey_rdatar : ℕ → Event
  exti_source exti_enable exti_disable exti_clear nvic_enable : ℕ → Event
  tim4_start tim4_stop : Event

abbrev pub Trace : Type 0
Trace = List Event

-- What a read answers after a history.
pub record Hw : Type 0 where
  pub read_indr : Port → Trace → ℕ
  pub read_outdr : Port → Trace → ℕ
  pub read_cfglr : Port → Trace → ℕ
  pub read_cfghr : Port → Trace → ℕ
  pub timed_out : Trace → Bool

abbrev pub u8 : ℕ → ℕ
u8 x = x % 2 ^ 8

abbrev pub u16 : ℕ → ℕ
u16 x = x % 2 ^ 16

abbrev pub u32 : ℕ → ℕ
u32 x = x % 2 ^ 32

-- A routine that drives the pins.
abbrev pub Dev : Type 0 → Type 0
Dev A = Trace → A × Trace

infixl 5 ◌>>=◌ ◌>>◌
abbrev pub ◌>>=◌ : {A B : Type 0} → Dev A → (A → Dev B) → Dev B
◌>>=◌ m f t = let r = m t in f r.0 r.1

abbrev pub ◌>>◌ : {A B : Type 0} → Dev A → Dev B → Dev B
◌>>◌ m k t = k (m t).1

abbrev pub pure : {A : Type 0} → A → Dev A
pure a t = (a, t)

abbrev pub emit : Event → Dev (Unit {0})
emit e t = (tt, e ∷ t)

-- `1 << pin`. A shift by 32 or more is undefined in C; here it gives 0.
abbrev pub pin_mask : ℕ → ℕ
pin_mask pin = u32 (2 ^ pin)

-- `while (n--) __NOP();`
unfoldable pub delay_nops : ℕ → Dev (Unit {0})
delay_nops zero = pure tt
delay_nops (suc n) = do emit nop; delay_nops n

module _ (hw : Hw) where
  -- A read of `INDR`.
  abbrev pub read_port : Port → Dev ℕ
  read_port p t = (hw.read_indr p t, sample p ∷ t)

  -- `(INDR & (1 << pin)) != Bit_RESET`.
  abbrev pub pin_is_high : Port → ℕ → Dev Bool
  pin_is_high p pin t = (negate (bit_and (hw.read_indr p t) (pin_mask pin) == 0), sample p ∷ t)

  -- `has_timer_timeout()`.
  abbrev pub poll_timer : Dev Bool
  poll_timer t = (hw.timed_out t, timer_poll ∷ t)
