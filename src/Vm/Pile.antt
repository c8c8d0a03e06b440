-- ===== src/Vm/Pile.antt =====
-- The pile instructions of execute.c: bits pushed on pile R and popped from pile T.
pub mod Bits
use not.Prelude.{ℕ, ◌+◌, ◌-◌, ◌*◌, ◌/◌, ◌%◌, ◌^◌, if◌then◌else◌, bit_and, bit_or, Bool, List}
use not.Hardware.{gpio_a, Hw, pin_is_high, u8, u32}
use not.Vm.State.{Vm, Result, ok, ◌>>=◌, load, store, operand_x, advance, pile_size}
use not.Vm.Shift.{drive_pin}

-- `PILE_SIZE * 8 - 1 - n` in `uint32_t`: the bit that is `n` from the top.
abbrev pub from_top : ℕ → ℕ
from_top n = u32 (2 ^ 32 + (pile_size * 8 - 1) - n)

-- `*tp -= 1` in `uint32_t`.
abbrev pub one_less : ℕ → ℕ
one_less n = u32 (n + 2 ^ 32 - 1)

-- `mask = 1u << bit; if (read) lipo[byte] |= mask; else lipo[byte] &= ~mask;`
unfoldable pub write_bit : ℕ → ℕ → Bool → ℕ
write_bit b place read =
    let mask = u8 (2 ^ place) in
    if read then u8 (bit_or b mask) else u8 (bit_and b (2 ^ 8 - 1 - mask))

unfoldable pub put_bit : List ℕ → ℕ → Bool → Result (List ℕ)
put_bit lipo index read = do
  b ← load lipo (index / 8)
  store lipo (index / 8) (write_bit b (index % 8) read)

-- `lipo[byte] & (1 << bit)`.
unfoldable pub get_bit : List ℕ → ℕ → Result ℕ
get_bit lipo index = do b ← load lipo (index / 8); ok (bit_and b (2 ^ (index % 8)))

module _ (hw : Hw) where
  -- PUSH_UP_PILE_R_FROM_PIN_X.
  unfoldable pub exec_push_up : List ℕ → Vm → Result Vm
  exec_push_up code s = do
    pin_number ← operand_x code s
    let (read, t) = pin_is_high hw gpio_a pin_number s.trace
    pile_r ← put_bit s.pile_r s.rp read
    ok (advance (record s { pile_r = pile_r; rp = u32 (s.rp + 1) }) t)

  -- PUSH_DOWN_PILE_R_FROM_PIN_X.
  unfoldable pub exec_push_down : List ℕ → Vm → Result Vm
  exec_push_down code s = do
    pin_number ← operand_x code s
    let (read, t) = pin_is_high hw gpio_a pin_number s.trace
    pile_r ← put_bit s.pile_r (from_top s.rp) read
    ok (advance (record s { pile_r = pile_r; rp = u32 (s.rp + 1) }) t)

-- POP_UP_PILE_T_INTO_PIN_X.
unfoldable pub exec_pop_up : List ℕ → Vm → Result Vm
exec_pop_up code s = do
  pin_number ← operand_x code s
  let tp = one_less s.tp
  write ← get_bit s.pile_t tp
  ok (advance (record s { tp = tp }) (drive_pin pin_number write s.trace))

-- POP_DOWN_PILE_T_INTO_PIN_X.
unfoldable pub exec_pop_down : List ℕ → Vm → Result Vm
exec_pop_down code s = do
  pin_number ← operand_x code s
  let tp = one_less s.tp
  write ← get_bit s.pile_t (from_top tp)
  ok (advance (record s { tp = tp }) (drive_pin pin_number write s.trace))
