-- ===== src/Vm/Shift.antt =====
-- The instructions of execute.c that shift a register through a pin or copy registers.
use not.Prelude.{to_bit, ℕ, ◌*◌, ◌/◌, ◌^◌, ◌==◌, if◌then◌else◌, bit_and, bit_or, List, ◌∷◌}
use not.Hardware.{gpio_a, bshr, bcr, outdr, Trace, Hw, pin_is_high, read_port, pin_mask, u8}
use not.Vm.State.{Vm, Result, ok, ◌>>=◌, load, store, operand_x, operand_y, advance}

-- `if (value) BSHR = 1 << pin; else BCR = 1 << pin;`
abbrev pub drive_pin : ℕ → ℕ → Trace → Trace
drive_pin pin value t =
    if value == 0 then bcr gpio_a (pin_mask pin) ∷ t else bshr gpio_a (pin_mask pin) ∷ t

-- `registers[reg] <<= 1; registers[reg] |= bit;`
unfoldable pub shift_in_left : ℕ → ℕ → ℕ
shift_in_left r bit = u8 (bit_or (u8 (r * 2)) bit)

-- `registers[reg] >>= 1; registers[reg] |= bit << 7;`
unfoldable pub shift_in_right : ℕ → ℕ → ℕ
shift_in_right r bit = u8 (bit_or (r / 2) (bit * 2 ^ 7))

-- `(OUTDR & 0xFFFFFFF0) | (registers[reg] & 0xFF)`.
unfoldable pub bank_a_value : ℕ → ℕ → ℕ
bank_a_value old r = bit_or (bit_and old 0xFFFFFFF0) (bit_and r 0xFF)

-- `(OUTDR & 0xFFFFFF0F) | ((registers[reg] & 0xFF) << 8)`.
unfoldable pub bank_d_value : ℕ → ℕ → ℕ
bank_d_value old r = bit_or (bit_and old 0xFFFFFF0F) (bit_and r 0xFF * 2 ^ 8)

module _ (hw : Hw) where
  -- SHIFT_LEFT_IN_PIN_X_TO_REG_Y.
  unfoldable pub exec_shift_left_in : List ℕ → Vm → Result Vm
  exec_shift_left_in code s = do
    pin_number ← operand_x code s
    reg ← operand_y code s
    let (high, t) = pin_is_high hw gpio_a pin_number s.trace
    r ← load s.registers reg
    registers ← store s.registers reg (shift_in_left r (to_bit high))
    ok (advance (record s { registers = registers }) t)

  -- SHIFT_RIGHT_IN_PIN_X_TO_REG_Y.
  unfoldable pub exec_shift_right_in : List ℕ → Vm → Result Vm
  exec_shift_right_in code s = do
    pin_number ← operand_x code s
    reg ← operand_y code s
    let (high, t) = pin_is_high hw gpio_a pin_number s.trace
    r ← load s.registers reg
    registers ← store s.registers reg (shift_in_right r (to_bit high))
    ok (advance (record s { registers = registers }) t)

  -- WRITE_BANK_A_REG_X.
  unfoldable pub exec_write_bank_a : List ℕ → Vm → Result Vm
  exec_write_bank_a code s = do
    reg ← operand_x code s
    r ← load s.registers reg
    ok (advance s (outdr gpio_a (bank_a_value (hw.read_outdr gpio_a s.trace) r) ∷ s.trace))

  -- WRITE_BANK_D_REG_X.
  unfoldable pub exec_write_bank_d : List ℕ → Vm → Result Vm
  exec_write_bank_d code s = do
    reg ← operand_x code s
    r ← load s.registers reg
    ok (advance s (outdr gpio_a (bank_d_value (hw.read_outdr gpio_a s.trace) r) ∷ s.trace))

  -- READ_BANK_A_REG_X.
  unfoldable pub exec_read_bank_a : List ℕ → Vm → Result Vm
  exec_read_bank_a code s = do
    reg ← operand_x code s
    let (value, t) = read_port hw gpio_a s.trace
    registers ← store s.registers reg (u8 (bit_and value 0xFF))
    ok (advance (record s { registers = registers }) t)

  -- READ_BANK_D_REG_X.
  unfoldable pub exec_read_bank_d : List ℕ → Vm → Result Vm
  exec_read_bank_d code s = do
    reg ← operand_x code s
    let (value, t) = read_port hw gpio_a s.trace
    registers ← store s.registers reg (u8 (bit_and (value / 2 ^ 8) 0xFF))
    ok (advance (record s { registers = registers }) t)

-- SHIFT_RIGHT_OUT_PIN_X_FROM_REG_Y.
unfoldable pub exec_shift_right_out : List ℕ → Vm → Result Vm
exec_shift_right_out code s = do
  pin_number ← operand_x code s
  reg ← operand_y code s
  r ← load s.registers reg
  registers ← store s.registers reg (r / 2)
  ok (advance (record s { registers = registers }) (drive_pin pin_number (bit_and r 1) s.trace))

-- SHIFT_LEFT_OUT_PIN_X_FROM_REG_Y.
unfoldable pub exec_shift_left_out : List ℕ → Vm → Result Vm
exec_shift_left_out code s = do
  pin_number ← operand_x code s
  reg ← operand_y code s
  r ← load s.registers reg
  registers ← store s.registers reg (u8 (r * 2))
  ok (advance (record s { registers = registers }) (drive_pin pin_number (bit_and r 0x80) s.trace))

-- ASSIGN_REG_X_VALUEOF_REG_Y.
unfoldable pub exec_assign : List ℕ → Vm → Result Vm
exec_assign code s = do
  destination_reg ← operand_x code s
  source_reg ← operand_y code s
  value ← load s.registers source_reg
  registers ← store s.registers destination_reg value
  ok (advance (record s { registers = registers }) s.trace)
