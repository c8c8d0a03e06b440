-- ===== src/Comms/Device.antt =====
-- User/comms/src/i2c_device.c: the link to a host that is the master of an I2C bus. The peripheral is
-- not part of these sources: what its flags and its data register answer is an argument, one record
-- for each turn of a loop that polls them.
pub mod Whole
mod Tests
use not.Prelude.{
  ℕ, zero, suc, ◌+◌, ◌-◌, ◌==◌, ◌||◌, if◌then◌else◌, Bool, true, false, List, [], ◌∷◌, ◌++◌, Option,
  none, some, length, take, drop,
}
use not.Comms.{Link}

-- The address flag (or, for a write, the event that it was matched), a byte if RXNE is set, TXE, AF
-- and STOPF.
pub record Look : Type 0 where
  pub addressed : Bool
  pub received : Option ℕ
  pub can_send : Bool
  pub refused : Bool
  pub stopped : Bool

-- The loop that waits to be addressed. `none`: it still waits when the list ends.
unfoldable pub wait_addressed : List Look → Option (List Look)
wait_addressed [] = none
wait_addressed (l ∷ ls) = let rest = wait_addressed ls in if l.addressed then some ls else rest

abbrev pub byte_in : Look → List ℕ
byte_in l = elim l.received [ none ↦ [] | some b ↦ b ∷ [] ]

-- `while (1)` of `i2c_device_read`, with `left` places free in the buffer: the bytes stored. A byte for
-- which there is no place is read and dropped.
unfoldable pub read_turns : ℕ → List Look → Option (List ℕ × List Look)
read_turns left [] = none
read_turns left (l ∷ ls) =
    let kept = take left (byte_in l) in
    let rest = read_turns (left - length kept) ls in
    if l.stopped
    then some (kept, ls)
    else elim rest [ none ↦ none | some (bs, ls') ↦ some (kept ++ bs, ls') ]

unfoldable pub i2c_device_read : ℕ → List Look → Option (List ℕ × List Look)
i2c_device_read size ls =
    if size == 0
    then some ([], ls)
    else elim (wait_addressed ls) [ none ↦ none | some ls' ↦ read_turns size ls' ]

-- `while (1)` of `i2c_device_write`: the bytes given to the peripheral.
unfoldable pub write_turns : List ℕ → List Look → Option (List ℕ × List Look)
write_turns buffer [] = none
write_turns buffer (l ∷ ls) =
    let n = if l.can_send then 1 else 0 in
    let rest = write_turns (drop n buffer) ls in
    if l.refused || l.stopped
    then some (take n buffer, ls)
    else elim rest [ none ↦ none | some (bs, ls') ↦ some (take n buffer ++ bs, ls') ]

unfoldable pub i2c_device_write : List ℕ → List Look → Option (List ℕ × List Look)
i2c_device_write buffer ls =
    if length buffer == 0
    then some ([], ls)
    else elim (wait_addressed ls) [ none ↦ none | some ls' ↦ write_turns buffer ls' ]

-- The link that protocol.c makes of them. Where a transfer brings fewer bytes than asked for, the buffer
-- keeps what it had: `old` says what. The state has the bytes that the peripheral was given.
module _ (old : ℕ → List ℕ) where
  unfoldable pub device_recv : ℕ → List Look × List ℕ → Option (List ℕ × (List Look × List ℕ))
  device_recv n (ls, out) = elim (i2c_device_read n ls) [
    | none ↦ none
    | some (bytes, ls') ↦ some (bytes ++ drop (length bytes) (old n), (ls', out))
  ]

  unfoldable pub device_send : List ℕ → List Look × List ℕ → Option (List Look × List ℕ)
  device_send buffer (ls, out) = elim (i2c_device_write buffer ls) [
    | none ↦ none
    | some (bytes, ls') ↦ some (ls', out ++ bytes)
  ]

  abbrev pub device_link : Link (List Look × List ℕ)
  device_link = record { start = λ s. some s; send = device_send; recv = device_recv }
