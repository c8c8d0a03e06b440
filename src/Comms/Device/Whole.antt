-- ===== src/Comms/Device/Whole.antt =====
-- What one transfer on the bus is to the calls of i2c_device.c.
use not.Prelude.{
  ℕ, zero, suc, ◌+◌, ◌-◌, ◌==◌, ◌||◌, ◌≡◌, ◌≢◌, refl, sym, ap, ◌∙◌, arith, if◌then◌else◌, Bool,
  true, false, List, [], ◌∷◌, ◌++◌, some, length, take, take-nil, drop,
}
use mathlib.Core.List.{append_assoc}
use not.Comms.Device.{
  Look, wait_addressed, byte_in, read_turns, i2c_device_read, write_turns, i2c_device_write,
}

-- The bytes that the host sent.
abbrev pub bytes_in : List Look → List ℕ
bytes_in [] = []
bytes_in (l ∷ ls) = byte_in l ++ bytes_in ls

-- The times that the peripheral asked for a byte.
abbrev pub asked : List Look → ℕ
asked [] = 0
asked (l ∷ ls) = (if l.can_send then 1 else 0) + asked ls

-- No look of a list shows something.
abbrev pub NoneOf : (Look → Bool) → List Look → Type 0
NoneOf test [] = Unit
NoneOf test (l ∷ ls) = (test l ≡ false) × NoneOf test ls

wait_lem :
    (idle : List Look) (first : Look) (ls : List Look)
    → NoneOf (λ l. l.addressed) idle
    → first.addressed ≡ true
    → wait_addressed (idle ++ first ∷ ls) ≡ some ls
unfolding wait_addressed
wait_lem [] first ls i a = rw a refl
wait_lem (l ∷ idle) first ls i a = rw i.0 (wait_lem idle first ls i.1 a)

take_split :
    (n : ℕ) (xs ys : List ℕ) → take n xs ++ take (n - length (take n xs)) ys ≡ take n (xs ++ ys)
take_split zero xs ys = let none_left : 0 - 0 ≡ 0 = omega arith in ap (λ k. take k ys) none_left
take_split (suc n) [] ys = let all : suc n - 0 ≡ suc n = omega arith in ap (λ k. take k ys) all
take_split (suc n) (x ∷ xs) ys =
    let same : suc n - suc (length (take n xs)) ≡ n - length (take n xs) = omega arith in
    ap (λ l. x ∷ l) (ap (λ k. take n xs ++ take k ys) same ∙ take_split n xs ys)

read_turns_lem :
    (left : ℕ) (during : List Look) (last : Look) (later : List Look)
    → NoneOf (λ l. l.stopped) during
    → last.stopped ≡ true
    → read_turns left (during ++ last ∷ later)
      ≡ some (take left (bytes_in during ++ byte_in last), later)
unfolding read_turns
read_turns_lem left [] last later g s = rw s refl
read_turns_lem left (l ∷ during) last later g s =
    let kept = take left (byte_in l) in
    let more = read_turns_lem (left - length kept) during last later g.1 s in
    rw (g.0, more)
      (ap (λ bs. some (bs, later))
        (take_split left (byte_in l) (bytes_in during ++ byte_in last)
          ∙ ap (take left) (sym (append_assoc (byte_in l) (bytes_in during) (byte_in last)))))

take_more : (n m : ℕ) (xs : List ℕ) → take n xs ++ take m (drop n xs) ≡ take (n + m) xs
take_more zero m xs = let same : m ≡ 0 + m = omega arith in ap (λ k. take k xs) same
take_more (suc n) m [] =
    let same : suc n + m ≡ suc (n + m) = omega arith in take-nil m ∙ sym (ap (λ k. take k []) same)
take_more (suc n) m (x ∷ xs) =
    let same : suc n + m ≡ suc (n + m) = omega arith in
    ap (λ l. x ∷ l) (take_more n m xs) ∙ sym (ap (λ k. take k (x ∷ xs)) same)

write_turns_lem :
    (buffer : List ℕ) (during : List Look) (last : Look) (later : List Look)
    → NoneOf (λ l. l.refused || l.stopped) during
    → (last.refused || last.stopped) ≡ true
    → write_turns buffer (during ++ last ∷ later)
      ≡ some (take (asked during + (if last.can_send then 1 else 0)) buffer, later)
unfolding write_turns
write_turns_lem buffer [] last later g s =
    let n = if last.can_send then 1 else 0 in
    let same : n ≡ 0 + n = omega arith in rw s (ap (λ k. some (take k buffer, later)) same)
write_turns_lem buffer (l ∷ during) last later g s =
    let n = if l.can_send then 1 else 0 in
    let m = if last.can_send then 1 else 0 in
    let more = write_turns_lem (drop n buffer) during last later g.1 s in
    let same : n + (asked during + m) ≡ n + asked during + m = omega arith in
    rw (g.0, more)
      (ap (λ bs. some (bs, later))
        (take_more n (asked during + m) buffer ∙ ap (λ k. take k buffer) same))

-- A read of at least one byte takes one whole transfer off the bus, however many bytes it was asked
-- for: of the bytes that the host sent in it, it stores the first ones, up to the size of the
-- buffer, and drops the others, and the next call starts behind the STOP. A read of no bytes returns
-- at once and takes nothing. The condition is that the host addresses the board, and that the transfer
-- goes on until its STOP.
pub i2c_device_read_lem :
    (size : ℕ) (idle during later : List Look) (first last : Look)
    → size ≢ 0
    → NoneOf (λ l. l.addressed) idle
    → first.addressed ≡ true
    → NoneOf (λ l. l.stopped) during
    → last.stopped ≡ true
    → (i2c_device_read size (idle ++ first ∷ (during ++ last ∷ later))
        ≡ some (take size (bytes_in during ++ byte_in last), later))
      × (i2c_device_read 0 (idle ++ first ∷ (during ++ last ∷ later))
          ≡ some ([], idle ++ first ∷ (during ++ last ∷ later)))
unfolding i2c_device_read
i2c_device_read_lem size idle during later first last some_left i a g s =
    let nonzero : (size == 0) ≡ false = ground (arith, some_left) in
    (
      rw (i2c_device_read, nonzero, wait_lem idle first (during ++ last ∷ later) i a)
          (read_turns_lem size during last later g s),
      refl,
    )

-- A write returns, and gives the peripheral the first bytes of the buffer, one for each time that it asked until the
-- transfer ended, and no more than there are. The condition is that the buffer is not empty, that
-- the host addresses the board, and that the transfer goes on until the host refuses a byte or
-- stops.
pub i2c_device_write_lem :
    (buffer : List ℕ) (idle during later : List Look) (first last : Look)
    → length buffer ≢ 0
    → NoneOf (λ l. l.addressed) idle
    → first.addressed ≡ true
    → NoneOf (λ l. l.refused || l.stopped) during
    → (last.refused || last.stopped) ≡ true
    → i2c_device_write buffer (idle ++ first ∷ (during ++ last ∷ later))
      ≡ some (take (asked during + (if last.can_send then 1 else 0)) buffer, later)
unfolding i2c_device_write
i2c_device_write_lem buffer idle during later first last some_left i a g s =
    let nonzero : (length buffer == 0) ≡ false = ground (arith, some_left) in
    rw (i2c_device_write, nonzero, wait_lem idle first (during ++ last ∷ later) i a)
      (write_turns_lem buffer during last later g s)
