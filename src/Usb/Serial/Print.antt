-- ===== src/Usb/Serial/Print.antt =====
-- The strings of usb_serial.c: `usbSerial_blocking_read_string` and the printing calls.
use not.Prelude.{
  ℕ, zero, suc, ◌+◌, ◌-◌, ◌*◌, ◌/◌, ◌%◌, ◌^◌, ◌<◌, ◌≤◌, ◌==◌, ◌≡◌, ap, ◌∙◌, arith, ltb, leb, ◌&&◌,
  Bool, if◌then◌else◌, List, [], ◌∷◌, ◌++◌, Option, none, some, length, take, take_all,
  length-append, true, false, Bool-cases, inl, inr,
}
use native.Mathlib.Nat.{pow-suc}
use not.Usb.Serial.{Serial, write, blocking_read_u32, blocking_read_bytes}

-- The buffer with its terminator.
unfoldable pub blocking_read_string :
    List (List ℕ) → Serial → Option (List ℕ × List (List ℕ) × Serial)
blocking_read_string ps s = elim (blocking_read_u32 ps s) [
  | none ↦ none
  | some (len, ps', s') ↦ elim (blocking_read_bytes len ps' s') [
    | none ↦ none
    | some (bytes, ps'', s'') ↦ some (bytes ++ 0 ∷ [], ps'', s'')
  ]
]

-- `usbSerial_println_s`, on the bytes of the string before its terminator.
unfoldable pub println_s : Serial → List ℕ → Serial
println_s s str = (write (write s str).1 (0x0D ∷ 0x0A ∷ [])).1

-- The loop that fills `tmp`, and the loop that copies it backwards: the digits of `x` in front of
-- `acc`, at most as many as the first argument.
unfoldable pub digits_onto : ℕ → ℕ → List ℕ → List ℕ
digits_onto zero x acc = acc
digits_onto (suc left) x acc =
    let acc' = (0x30 + x % 10) ∷ acc in
    let rest = digits_onto left (x / 10) acc' in if x / 10 == 0 then acc' else rest

-- `(uint32_t)(-v)` for a negative `v`, which is given as its 32 bits.
unfoldable pub magnitude : ℕ → ℕ
magnitude v = if ltb v (2 ^ 31) then v else 2 ^ 32 - v

-- The characters that fit in front of the terminator.
unfoldable pub decimal : ℕ → ℕ → List ℕ
decimal v out_sz =
    let sign = if ltb v (2 ^ 31) then [] else 0x2D ∷ [] in
    take (out_sz - 1) (sign ++ digits_onto 16 (magnitude v) [])

-- What `i32_to_str` puts into `out`.
unfoldable pub i32_to_str : ℕ → ℕ → List ℕ
i32_to_str v out_sz = if out_sz == 0 then [] else decimal v out_sz ++ 0 ∷ []

-- `usbSerial_println_i`, with its buffer of 20 bytes.
unfoldable pub println_i : Serial → ℕ → Serial
println_i s v = println_s s (decimal v 20)

-- The value of a decimal numeral, read from the left: `none` when a character is no digit, or when
-- there is none at all.
abbrev pub is_digit : ℕ → Bool
is_digit d = leb 0x30 d && leb d 0x39

abbrev pub numeral_from : ℕ → List ℕ → Option ℕ
numeral_from value [] = some value
numeral_from value (d ∷ ds) =
    let rest = numeral_from (value * 10 + (d - 0x30)) ds in if is_digit d then rest else none

abbrev pub numeral : List ℕ → Option ℕ
numeral [] = none
numeral (d ∷ ds) = numeral_from 0 (d ∷ ds)

digit_lem : (x : ℕ) → is_digit (0x30 + x % 10) ≡ true
digit_lem x = ground arith

numeral_digit :
    (value x : ℕ) (acc : List ℕ)
    → numeral_from value ((0x30 + x % 10) ∷ acc) ≡ numeral_from (value * 10 + x % 10) acc
numeral_digit value x acc =
    let digit : 0x30 + x % 10 - 0x30 ≡ x % 10 = omega arith in
    rw (numeral_from, digit_lem x) (ap (λ k. numeral_from (value * 10 + k) acc) digit)

-- The loop makes at least one turn, so there is a digit also for 0.
digits_lem :
    (left x : ℕ) (acc : List ℕ)
    → x < 10 ^ suc left
    → numeral (digits_onto (suc left) x acc) ≡ numeral_from x acc
unfolding digits_onto
digits_lem zero x acc h =
    let none_left : (x / 10 == 0) ≡ true = ground (arith, h) in
    let small : 0 * 10 + x % 10 ≡ x = omega (arith, h) in
    rw none_left (numeral_digit 0 x acc ∙ ap (λ v. numeral_from v acc) small)
digits_lem (suc left) x acc h = elim (Bool-cases (x / 10 == 0)) [
  | inl e ↦
      let small : 0 * 10 + x % 10 ≡ x = ground (arith, e) in
      rw e (numeral_digit 0 x acc ∙ ap (λ v. numeral_from v acc) small)
  | inr e ↦
      let whole : x / 10 * 10 + x % 10 ≡ x = omega arith in
      rw e (
        digits_lem left (x / 10) ((0x30 + x % 10) ∷ acc) (omega (arith, h, pow-suc 10 (suc left)))
        ∙ numeral_digit (x / 10) x acc
        ∙ ap (λ v. numeral_from v acc) whole)
]

length-digits_onto :
    (left x : ℕ) (acc : List ℕ) → length (digits_onto left x acc) ≤ left + length acc
unfolding digits_onto
length-digits_onto zero x acc = omega arith
length-digits_onto (suc left) x acc = elim (Bool-cases (x / 10 == 0)) [
  | inl e ↦ rw e (omega arith)
  | inr e ↦ rw e (omega (arith, length-digits_onto left (x / 10) ((0x30 + x % 10) ∷ acc)))
]

-- `i32_to_str` into a buffer of at least 20 bytes: a minus sign for a negative number, then a
-- decimal numeral of its absolute value, whole, which is one digit or more and nothing else, and the
-- terminator. The number is given as its 32 bits.
pub i32_to_str_lem :
    (v out_sz : ℕ)
    → v < 2 ^ 32
    → 20 ≤ out_sz
    → (digits : List ℕ) × (i32_to_str v out_sz
        ≡ ((if ltb v (2 ^ 31) then [] else 0x2D ∷ []) ++ digits) ++ 0 ∷ [])
      × (numeral digits ≡ some (if ltb v (2 ^ 31) then v else 2 ^ 32 - v))
unfolding i32_to_str decimal magnitude
i32_to_str_lem v out_sz h room =
    let sign : List ℕ = if ltb v (2 ^ 31) then [] else 0x2D ∷ [] in
    let size = if ltb v (2 ^ 31) then v else 2 ^ 32 - v in
    let short : length sign ≤ 1 = sign_lem v in
    let fits : length (sign ++ digits_onto 16 size []) ≤ out_sz - 1 =
      omega (
        arith,
        short,
        length-append sign (digits_onto 16 size []),
        length-digits_onto 16 size [],
      ) in
    let nonzero : (out_sz == 0) ≡ false = ground arith in
    (
      digits_onto 16 size [],
      rw nonzero
          (ap (λ l. l ++ 0 ∷ []) (take_all (out_sz - 1) (sign ++ digits_onto 16 size []) fits)),
      digits_lem 15 size [] (small v),
    )
  where
    sign_lem : (v : ℕ) → length {A = ℕ} (if ltb v (2 ^ 31) then [] else 0x2D ∷ []) ≤ 1
    sign_lem v = elim (Bool-cases (ltb v (2 ^ 31))) [
      | inl e ↦ rw e (omega arith)
      | inr e ↦ rw e (omega arith)
    ]

    small : (v : ℕ) → (if ltb v (2 ^ 31) then v else 2 ^ 32 - v) < 10 ^ 16
    small v = ground arith
