-- ===== src/Neopixel/Line.antt =====
-- The bits that a chain of WS2812 pixels takes from the accesses of neopixel.c, and the pauses in which
-- the pixels show what they took. The short times between two bits, which are instructions, are not
-- looked at.
use mathlib.Core.List.{append_assoc}
use native.Mathlib.Nat.{one-le-pow}
use not.Prelude.{
  ℕ, ◌^◌, ◌+◌, ◌*◌, ◌≡◌, refl, ap, ◌∙◌, arith, leb, negate, ◌==◌, ◌&&◌, if◌then◌else◌, Bool, true,
  false, inl, inr, List, [], ◌∷◌, ◌++◌, bit, bit_and, bit_and-pow,
}
use not.Hardware.{Port, Event, bshr, bcr, nop, delay_us, Trace, Dev, ◌>>◌, delay_nops}
use not.Hardware.Levels.{bit-cases}
use not.Neopixel.{
  neopixel_send_0, neopixel_send_1, neopixel_send_bit, neopixel_send_byte, neopixel_send_color,
}

-- The level of the data line, for how many instructions it has been high, the bits taken since the
-- last reset, which fill the chain from its first pixel on, and the bits that the chain had at each
-- reset before, the last one first.
pub record Pixel : Type 0 where
  pub level : Bool
  pub width : ℕ
  pub bits : List ℕ
  pub shown : List (List ℕ)

abbrev same_port : Port → Port → Bool
same_port Port.gpio_a Port.gpio_a = true
same_port Port.gpio_b Port.gpio_b = true
same_port p q = false

same_port_refl : (p : Port) → same_port p p ≡ true
same_port_refl Port.gpio_a = refl
same_port_refl Port.gpio_b = refl

-- The bits of a byte, bit 7 first.
abbrev pub bits_of_byte : ℕ → List ℕ
bits_of_byte b = bit b 7 ∷ bit b 6 ∷ bit b 5 ∷ bit b 4 ∷ bit b 3 ∷ bit b 2 ∷ bit b 1 ∷ bit b 0 ∷ []

abbrev pub bits_of_bytes : List ℕ → List ℕ
bits_of_bytes [] = []
bits_of_bytes (b ∷ bs) = bits_of_byte b ++ bits_of_bytes bs

-- The data line is pin `k` of the port. A high pulse of at least 18 instructions is a 1. A pause of
-- `reset` microseconds with the line low is a reset: the pixels show what they have, and the next
-- bits go to the first pixel again.
module _ (port : Port) (k reset : ℕ) where
  unfoldable pub drives : Port → ℕ → Bool
  drives p v = same_port p port && (bit v k == 1)

  abbrev see : Event → Pixel → Pixel
  see (bshr p v) d = if drives p v then record d { level = true; width = 0 } else d
  see (bcr p v) d =
      if drives p v && d.level
      then record d {
        level = false;
        width = 0;
        bits = d.bits ++ (if leb 18 d.width then 1 else 0) ∷ [];
      }
      else d
  see nop d = if d.level then record d { width = d.width + 1 } else d
  see (delay_us n) d =
      if leb reset n && negate d.level then record d { bits = []; shown = d.bits ∷ d.shown } else d
  see _ d = d

  abbrev pub pixel : Trace → Pixel
  pixel [] = record { level = false; width = 0; bits = []; shown = [] }
  pixel (e ∷ t) = see e (pixel t)

  -- What the pixels have after more bits.
  abbrev pub with_bits : Pixel → List ℕ → Pixel
  with_bits d bs = record d { level = false; width = 0; bits = d.bits ++ bs }

  -- What an action gives to the pixels.
  pub record Gives (m : Dev (Unit {0})) (bs : List ℕ) : Type 0 where
    pub given : (t : Trace) → pixel (m t).1 ≡ with_bits (pixel t) bs

  then-Gives :
      {m n : Dev (Unit {0})} {xs ys : List ℕ} → Gives m xs → Gives n ys → Gives (m >> n) (xs ++ ys)
  then-Gives {m} {n} {xs} {ys} a b = record {
    given = λ t.
        b.given (m t).1
        ∙ ap (λ d. with_bits d ys) (a.given t)
        ∙ ap (λ l. record (pixel t) { level = false; width = 0; bits = l })
            (append_assoc (pixel t).bits xs ys);
  }

  module _ (mask : ℕ) (one : bit mask k ≡ 1) where
    driven : drives port mask ≡ true
    unfolding drives
    driven = ground (arith, one, same_port_refl port)

    send_1-Gives : Gives (neopixel_send_1 port mask) (1 ∷ [])
    unfolding neopixel_send_1 delay_nops
    send_1-Gives = record { given = λ t. rw driven refl }

    send_0-Gives : Gives (neopixel_send_0 port mask) (0 ∷ [])
    unfolding neopixel_send_0 delay_nops
    send_0-Gives = record { given = λ t. rw driven refl }

    send_bit-Gives :
        (x j : ℕ) → Gives (neopixel_send_bit port mask (bit_and x (2 ^ j))) (bit x j ∷ [])
    unfolding neopixel_send_bit
    send_bit-Gives x j = elim (bit-cases x j) [
      | inl z ↦
          let no_bit : bit x j * 2 ^ j ≡ 0 * 2 ^ j = ap (λ (n : ℕ). n * 2 ^ j) z in
          let none_set : (bit_and x (2 ^ j) == 0) ≡ true =
            ground (arith, bit_and-pow x j, no_bit) in
          rw (none_set, z) send_0-Gives
      | inr o ↦
          let one_bit : bit x j * 2 ^ j ≡ 1 * 2 ^ j = ap (λ (n : ℕ). n * 2 ^ j) o in
          let some_set : (bit_and x (2 ^ j) == 0) ≡ false =
            ground (arith, bit_and-pow x j, one-le-pow j 2, one_bit) in
          rw (some_set, o) send_1-Gives
    ]

    send_byte-Gives : (b : ℕ) → Gives (neopixel_send_byte port mask b) (bits_of_byte b)
    unfolding neopixel_send_byte
    send_byte-Gives b =
        let each = send_bit-Gives b in
        then-Gives (each 7) (
          then-Gives (each 6) (
            then-Gives (each 5) (
              then-Gives (each 4)
                (then-Gives (each 3) (then-Gives (each 2) (then-Gives (each 1) (each 0)))))))

    pub send_color-Gives :
        (x y z : ℕ) → Gives (neopixel_send_color port mask x y z) (bits_of_bytes (x ∷ y ∷ z ∷ []))
    unfolding neopixel_send_color
    send_color-Gives x y z =
        then-Gives (send_byte-Gives x) (then-Gives (send_byte-Gives y) (send_byte-Gives z))
