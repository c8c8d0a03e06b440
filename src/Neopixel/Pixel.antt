-- ===== src/Neopixel/Pixel.antt =====
-- Whole buffers of neopixel.c, group by group, and what the pixels show of them.
use mathlib.Core.List.{append_assoc, append-nil}
use not.Prelude.{
  ℕ, zero, suc, ◌+◌, ◌*◌, ◌/◌, ◌≡◌, refl, sym, ap, ◌∙◌, arith, leb, Bool-cases, if◌then◌else◌, true,
  false, inl, inr, List, [], ◌∷◌, ◌++◌, Option, some, length, bit, get_elem?,
}
use not.Hardware.{Port, delay_us, Trace}
use not.Neopixel.{neopixel_send_color, send_from, neopixel_send_buffer}
use not.Neopixel.Line.{Pixel, pixel, bits_of_bytes, send_color-Gives}

-- What is shown when each group of three bytes is followed by a reset.
abbrev pub shown_each : List ℕ → List (List ℕ) → List (List ℕ)
shown_each (x ∷ y ∷ z ∷ rest) before = shown_each rest (bits_of_bytes (x ∷ y ∷ z ∷ []) ∷ before)
shown_each others before = before

by_three : (i j : ℕ) → i + 3 + j ≡ i + suc (suc (suc j))
by_three i j = omega arith

from_zero : (j : ℕ) → 0 + j ≡ j
from_zero j = omega arith

module _ (port : Port) (k reset mask : ℕ) (one : bit mask k ≡ 1) where
  abbrev at : Trace → Pixel
  at t = pixel port k reset t

  send_round :
      (x y z left i : ℕ) (buffer : List ℕ) (t : Trace) (result : Option Trace)
      → get_elem? buffer i ≡ some x
      → get_elem? buffer (i + 1) ≡ some y
      → get_elem? buffer (i + 2) ≡ some z
      → send_from port mask buffer left
          (i + 3)
          (delay_us 200 ∷ (neopixel_send_color port mask x y z t).1)
        ≡ result
      → send_from port mask buffer (suc left) i t ≡ result
  unfolding send_from
  send_round x y z left i buffer t result b0 b1 b2 e = rw (send_from, b0, b1, b2) e

  -- What a group of three bytes with its pause does.
  paused : ℕ → ℕ → ℕ → Trace → Trace
  paused x y z t = delay_us 200 ∷ (neopixel_send_color port mask x y z t).1

  group_resets :
      (x y z : ℕ) (t : Trace)
      → leb reset 200 ≡ true
      → (at t).bits ≡ []
      → ((at (paused x y z t)).bits ≡ [])
        × ((at (paused x y z t)).shown ≡ bits_of_bytes (x ∷ y ∷ z ∷ []) ∷ (at t).shown)
  unfolding paused
  group_resets x y z t short e =
      rw ((send_color-Gives port k reset mask one x y z).given t, short, e) (refl, refl)

  group_continues :
      (x y z : ℕ) (t : Trace)
      → leb reset 200 ≡ false
      → ((at (paused x y z t)).bits ≡ (at t).bits ++ bits_of_bytes (x ∷ y ∷ z ∷ []))
        × ((at (paused x y z t)).shown ≡ (at t).shown)
  unfolding paused
  group_continues x y z t long =
      rw ((send_color-Gives port k reset mask one x y z).given t, long) (refl, refl)

  -- What the pixels have after groups of three bytes.
  abbrev Has : Trace → List ℕ → Trace → Type 0
  Has t buffer t' =
      ((at t').bits ≡ (if leb reset 200 then [] else (at t).bits ++ bits_of_bytes buffer))
      × ((at t').shown ≡ (if leb reset 200 then shown_each buffer (at t).shown else (at t).shown))

  -- With short resets, nothing was taken since the last one.
  abbrev IsReady : Trace → Type 0
  IsReady t = leb reset 200 ≡ true → (at t).bits ≡ []

  paused-IsReady : (x y z : ℕ) (t : Trace) → IsReady t → IsReady (paused x y z t)
  paused-IsReady x y z t ready short = (group_resets x y z t short (ready short)).0

  Has-nil : (t : Trace) → IsReady t → Has t [] t
  Has-nil t ready = elim (Bool-cases (leb reset 200)) [
    | inl short ↦ rw short (ready short, refl)
    | inr long ↦ rw long (sym (append-nil (at t).bits), refl)
  ]

  Has-group :
      (x y z : ℕ) (rest : List ℕ) (t t' : Trace)
      → IsReady t
      → Has (paused x y z t) rest t'
      → Has t (x ∷ y ∷ z ∷ rest) t'
  Has-group x y z rest t t' ready (bits, shown) = elim (Bool-cases (leb reset 200)) [
    | inl short ↦
        let group = group_resets x y z t short (ready short) in
        rw short (rw short at bits, rw short at shown ∙ ap (shown_each rest) group.1)
    | inr long ↦
        let group = group_continues x y z t long in
        rw long (
          rw long at bits
              ∙ ap (λ l. l ++ bits_of_bytes rest) group.0
              ∙ append_assoc (at t).bits (bits_of_bytes (x ∷ y ∷ z ∷ [])) (bits_of_bytes rest),
          rw long at shown ∙ group.1,
        )
  ]

  -- `left` groups of three bytes, the first at index `i`.
  send_from_lem :
      (left i : ℕ) (buffer rest : List ℕ) (t : Trace)
      → length rest ≡ 3 * left
      → ((j : ℕ) → get_elem? buffer (i + j) ≡ get_elem? rest j)
      → IsReady t
      → (t' : Trace) × (send_from port mask buffer left i t ≡ some t') × Has t rest t'
  unfolding send_from paused
  send_from_lem zero i buffer [] t n same ready = (t, refl, Has-nil t ready)
  send_from_lem zero i buffer (x ∷ rest) t n same ready = absurd (omega arith)
  send_from_lem (suc left) i buffer [] t n same ready = absurd (omega arith)
  send_from_lem (suc left) i buffer (x ∷ []) t n same ready = absurd (omega arith)
  send_from_lem (suc left) i buffer (x ∷ y ∷ []) t n same ready = absurd (omega arith)
  send_from_lem (suc left) i buffer (x ∷ y ∷ z ∷ rest) t n same ready =
      let first : i + 0 ≡ i = omega arith in
      let b0 = sym (ap (get_elem? buffer) first) ∙ same 0 in
      let (t', ends, has) =
        send_from_lem left (i + 3) buffer rest (paused x y z t) (omega arith)
          (λ j. ap (get_elem? buffer) (by_three i j) ∙ same (suc (suc (suc j))))
          (paused-IsReady x y z t ready) in
      (
        t',
        send_round x y z left i buffer t (some t') b0 (same 1) (same 2) ends,
        Has-group x y z rest t t' ready has,
      )

  -- Where the mask has the bit of the pin, the buffer has whole groups of three bytes and the pixels
  -- have taken nothing since their last reset, nothing is read out of bounds. Pixels that take a pause
  -- of 200 us for a reset show each group on its own, as the bits of the first pixel, since the
  -- loop pauses behind each group. Pixels whose reset is longer take all bytes of the buffer in
  -- their order and show nothing new. A byte comes bit 7 first, and a pixel takes a high pulse of
  -- 18 instructions or more for a 1, a shorter one for a 0.
  pub neopixel_send_buffer_lem :
      (groups : ℕ) (buffer : List ℕ) (t : Trace)
      → length buffer ≡ 3 * groups
      → (at t).bits ≡ []
      → (t' : Trace) × (neopixel_send_buffer port mask buffer (length buffer) t ≡ some t')
        × ((at t').bits ≡ (if leb reset 200 then [] else bits_of_bytes buffer))
        × ((at t').shown ≡ (if leb reset 200 then shown_each buffer (at t).shown else (at t).shown))
  unfolding neopixel_send_buffer
  neopixel_send_buffer_lem groups buffer t n fresh =
      let rounds : (length buffer + 2) / 3 ≡ groups = omega (arith, n) in
      let (t', ends, (bits, shown)) =
        send_from_lem groups 0 buffer buffer t n (λ j. ap (get_elem? buffer) (from_zero j))
          (λ short. fresh) in
      (
        t',
        rw rounds ends,
        bits ∙ ap (λ l. if leb reset 200 then [] else l ++ bits_of_bytes buffer) fresh,
        shown,
      )
