-- ===== src/Prelude/Bits.antt =====
-- The native bit operations, bit by bit. `bit x k` is bit `k` of `x`; every law is at all widths.
use Prim.Native.Nat.{
  ℕ, zero, suc, ◌+◌, ◌-◌, ◌*◌, ◌/◌, ◌%◌, ◌^◌, ◌≤◌, ◌<◌, min, max, bit_and, bit_or, digits, bitwise,
  bit_and-bitwise, bit_or-bitwise,
}
use mathlib.Core.Path.{◌≡◌, refl, ap, ◌∙◌}
use mathlib.Core.Logic.{◌≢◌}
use native.Mathlib.Nat.{pow-suc, one-le-pow, le_refl}
use native.Mathlib.Omega.{arith}

-- Bit `k` of `x`, by recursion on `k`.
abbrev pub bit : ℕ → ℕ → ℕ
bit x zero = x % 2
bit x (suc k) = bit (x / 2) k

module _ (tail : ℕ → ℕ) (op : ℕ → ℕ → ℕ) where
  enough_fuel : (p q x y : ℕ) → x ≤ p → x ≤ q → digits tail op p x y ≡ digits tail op q x y
  enough_fuel zero q zero y hp hq = first q
    where
      first : (r : ℕ) → tail y ≡ digits tail op r zero y
      first zero = refl
      first (suc r) = refl
  enough_fuel zero q (suc x) y hp hq = absurd (omega arith)
  enough_fuel (suc p) zero zero y hp hq = refl
  enough_fuel (suc p) (suc q) zero y hp hq = refl
  enough_fuel (suc p) zero (suc x) y hp hq = absurd (omega arith)
  enough_fuel (suc p) (suc q) (suc x) y hp hq =
      let shorter = enough_fuel p q (suc x / 2) (y / 2) (omega arith) (omega arith) in
      omega (arith, shorter)

  low_digit :
      (x y : ℕ)
      → bitwise tail op (suc x) y ≡ op (suc x % 2) (y % 2) + 2 * bitwise tail op (suc x / 2) (y / 2)
  low_digit x y =
      let rest = enough_fuel x (suc x / 2) (suc x / 2) (y / 2) (omega arith) (omega arith) in
      omega (arith, rest)

pub bit_and-low : (x y : ℕ) → bit_and x y ≡ min (x % 2) (y % 2) + 2 * bit_and (x / 2) (y / 2)
bit_and-low zero y = omega (arith, bit_and-bitwise 0 y, bit_and-bitwise 0 (y / 2))
bit_and-low (suc x) y =
    let whole = bit_and-bitwise (suc x) y in
    let rest = bit_and-bitwise (suc x / 2) (y / 2) in
    omega (arith, whole, rest, low_digit (λ d. 0) min x y)

pub bit_or-low : (x y : ℕ) → bit_or x y ≡ max (x % 2) (y % 2) + 2 * bit_or (x / 2) (y / 2)
bit_or-low zero y = omega (arith, bit_or-bitwise 0 y, bit_or-bitwise 0 (y / 2))
bit_or-low (suc x) y =
    let whole = bit_or-bitwise (suc x) y in
    let rest = bit_or-bitwise (suc x / 2) (y / 2) in
    omega (arith, whole, rest, low_digit (λ d. d) max x y)

pub bit-lt : (x k : ℕ) → bit x k < 2
bit-lt x zero = omega arith
bit-lt x (suc k) = bit-lt (x / 2) k

pub bit-bit_and : (x y k : ℕ) → bit (bit_and x y) k ≡ min (bit x k) (bit y k)
bit-bit_and x y zero = omega (arith, bit_and-low x y)
bit-bit_and x y (suc k) =
    let half : bit_and x y / 2 ≡ bit_and (x / 2) (y / 2) = omega (arith, bit_and-low x y) in
    rw half (bit-bit_and (x / 2) (y / 2) k)

pub bit-bit_or : (x y k : ℕ) → bit (bit_or x y) k ≡ max (bit x k) (bit y k)
bit-bit_or x y zero = omega (arith, bit_or-low x y)
bit-bit_or x y (suc k) =
    let half : bit_or x y / 2 ≡ bit_or (x / 2) (y / 2) = omega (arith, bit_or-low x y) in
    rw half (bit-bit_or (x / 2) (y / 2) k)

pub bit-zero : (k : ℕ) → bit 0 k ≡ 0
bit-zero zero = refl
bit-zero (suc k) = bit-zero k

-- A shift left by `s` moves bit `k` to bit `s + k`, and clears those below.
pub bit-shift : (x s k : ℕ) → bit (x * 2 ^ s) (s + k) ≡ bit x k
bit-shift x zero k =
    let e : x * 2 ^ 0 ≡ x = omega arith in let e' : 0 + k ≡ k = omega arith in rw (e, e')
bit-shift x (suc s) k =
    let e : x * 2 ^ suc s / 2 ≡ x * 2 ^ s = omega (arith, ap (λ (t : ℕ). x * t) (pow-suc 2 s)) in
    let e' : suc s + k ≡ suc (s + k) = omega arith in
    ap (bit (x * 2 ^ suc s)) e' ∙ ap (λ t. bit t (s + k)) e ∙ bit-shift x s k

pub bit-shift_below : (x s k : ℕ) → k < s → bit (x * 2 ^ s) k ≡ 0
bit-shift_below x zero k h = absurd (omega arith)
bit-shift_below x (suc s) zero h = omega (arith, ap (λ (t : ℕ). x * t) (pow-suc 2 s))
bit-shift_below x (suc s) (suc k) h =
    let e : x * 2 ^ suc s / 2 ≡ x * 2 ^ s = omega (arith, ap (λ (t : ℕ). x * t) (pow-suc 2 s)) in
    rw e (bit-shift_below x s k (omega arith))

-- A number below `2 ^ w` has no bit from `w` on.
pub bit_above : (x w k : ℕ) → x < 2 ^ w → w ≤ k → bit x k ≡ 0
bit_above x zero k h le = let e : x ≡ 0 = omega arith in rw e (bit-zero k)
bit_above x (suc w) zero h le = absurd (omega arith)
bit_above x (suc w) (suc k) h le = bit_above (x / 2) w k (omega (arith, pow-suc 2 w)) (omega arith)

-- The complement in `w` bits.
pub bit-complement : (w x k : ℕ) → x < 2 ^ w → k < w → bit (2 ^ w - 1 - x) k ≡ 1 - bit x k
bit-complement zero x k h lt = absurd (omega arith)
bit-complement (suc w) x zero h lt = omega (arith, pow-suc 2 w, one-le-pow w 2)
bit-complement (suc w) x (suc k) h lt =
    let e : (2 ^ suc w - 1 - x) / 2 ≡ 2 ^ w - 1 - x / 2 = omega (arith, pow-suc 2 w) in
    rw e (bit-complement w (x / 2) k (omega (arith, pow-suc 2 w)) (omega arith))

-- Numbers of the same bits are equal.
pub bit_ext : (w x y : ℕ) → x < 2 ^ w → y < 2 ^ w → ((k : ℕ) → k < w → bit x k ≡ bit y k) → x ≡ y
bit_ext zero x y hx hy same = omega arith
bit_ext (suc w) x y hx hy same =
    let halves =
      bit_ext w (x / 2) (y / 2) (omega (arith, pow-suc 2 w)) (omega (arith, pow-suc 2 w))
        (λ k h. same (suc k) (omega arith)) in
    omega (arith, same 0 (omega arith), halves)

bit_and-zero_fuel : (n x : ℕ) → x ≤ n → bit_and x 0 ≡ 0
bit_and-zero_fuel n zero h = refl
bit_and-zero_fuel zero (suc x) h = absurd (omega arith)
bit_and-zero_fuel (suc n) (suc x) h =
    omega (arith, bit_and-low (suc x) 0, bit_and-zero_fuel n (suc x / 2) (omega arith))

-- `x & (1 << k)` is bit `k` in its place.
pub bit_and-pow : (x k : ℕ) → bit_and x (2 ^ k) ≡ bit x k * 2 ^ k
bit_and-pow x zero = omega (arith, bit_and-low x 1, bit_and-zero_fuel (x / 2) (x / 2) (le_refl _))
bit_and-pow x (suc k) =
    let up : bit (x / 2) k * 2 ^ suc k ≡ 2 * (bit (x / 2) k * 2 ^ k) =
      omega (arith, ap (λ (t : ℕ). bit (x / 2) k * t) (pow-suc 2 k)) in
    let half : 2 ^ suc k / 2 ≡ 2 ^ k = omega (arith, pow-suc 2 k) in
    let even : 2 ^ suc k % 2 ≡ 0 = omega (arith, pow-suc 2 k) in
    let low = bit_and-low x (2 ^ suc k) in
    omega (arith, low, even, ap (bit_and (x / 2)) half, bit_and-pow (x / 2) k, up)

pub bit-pow_self : (k : ℕ) → bit (2 ^ k) k ≡ 1
bit-pow_self zero = refl
bit-pow_self (suc k) =
    let half : 2 ^ suc k / 2 ≡ 2 ^ k = omega (arith, pow-suc 2 k) in
    ap (λ t. bit t k) half ∙ bit-pow_self k

pub bit-pow_ne : (s k : ℕ) → k ≢ s → bit (2 ^ s) k ≡ 0
bit-pow_ne zero zero h = absurd (h refl)
bit-pow_ne zero (suc k) h = bit-zero k
bit-pow_ne (suc s) zero h = omega (arith, pow-suc 2 s)
bit-pow_ne (suc s) (suc k) h =
    let half : 2 ^ suc s / 2 ≡ 2 ^ s = omega (arith, pow-suc 2 s) in
    ap (λ t. bit t k) half ∙ bit-pow_ne s k (λ e. h (ap suc e))

-- The low eight bits of a byte are those of the number.
pub bit_u8 : (x k : ℕ) → k < 8 → bit (x % 2 ^ 8) k ≡ bit x k
bit_u8 x zero h = omega arith
bit_u8 x (suc zero) h = omega arith
bit_u8 x (suc (suc zero)) h = omega arith
bit_u8 x (suc (suc (suc zero))) h = omega arith
bit_u8 x (suc (suc (suc (suc zero)))) h = omega arith
bit_u8 x (suc (suc (suc (suc (suc zero))))) h = omega arith
bit_u8 x (suc (suc (suc (suc (suc (suc zero)))))) h = omega arith
bit_u8 x (suc (suc (suc (suc (suc (suc (suc zero))))))) h = omega arith
bit_u8 x (suc (suc (suc (suc (suc (suc (suc (suc k)))))))) h = absurd (omega arith)

-- Bits put behind others that do not reach them are added.
pub bit_or_above : (n lo hi : ℕ) → lo < 2 ^ n → bit_or lo (hi * 2 ^ n) ≡ lo + hi * 2 ^ n
bit_or_above zero lo hi h =
    let none_low : lo ≡ 0 = omega arith in rw none_low (omega (arith, bit_or-bitwise 0 (hi * 1)))
bit_or_above (suc n) lo hi h =
    let half : hi * 2 ^ suc n / 2 ≡ hi * 2 ^ n = rw (pow-suc 2 n) (omega arith) in
    let even : hi * 2 ^ suc n ≡ 2 * (hi * 2 ^ n) = rw (pow-suc 2 n) (omega arith) in
    let rest = bit_or_above n (lo / 2) hi (omega (arith, h, pow-suc 2 n)) in
    omega (arith, bit_or-low lo (hi * 2 ^ suc n), ap (bit_or (lo / 2)) half, rest, even)
