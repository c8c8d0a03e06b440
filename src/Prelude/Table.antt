-- ===== src/Prelude/Table.antt =====
-- Facts about small numbers, checked value by value.
use Prim.Native.Nat.{ℕ, zero, suc, ◌<◌}
use mathlib.Core.Path.{◌≡◌}
use mathlib.Core.Bool.{Bool, true, ◌&&◌}
use native.Mathlib.Omega.{arith}

unfoldable pub holds_below : ℕ → (ℕ → Bool) → Bool
holds_below zero test = true
holds_below (suc n) test = test n && holds_below n test

pub holds_below_sound :
    (n : ℕ) (test : ℕ → Bool) (x : ℕ) → x < n → holds_below n test ≡ true → test x ≡ true
unfolding holds_below
holds_below_sound zero test x lt all = absurd (omega arith)
holds_below_sound (suc n) test x lt all = ground (arith, holds_below_sound n test x)
