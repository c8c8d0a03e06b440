-- ===== src/Vm/Returns.antt =====
-- Partial correctness over the results of the interpreter: what holds of every normal return.
use not.Prelude.{
  ℕ, zero, suc, ◌<◌, ◌≡◌, arith, Bool-cases, ltb, inl, inr, List, [], ◌∷◌, set, length, length-set,
}
use not.Vm.State.{Result, ok, fault, waiting, ◌>>=◌, load, store}

pub data Returns {A : Type 0} (P : A → Type 0) : Result A → Type 0 where
  returns : {a : A} → P a → Returns P (ok a)
  faults : Returns P fault
  waits : Returns P waiting

pub bind-Returns :
    {A B : Type 0} (P : A → Type 0) (Q : B → Type 0) (m : Result A) (f : A → Result B)
    → Returns P m
    → ((a : A) → P a → Returns Q (f a))
    → Returns Q (m >>= f)
bind-Returns P Q (ok a) f (returns h) k = k a h
bind-Returns P Q fault f h k = faults
bind-Returns P Q waiting f h k = waits

-- Every element of the array is below the bound.
abbrev pub AllBelow : ℕ → List ℕ → Type 0
AllBelow n [] = Unit {0}
AllBelow n (x ∷ xs) = (x < n) × AllBelow n xs

pub AllBelow-set : (n : ℕ) (xs : List ℕ) (i v : ℕ) → AllBelow n xs → v < n → AllBelow n (set xs i v)
AllBelow-set n [] i v h hv = tt
AllBelow-set n (x ∷ xs) zero v h hv = (hv, h.1)
AllBelow-set n (x ∷ xs) (suc i) v h hv = (h.0, AllBelow-set n xs i v h.1 hv)

pub load-Returns : (n : ℕ) (xs : List ℕ) (i : ℕ) → AllBelow n xs → Returns (λ x. x < n) (load xs i)
load-Returns n [] i h = faults
load-Returns n (x ∷ xs) zero h = returns h.0
load-Returns n (x ∷ xs) (suc i) h = load-Returns n xs i h.1

-- An array of the given size whose elements are below the bound.
pub record IsArray (size bound : ℕ) (xs : List ℕ) : Type 0 where
  pub sized : length xs ≡ size
  pub bounded : AllBelow bound xs

pub store-Returns :
    (size bound : ℕ) (xs : List ℕ) (i v : ℕ)
    → IsArray size bound xs
    → v < bound
    → Returns (IsArray size bound) (store xs i v)
store-Returns size bound xs i v a hv = elim (Bool-cases (ltb i (length xs))) [
  | inl e ↦ rw e (
      returns (record {
        sized = ground (arith, length-set xs i v);
        bounded = AllBelow-set bound xs i v a.bounded hv;
      }))
  | inr e ↦ rw e faults
]
