-- ===== src/Fs/Handles.antt =====
-- The tables of handles of fs.c.
use mathlib.Core.Option.{some_inj}
use not.Prelude.{
  ℕ, zero, suc, ◌+◌, ◌<◌, ◌==◌, ◌≡◌, ◌≢◌, ◌⊎◌, inl, inr, refl, sym, ap, ◌∙◌, arith, List, [], ◌∷◌,
  some, get_elem?, set, length, Bool-cases, to_bit,
}
use not.Fs.{Handle, allocate, no_handle}

module _ {X : Type 0} where
  -- How many handles are free.
  abbrev pub available : List (Handle X) → ℕ
  available [] = 0
  available (h ∷ hs) = to_bit (h.taken == 0) + available hs

  -- The free handle with the lowest number is handed out and marked, and no other changes.
  pub record Allocated (hs : List (Handle X)) (k : ℕ) : Type 0 where
    pub i : ℕ
    pub h : Handle X
    pub result : allocate hs k ≡ (k + i, set hs i (record h { taken = 1 }))
    pub there : get_elem? hs i ≡ some h
    pub was_free : h.taken ≡ 0
    pub lowest : (j : ℕ) (g : Handle X) → j < i → get_elem? hs j ≡ some g → g.taken ≢ 0
    pub one_less : suc (available (set hs i (record h { taken = 1 }))) ≡ available hs

  -- `allocate_fh` and `allocate_dh`, on a table whose first handle has the number `k`: with no free
  -- handle the result is -1 and nothing changes; else the free handle with the lowest number is
  -- handed out, it alone changes, and one handle less is free.
  pub allocate_lem :
      (hs : List (Handle X)) (k : ℕ)
      → ((available hs ≡ 0) × (allocate hs k ≡ (no_handle, hs))) ⊎ Allocated hs k
  unfolding allocate
  allocate_lem [] k = inl (refl, refl)
  allocate_lem (h ∷ hs) k = elim (Bool-cases (h.taken == 0)) [
    | inl e ↦ inr (record {
      i = 0;
      h = h;
      result =
          let at : k ≡ k + 0 = omega arith in rw e (ap (λ n. (n, record h { taken = 1 } ∷ hs)) at);
      there = refl;
      was_free = ground (arith, e);
      lowest = λ j g below. absurd (omega arith);
      one_less = rw e (omega arith);
    })
    | inr e ↦ elim (allocate_lem hs (k + 1)) [
      | inl (none_free, same) ↦ inl (rw (e, none_free) refl, rw (allocate, e, same) refl)
      | inr a ↦ inr (record {
        i = suc a.i;
        h = a.h;
        result =
            let at : k + 1 + a.i ≡ k + suc a.i = omega arith in
            rw (allocate, e, a.result)
              (ap (λ n. (n, h ∷ set hs a.i (record (a.h) { taken = 1 }))) at);
        there = a.there;
        was_free = a.was_free;
        lowest = later h hs a.i (ground (arith, e)) a.lowest;
        one_less = omega (arith, a.one_less);
      })
    ]
  ]
    where
      later :
          (h : Handle X) (hs : List (Handle X)) (i : ℕ)
          → h.taken ≢ 0
          → ((j : ℕ) (g : Handle X) → j < i → get_elem? hs j ≡ some g → g.taken ≢ 0)
          → (j : ℕ) (g : Handle X) → j < suc i
          → get_elem? (h ∷ hs) j ≡ some g
          → g.taken ≢ 0
      later h hs i taken rest zero g below e = λ q. taken (ap (λ x. x.taken) (some_inj.0 e) ∙ q)
      later h hs i taken rest (suc j) g below e = rest j g (omega arith) e

  -- A new file in a handle frees nothing.
  pub available-set :
      (hs : List (Handle X)) (i : ℕ) (h : Handle X) (file : X)
      → get_elem? hs i ≡ some h
      → available (set hs i (record h { file = file })) ≡ available hs
  available-set [] i h file e = refl
  available-set (g ∷ hs) zero h file e =
      ap (λ x. to_bit (x.taken == 0) + available hs) (sym (some_inj.0 e))
  available-set (g ∷ hs) (suc i) h file e =
      ap (λ n. to_bit (g.taken == 0) + n) (available-set hs i h file e)

  pub get_elem?-set :
      (hs : List (Handle X)) (i : ℕ) (h g : Handle X)
      → get_elem? hs i ≡ some h
      → get_elem? (set hs i g) i ≡ some g
  get_elem?-set [] i h g e = cc
  get_elem?-set (x ∷ hs) zero h g e = refl
  get_elem?-set (x ∷ hs) (suc i) h g e = get_elem?-set hs i h g e

  pub get_elem?_below :
      (hs : List (Handle X)) (i : ℕ) (h : Handle X) → get_elem? hs i ≡ some h → i < length hs
  get_elem?_below [] i h e = cc
  get_elem?_below (x ∷ hs) zero h e = omega arith
  get_elem?_below (x ∷ hs) (suc i) h e = omega (arith, get_elem?_below hs i h e)
