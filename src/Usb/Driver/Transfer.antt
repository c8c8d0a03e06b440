-- ===== src/Usb/Driver/Transfer.antt =====
-- The data stage of a control read: the host asks for a descriptor and takes it packet by packet.
use mathlib.Core.List.{append-nil}
use not.Prelude.{
  ℕ, zero, suc, ◌+◌, ◌-◌, ◌*◌, ◌%◌, ◌≤◌, min, ◌≡◌, ◌≢◌, ◌⊎◌, refl, sym, ap, ◌∙◌, subst, arith, leb,
  ltb, ◌==◌, ◌||◌, if◌then◌else◌, true, false, Bool-cases, inl, inr, List, [], ◌∷◌, ◌++◌, Option,
  none, some, length, take, drop, length-take, length-drop, bit_xor,
}
use not.Usb.Driver.{Usbfs, ep0_size}
use not.Usb.Driver.Irq.{usbhd_irq_handler}
use not.Usb.Driver.Apart.{Apart, Apart-trans}
use not.Usb.Driver.Packet.{in_token, Sends, Sends-Steps}

-- The host reads endpoint 0 until it has `want` bytes or a packet is short. `none`: a packet was not
-- ready, or came with the wrong toggle (`t` is the control register of a ready packet with the right
-- one), or the fuel is out.
pub host_in : ℕ → ℕ → ℕ → Usbfs → Option (List ℕ × Usbfs)
host_in zero want t u = none
host_in (suc fuel) want t u =
    let p = take (u.at 0).tx_len (u.ep 0) in
    if (u.at 0).tx_ctrl == t
    then (elim (usbhd_irq_handler in_token u) [
      | none ↦ none
      | some (u', calls) ↦
          if ltb (length p) ep0_size || leb want (length p)
          then some (p, u')
          else (elim (host_in fuel (want - length p) (4 - t) u') [
            | none ↦ none
            | some (ps, u'') ↦ some (p ++ ps, u'')
          ])
    ])
    else none

nil_of_length : (xs : List ℕ) → length xs ≡ 0 → xs ≡ []
nil_of_length [] h = refl
nil_of_length (x ∷ xs) h = absurd (omega arith)

-- What the host takes, and what it leaves.
abbrev pub Reads : ℕ → ℕ → ℕ → Usbfs → List ℕ → Type 0
Reads fuel want t u bytes =
    (u' : Usbfs) × (host_in fuel want t u ≡ some (bytes, u'))
    × Apart u u'
    × ((u'.at 0).rx_ctrl ≡ 0x04)

pub take_split : (n : ℕ) (xs : List ℕ) → take n xs ++ drop n xs ≡ xs
take_split zero xs = refl
take_split (suc n) [] = refl
take_split (suc n) (x ∷ xs) = ap (λ l. x ∷ l) (take_split n xs)

abbrev pub Complete : ℕ → List ℕ → List ℕ → Type 0
Complete want p rest =
    (length p ≤ 64)
    × ((length p ≡ 64) ⊎ (length rest ≡ 0))
    × (length p + length rest ≤ want)
    × ((length p + length rest ≡ want) ⊎ ((length p + length rest) % 64 ≢ 0))

module _ (fuel want t : ℕ) (u : Usbfs) (p rest : List ℕ) (h : Sends u p rest t)
    (c : Complete want p rest) where
  right : ((u.at 0).tx_ctrl == t) ≡ true
  right = ground (arith, h.ctrl)

  last_packet : length rest ≡ 0 → Reads (suc fuel) want t u (p ++ rest)
  unfolding host_in
  last_packet last =
      let (u', taken, sends, apart, ends) = Sends-Steps u p rest t h in
      let stop : (ltb (length p) 64 || leb want (length p)) ≡ true =
        ground (arith, c.0, c.1, c.2, c.3) in
      let whole : p ≡ p ++ rest =
        sym (append-nil p) ∙ ap (λ l. p ++ l) (sym (nil_of_length rest last)) in
      (u', rw (right, taken, h.now, stop) (ap (λ l. some (l, u')) whole), apart, ends last)

  another_packet :
      length rest ≢ 0
      → ((u' : Usbfs)
          → Sends u' (take 64 rest) (drop 64 rest) (bit_xor t 4)
          → Reads fuel (want - length p) (4 - t) u' rest)
      → Reads (suc fuel) want t u (p ++ rest)
  unfolding host_in
  another_packet some_left again =
      let (u', taken, sends, apart, ends) = Sends-Steps u p rest t h in
      let go : (ltb (length p) 64 || leb want (length p)) ≡ false =
        ground (arith, c.0, c.1, c.2, c.3) in
      let (u'', read, apart', ready') = again u' sends in
      (
        u'',
        rw (right, taken, h.now, go, read) (ap (λ l. some (l ++ rest, u'')) h.now),
        Apart-trans apart apart',
        ready',
      )

toggled : (t : ℕ) → (t ≡ 4) ⊎ (t ≡ 0) → (bit_xor t 4 ≡ 4 - t) × ((4 - t ≡ 4) ⊎ (4 - t ≡ 0))
toggled t (inl e) = rw e (refl, inr refl)
toggled t (inr e) = rw e (refl, inl refl)

full_or_last : (n m k : ℕ) → m ≡ min 64 n → k ≡ n - 64 → (m ≡ 64) ⊎ (k ≡ 0)
full_or_last n m k e f = elim (Bool-cases (leb 64 n)) [
  | inl long ↦ inl (ground arith)
  | inr short ↦ inr (ground arith)
]

pub split-Complete :
    (want : ℕ) (xs : List ℕ)
    → length xs ≤ want
    → (length xs ≡ want) ⊎ (length xs % 64 ≢ 0)
    → Complete want (take 64 xs) (drop 64 xs)
split-Complete want xs le done =
    let first = length-take 64 xs in
    let after = length-drop 64 xs in
    let whole : length (take 64 xs) + length (drop 64 xs) ≡ length xs = omega arith in
    (
      omega arith,
      full_or_last (length xs) (length (take 64 xs)) (length (drop 64 xs)) first after,
      omega arith,
      elim done [
        | inl e ↦ inl (whole ∙ e)
        | inr ne ↦ inr (λ e. ne (ap (λ k. k % 64) (sym whole) ∙ e))
      ],
    )

rest-Complete :
    (want : ℕ) (p rest : List ℕ)
    → Complete want p rest
    → length rest ≢ 0
    → Complete (want - length p) (take 64 rest) (drop 64 rest)
rest-Complete want p rest c some_left =
    let full : length p ≡ 64 = elim c.1 [ inl e ↦ e | inr e ↦ absurd (some_left e) ] in
    let le : length p + length rest ≤ want = c.2 in
    split-Complete (want - length p) rest (omega (arith, le))
      (elim c.3 [ inl e ↦ inl (omega arith) | inr ne ↦ inr (λ e. ne (omega arith)) ])

pub host_in_lem :
    (fuel want t : ℕ) (u : Usbfs) (p rest : List ℕ)
    → Sends u p rest t
    → (t ≡ 4) ⊎ (t ≡ 0)
    → Complete want p rest
    → length rest ≤ 64 * fuel
    → Reads (suc fuel) want t u (p ++ rest)
host_in_lem zero want t u p rest h control c enough =
    last_packet zero want t u p rest h c (omega arith)
host_in_lem (suc fuel) want t u p rest h control c enough = elim (Bool-cases (length rest == 0)) [
  | inl last ↦ last_packet (suc fuel) want t u p rest h c (ground arith)
  | inr more ↦
      let some_left : length rest ≢ 0 = λ e. absurd (ground arith) in
      another_packet (suc fuel) want t u p rest h c some_left (λ u' sends.
        let (flip, control') = toggled t control in
        subst (Reads (suc fuel) (want - length p) (4 - t) u') (take_split 64 rest) (
          host_in_lem fuel (want - length p) (4 - t) u' (take 64 rest) (drop 64 rest)
            (subst (Sends u' (take 64 rest) (drop 64 rest)) flip sends) control'
            (rest-Complete want p rest c some_left) (omega (arith, length-drop 64 rest))))
]
