-- ===== src/Usb/Serial/Untouched.antt =====
-- The blocking reads of usb_serial.c change nothing of what is sent.
use not.Prelude.{
  ℕ, zero, suc, ◌==◌, ◌≡◌, refl, ◌∙◌, subst, List, [], ◌∷◌, Option, none, some, Option-cases, inl,
  inr, either_way,
}
use not.Usb.Serial.{
  Serial, connected, on_ep2_out, read, available, blocking_read_u8, blocking_read_bytes,
}

-- The transmit ring, the packets sent and the state of the device are the same.
abbrev pub IsUntouched : Serial → Serial → Type 0
IsUntouched s s' = (s'.tx ≡ s.tx) × (s'.sent ≡ s.sent) × (connected s' ≡ connected s)

abbrev After {ℓ} : {A : Type ℓ} → Serial → Option (A × List (List ℕ) × Serial) → Type 0
After s none = Unit
After s (some (a, ps, s')) = IsUntouched s s'

later :
    (s s₁ : Serial) (o : Option (ℕ × List (List ℕ) × Serial))
    → IsUntouched s s₁
    → After s₁ o
    → After s o
later s s₁ none u a = tt
later s s₁ (some (b, ps, s')) (tx, sent, status) (tx', sent', status') =
    (tx' ∙ tx, sent' ∙ sent, status' ∙ status)

later_all :
    (s s₁ : Serial) (b : ℕ) (o : Option (List ℕ × List (List ℕ) × Serial))
    → IsUntouched s s₁
    → After s₁ o
    → After s (elim o [ none ↦ none | some (bs, ps, s') ↦ some (b ∷ bs, ps, s') ])
later_all s s₁ b none u a = tt
later_all s s₁ b (some (bs, ps, s')) (tx, sent, status) (tx', sent', status') =
    (tx' ∙ tx, sent' ∙ sent, status' ∙ status)

read_lem : (s : Serial) → IsUntouched s (read s).1
unfolding read connected
read_lem s =
    either_way (λ (r : ℕ × Serial). IsUntouched s r.1) (s.rx.head == s.rx.tail) (refl, refl, refl)
      (refl, refl, refl)

read_u8_lem : (ps : List (List ℕ)) (s : Serial) → After s (blocking_read_u8 ps s)
unfolding blocking_read_u8 on_ep2_out connected
read_u8_lem [] s = tt
read_u8_lem (p ∷ ps) s =
    let s' = on_ep2_out s p in
    either_way (After s) (available s' == 0)
      (later s s' (blocking_read_u8 ps s') (refl, refl, refl) (read_u8_lem ps s')) (read_lem s')

read_bytes_lem :
    (len : ℕ) (ps : List (List ℕ)) (s : Serial) → After s (blocking_read_bytes len ps s)
unfolding blocking_read_bytes
read_bytes_lem zero ps s = (refl, refl, refl)
read_bytes_lem (suc len) ps s = elim (Option-cases (blocking_read_u8 ps s)) [
  | inl e ↦ rw (blocking_read_bytes, e) tt
  | inr ((b, ps', s'), e) ↦
      let u : IsUntouched s s' = subst (After s) e (read_u8_lem ps s) in
      let a = later_all s s' b (blocking_read_bytes len ps' s') u (read_bytes_lem len ps' s') in
      rw (blocking_read_bytes, e) a
]

-- What `usbSerial_blocking_read_bytes` leaves alone.
pub reads_keep :
    (len : ℕ) (ps : List (List ℕ)) (s : Serial) {bs : List ℕ} {ps' : List (List ℕ)} {s' : Serial}
    → blocking_read_bytes len ps s ≡ some (bs, ps', s')
    → IsUntouched s s'
reads_keep len ps s e = subst (After s) e (read_bytes_lem len ps s)
