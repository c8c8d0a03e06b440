-- ===== src/Usb/Serial/Transmit.antt =====
-- What the firmware writes and what goes out of usb_serial.c.
use mathlib.Core.List.{append-nil, append_assoc}
use not.Prelude.{
  ℕ, zero, suc, ◌+◌, ◌-◌, ◌≤◌, ◌==◌, ◌≡◌, ◌≢◌, refl, sym, ap, ◌∙◌, arith, min, List, [], ◌∷◌, ◌++◌,
  true, false, length, if◌then◌else◌, ltb,
}
use not.Usb.Ring.{Ring, count, front, drop_front}
use not.Usb.Ring.Queue.{IsRing, contents, contents-drop_front, drop_front-IsRing, length-contents}
use not.Usb.Serial.{Serial, connected, data_up, pop_bytes, tx_kick, pack_size}

-- The bytes of the packets, in order.
abbrev pub joined : List (List ℕ) → List ℕ
joined [] = []
joined (p ∷ ps) = p ++ joined ps

pub joined-snoc : (ps : List (List ℕ)) (p : List ℕ) → joined (ps ++ p ∷ []) ≡ joined ps ++ p
joined-snoc [] p = append-nil p
joined-snoc (q ∷ ps) p = ap (λ l. q ++ l) (joined-snoc ps p) ∙ sym (append_assoc q (joined ps) p)

-- What endpoint 3 was given, and after it what waits in the ring.
abbrev pub outgoing : Serial → List ℕ
outgoing s = joined s.sent ++ contents s.tx

pop_bytes_lem :
    (n : ℕ) (r : Ring)
    → IsRing r
    → n ≤ count r
    → ((pop_bytes n r).0 ++ contents (pop_bytes n r).1 ≡ contents r)
      × (count (pop_bytes n r).1 + n ≡ count r)
      × IsRing (pop_bytes n r).1
unfolding pop_bytes
pop_bytes_lem zero r v h = (refl, omega arith, v)
pop_bytes_lem (suc n) r v h =
    let queue = contents-drop_front r v (omega arith) in
    let valid = drop_front-IsRing r v in
    let less : suc (count (drop_front r)) ≡ count r =
      omega (arith, ap length queue, length-contents r, length-contents (drop_front r)) in
    let (same, fewer, valid') = pop_bytes_lem n (drop_front r) valid (omega (arith, less)) in
    (ap (λ l. front r ∷ l) same ∙ sym queue, omega (arith, fewer, less), valid')

-- What `tx_kick` does when it sends.
pub record Kicks (s s' : Serial) : Type 0 where
  pub keeps : outgoing s' ≡ outgoing s
  pub left : count s'.tx ≡ count s.tx - 64
  pub busy : s'.ep3_busy ≡ true
  pub status : connected s' ≡ connected s
  pub valid : IsRing s'.tx
  pub received : s'.rx ≡ s.rx

pub kick_sends :
    (s : Serial)
    → IsRing s.tx
    → connected s ≡ true
    → s.ep3_busy ≡ false
    → count s.tx ≢ 0
    → Kicks s (tx_kick s)
unfolding tx_kick data_up connected
kick_sends s v c b some_left =
    let n = if ltb pack_size (count s.tx) then pack_size else count s.tx in
    let size : n ≡ min 64 (count s.tx) = ground arith in
    let (same, fewer, valid) = pop_bytes_lem n s.tx v (omega (arith, size)) in
    let nonzero : (count s.tx == 0) ≡ false = ground arith in
    let kicked : tx_kick s ≡ record s {
      tx = (pop_bytes n s.tx).1;
      ep3_busy = true;
      sent = s.sent ++ (pop_bytes n s.tx).0 ∷ [];
    } =
      rw (tx_kick, c, b, nonzero) refl in
    rw kicked (record {
      keeps =
          ap (λ l. l ++ contents (pop_bytes n s.tx).1) (joined-snoc s.sent (pop_bytes n s.tx).0)
          ∙ append_assoc (joined s.sent) (pop_bytes n s.tx).0 (contents (pop_bytes n s.tx).1)
          ∙ ap (λ l. joined s.sent ++ l) same;
      left = omega (arith, fewer, size);
      busy = refl;
      status = refl;
      valid = valid;
      received = refl;
    })
