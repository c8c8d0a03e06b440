-- ===== src/Usb/Serial/Receive.antt =====
-- What the host sends and what the firmware reads of usb_serial.c.
use mathlib.Core.List.{append-nil, append_assoc}
use not.Prelude.{
  false, ℕ, zero, suc, ◌<◌, ◌≤◌, ◌==◌, ◌≡◌, ◌≢◌, refl, sym, ap, ◌∙◌, arith, List, [], ◌∷◌, ◌++◌,
  some, Bool-cases, inl, inr, take, length, length-append, take_all, replicate, drop,
}
use not.Usb.Ring.{Ring, count, free, ring_count}
use not.Usb.Ring.Queue.{
  IsRing, contents, contents-put_all, contents-drop_front, drop_front-IsRing, length-contents,
  count_facts,
}
use not.Usb.Serial.{Serial, on_ep2_out, read, available, blocking_read_u8, blocking_read_bytes}

-- The bytes that the host sends, in the order of the packets.
abbrev pub stream : List (List ℕ) → List ℕ
stream [] = []
stream (p ∷ ps) = p ++ stream ps

-- What was received and not read.
abbrev pub unread : Serial → List ℕ
unread s = contents s.rx

-- A packet goes behind the unread bytes; what finds the ring full is dropped.
pub on_ep2_out_lem :
    (s : Serial) (packet : List ℕ)
    → IsRing s.rx
    → (unread (on_ep2_out s packet) ≡ unread s ++ take (free s.rx) packet)
      × IsRing (on_ep2_out s packet).rx
unfolding on_ep2_out
on_ep2_out_lem s packet v = let facts = contents-put_all s.rx packet 0 v in (facts.0, facts.2)

count_zero : (r : Ring) → IsRing r → r.head ≡ r.tail → count r ≡ 0
unfolding ring_count
count_zero r v e = ground arith

count_nonzero : (r : Ring) → IsRing r → r.head ≢ r.tail → count r ≢ 0
unfolding ring_count
count_nonzero r v e = ground arith

read_lem :
    (s : Serial)
    → IsRing s.rx
    → available s ≢ 0
    → (unread s ≡ (read s).0 ∷ unread (read s).1) × IsRing (read s).1.rx
unfolding read available
read_lem s v some_left = elim (Bool-cases (s.rx.head == s.rx.tail)) [
  | inl e ↦ absurd (some_left (count_zero s.rx v (ground (arith, e))))
  | inr e ↦
      let facts = contents-drop_front s.rx v some_left in
      let valid = drop_front-IsRing s.rx v in rw e (facts, valid)
]

available_lem : (s : Serial) → available s ≡ length (unread s)
unfolding available
available_lem s = sym (length-contents s.rx)

stream-append : (ps qs : List (List ℕ)) → stream (ps ++ qs) ≡ stream ps ++ stream qs
stream-append [] qs = refl
stream-append (p ∷ ps) qs =
    ap (λ l. p ++ l) (stream-append ps qs) ∙ sym (append_assoc p (stream ps) (stream qs))

stream-replicate : (n : ℕ) → stream (replicate n []) ≡ []
stream-replicate zero = refl
stream-replicate (suc n) = stream-replicate n

-- All that is unread or still to come, in order.
abbrev pub incoming : Serial → List (List ℕ) → List ℕ
incoming s ps = unread s ++ stream ps

-- A packet that fits changes nothing of what is incoming.
incoming-on_ep2_out :
    (s : Serial) (p : List ℕ) (ps : List (List ℕ))
    → IsRing s.rx
    → length (incoming s (p ∷ ps)) < 2048
    → incoming (on_ep2_out s p) ps ≡ incoming s (p ∷ ps)
incoming-on_ep2_out s p ps v fits =
    let facts = count_facts s.rx v in
    let short : length p ≤ free s.rx = omega (
      arith,
      facts.1,
      length-append (unread s) (p ++ stream ps),
      length-append p (stream ps),
      length-contents s.rx,
    ) in
    ap (λ l. l ++ stream ps)
      ((on_ep2_out_lem s p v).0 ∙ ap (λ l. unread s ++ l) (take_all (free s.rx) p short))
    ∙ append_assoc (unread s) p (stream ps)

-- What a blocking read of one byte leaves: the first byte of what was incoming is its result.
record ReadsNext (s : Serial) (qs : List (List ℕ)) (k : ℕ) : Type 0 where
  byte : ℕ
  left : List (List ℕ)
  looks : ℕ
  after : Serial
  reads :
      blocking_read_u8 (qs ++ replicate (suc k) []) s
      ≡ some (byte, left ++ replicate looks [], after)
  enough : k ≤ looks
  first : incoming s qs ≡ byte ∷ incoming after left
  valid : IsRing after.rx

reads_now :
    (s : Serial) (p : List ℕ) (qs : List (List ℕ)) (k : ℕ) (rest left : List (List ℕ))
    → IsRing s.rx
    → length (incoming s (p ∷ left)) < 2048
    → (available (on_ep2_out s p) == 0) ≡ false
    → (blocking_read_u8 (p ∷ rest) s
        ≡ some ((read (on_ep2_out s p)).0, rest, (read (on_ep2_out s p)).1))
      × (incoming s (p ∷ left)
          ≡ (read (on_ep2_out s p)).0 ∷ incoming (read (on_ep2_out s p)).1 left)
      × IsRing (read (on_ep2_out s p)).1.rx
unfolding blocking_read_u8
reads_now s p qs k rest left v fits e =
    let valid = (on_ep2_out_lem s p v).1 in
    let facts = read_lem (on_ep2_out s p) valid (ground (arith, e)) in
    (
      rw e refl,
      sym (incoming-on_ep2_out s p left v fits) ∙ ap (λ l. l ++ stream left) facts.0,
      facts.1,
    )

reads_next :
    (qs : List (List ℕ)) (k : ℕ) (s : Serial)
    → IsRing s.rx
    → 0 < length (incoming s qs)
    → length (incoming s qs) < 2048
    → ReadsNext s qs k
unfolding blocking_read_u8
reads_next [] k s v some_left fits = elim (Bool-cases (available (on_ep2_out s []) == 0)) [
  | inl e ↦
      let same = incoming-on_ep2_out s [] [] v fits in
      let zero_left : available (on_ep2_out s []) ≡ 0 = ground (arith, e) in
      absurd (
        omega (
          arith,
          zero_left,
          available_lem (on_ep2_out s []),
          length-append (unread (on_ep2_out s [])) [],
          ap length same,
        ))
  | inr e ↦
      let (now, first, valid) = reads_now s [] [] k (replicate k []) [] v fits e in
      record {
        byte = (read (on_ep2_out s [])).0;
        left = [];
        looks = k;
        after = (read (on_ep2_out s [])).1;
        reads = now;
        enough = omega arith;
        first = first;
        valid = valid;
      }
]
reads_next (p ∷ qs) k s v some_left fits = elim (Bool-cases (available (on_ep2_out s p) == 0)) [
  | inl e ↦
      let same = incoming-on_ep2_out s p qs v fits in
      let later =
        reads_next qs k (on_ep2_out s p) (on_ep2_out_lem s p v).1 (omega (arith, ap length same))
          (omega (arith, ap length same)) in
      record {
        byte = later.byte;
        left = later.left;
        looks = later.looks;
        after = later.after;
        reads = rw e later.reads;
        enough = later.enough;
        first = sym same ∙ later.first;
        valid = later.valid;
      }
  | inr e ↦
      let (now, first, valid) = reads_now s p [] k (qs ++ replicate (suc k) []) qs v fits e in
      record {
        byte = (read (on_ep2_out s p)).0;
        left = qs;
        looks = suc k;
        after = (read (on_ep2_out s p)).1;
        reads = now;
        enough = omega arith;
        first = first;
        valid = valid;
      }
]

bytes_next :
    (len : ℕ) (ps : List (List ℕ)) (s : Serial) {b : ℕ} {ps' ps'' : List (List ℕ)} {s' s'' : Serial}
    {bs : List ℕ}
    → blocking_read_u8 ps s ≡ some (b, ps', s')
    → blocking_read_bytes len ps' s' ≡ some (bs, ps'', s'')
    → blocking_read_bytes (suc len) ps s ≡ some (b ∷ bs, ps'', s'')
unfolding blocking_read_bytes
bytes_next len ps s e e' = rw (blocking_read_bytes, e, e') refl

-- A read of bytes off a stream: the bytes are the first ones, the others are still to come.
pub record ReadsAll (len k : ℕ) (s : Serial) (qs : List (List ℕ)) : Type 0 where
  pub left : List (List ℕ)
  pub after : Serial
  pub reads :
      blocking_read_bytes len (qs ++ replicate k []) s
      ≡ some (take len (incoming s qs), left, after)
  pub others : incoming after left ≡ drop len (incoming s qs)
  pub valid : IsRing after.rx

-- `usbSerial_blocking_read_bytes` ends once its bytes are there, with the bytes in the order in
-- which the host sent them, however they were cut into packets, and loses none: what it does not
-- read stays to be read. The condition is that the ring is well formed, that `len` bytes are
-- received or on their way, and that all of these are at most the 2047 that the ring takes. After
-- the packets, `len` looks at the ring are enough.
pub blocking_read_bytes_lem :
    (len k : ℕ) (qs : List (List ℕ)) (s : Serial)
    → IsRing s.rx
    → len ≤ length (incoming s qs)
    → length (incoming s qs) < 2048
    → len ≤ k
    → ReadsAll len k s qs
unfolding blocking_read_bytes
blocking_read_bytes_lem zero k qs s v there fits looks = record {
  left = qs ++ replicate k [];
  after = s;
  reads = refl;
  others =
      ap (λ l. unread s ++ l)
        (stream-append qs (replicate k [])
          ∙ ap (λ l. stream qs ++ l) (stream-replicate k)
          ∙ append-nil (stream qs));
  valid = v;
}
blocking_read_bytes_lem (suc len) zero qs s v there fits looks = absurd (omega arith)
blocking_read_bytes_lem (suc len) (suc k) qs s v there fits looks =
    let next = reads_next qs k s v (omega arith) fits in
    let more = ap length next.first in
    let later =
      blocking_read_bytes_lem len next.looks next.left next.after next.valid (omega (arith, more))
        (omega (arith, more)) (omega (arith, next.enough)) in
    record {
      left = later.left;
      after = later.after;
      reads =
          bytes_next len (qs ++ replicate (suc k) []) s next.reads later.reads
          ∙ ap (λ l. some (take (suc len) l, later.left, later.after)) (sym next.first);
      others = later.others ∙ ap (λ l. drop (suc len) l) (sym next.first);
      valid = later.valid;
    }
