-- ===== src/Usb/Ring/Queue.antt =====
-- A ring of usb_serial.c is a first-in first-out queue of at most 2047 bytes.
use mathlib.Core.List.{append-nil, append_assoc}
use not.Prelude.{
  take-nil, ℕ, zero, suc, ◌+◌, ◌%◌, ◌<◌, ◌≡◌, ◌≢◌, refl, sym, ap, ap₂, ◌∙◌, arith, List, [], ◌∷◌,
  ◌++◌, ◌==◌, Bool-cases, inl, inr, get_or, set, length, length-set, get_or-set_self, get_or-set_ne,
  take, min,
}
use not.Usb.Ring.{
  Ring, ring_size, ring_count, ring_free, count, free, put, front, drop_front, put_all,
}

pub record IsRing (r : Ring) : Type 0 where
  pub sized : length r.buf ≡ 2048
  pub head_in : r.head < 2048
  pub tail_in : r.tail < 2048

-- The `n` bytes from index `t` on, round the end.
abbrev pub window : List ℕ → ℕ → ℕ → List ℕ
window buf t zero = []
window buf t (suc n) = get_or buf t 0 ∷ window buf ((t + 1) % ring_size) n

-- What the ring holds, oldest first.
unfoldable pub contents : Ring → List ℕ
contents r = window r.buf r.tail (count r)

length-window : (buf : List ℕ) (t n : ℕ) → length (window buf t n) ≡ n
length-window buf t zero = refl
length-window buf t (suc n) = ap suc (length-window buf ((t + 1) % ring_size) n)

-- Bytes and free places make up 2047.
pub count_facts :
    (r : Ring)
    → IsRing r
    → (count r < 2048) × (free r + count r ≡ 2047) × ((r.tail + count r) % 2048 ≡ r.head)
unfolding ring_count ring_free
count_facts r v = ground arith

pub length-contents : (r : Ring) → length (contents r) ≡ count r
unfolding contents
length-contents r = length-window r.buf r.tail (count r)

pub contents_none : (r : Ring) → count r ≡ 0 → contents r ≡ []
unfolding contents
contents_none r e = ap (window r.buf r.tail) e

window_snoc :
    (buf : List ℕ) (t n : ℕ)
    → t < 2048
    → window buf t (suc n) ≡ window buf t n ++ get_or buf ((t + n) % ring_size) 0 ∷ []
window_snoc buf t zero h =
    let e : t ≡ (t + 0) % ring_size = omega arith in ap (λ i. get_or buf i 0 ∷ []) e
window_snoc buf t (suc n) h =
    let e : ((t + 1) % ring_size + n) % ring_size ≡ (t + suc n) % ring_size = omega arith in
    ap (λ l. get_or buf t 0 ∷ l)
      (window_snoc buf ((t + 1) % ring_size) n (omega arith)
        ∙ ap (λ i. window buf ((t + 1) % ring_size) n ++ get_or buf i 0 ∷ []) e)

-- A write just behind the window leaves it alone.
window-set :
    (buf : List ℕ) (t n i v : ℕ)
    → t < 2048
    → n < 2048
    → i ≡ (t + n) % 2048
    → window (set buf i v) t n ≡ window buf t n
window-set buf t zero i v ht hn e = refl
window-set buf t (suc n) i v ht hn e =
    let apart : i ≢ t = λ same. absurd (omega arith) in
    let rest =
      window-set buf ((t + 1) % ring_size) n i v (omega arith) (omega arith) (omega arith) in
    rw (get_or-set_ne buf i t v 0 apart, rest) refl

put-IsRing : (r : Ring) (b : ℕ) → IsRing r → IsRing (put r b)
unfolding put
put-IsRing r b v = record {
  sized = length-set r.buf r.head b ∙ v.sized;
  head_in = omega arith;
  tail_in = v.tail_in;
}

pub drop_front-IsRing : (r : Ring) → IsRing r → IsRing (drop_front r)
unfolding drop_front
drop_front-IsRing r v = record { sized = v.sized; head_in = v.head_in; tail_in = omega arith }

count-put : (r : Ring) (b : ℕ) → IsRing r → free r ≢ 0 → count (put r b) ≡ suc (count r)
unfolding put
count-put r b v room = omega (arith, count_facts r v, count_facts (put r b) (put-IsRing r b v))

-- A byte goes to the end of the queue.
contents-put :
    (r : Ring) (b : ℕ) → IsRing r → free r ≢ 0 → contents (put r b) ≡ contents r ++ b ∷ []
unfolding contents put
contents-put r b v room =
    let facts = count_facts r v in
    let buf' = set r.buf r.head b in
    let place : (r.tail + count r) % ring_size ≡ r.head = facts.2 in
    let same = window-set r.buf r.tail (count r) r.head b v.tail_in facts.0 (sym place) in
    let last : get_or buf' ((r.tail + count r) % ring_size) 0 ≡ b =
      ap (λ i. get_or buf' i 0) place
      ∙ get_or-set_self r.buf r.head b 0 (omega (arith, v.sized, v.head_in)) in
    ap (window buf' r.tail) (count-put r b v room)
    ∙ window_snoc buf' r.tail (count r) v.tail_in
    ∙ ap₂ (λ xs x. xs ++ x ∷ []) same last

-- The queue of a ring with `suc n` bytes starts with the byte at the tail.
pub contents-drop_front :
    (r : Ring) → IsRing r → count r ≢ 0 → contents r ≡ front r ∷ contents (drop_front r)
unfolding contents drop_front front
contents-drop_front r v some_left =
    let facts = count_facts r v in
    let less : count r ≡ suc (count (drop_front r)) =
      omega (arith, facts, count_facts (drop_front r) (drop_front-IsRing r v)) in
    ap (window r.buf r.tail) less

-- A burst of bytes is taken in order, up to the free places; the bytes after those are dropped.
-- The count returned is the number of bytes taken.
pub contents-put_all :
    (r : Ring) (bs : List ℕ) (written : ℕ)
    → IsRing r
    → (contents (put_all r bs written).0 ≡ contents r ++ take (free r) bs)
      × ((put_all r bs written).1 ≡ written + min (free r) (length bs))
      × IsRing (put_all r bs written).0
unfolding put_all
contents-put_all r [] written v = (
  sym (append-nil (contents r)) ∙ ap (λ xs. contents r ++ xs) (sym (take-nil (free r))),
  omega arith,
  v,
)
contents-put_all r (b ∷ bs) written v = elim (Bool-cases (free r == 0)) [
  | inl full ↦
      let none_left : free r ≡ 0 = ground arith in
      rw full (
        sym (append-nil (contents r)) ∙ ap (λ n. contents r ++ take n (b ∷ bs)) (sym none_left),
        omega arith,
        v,
      )
  | inr some_left ↦
      let room : free r ≢ 0 = ground arith in
      let (holds, taken, valid) = contents-put_all (put r b) bs (written + 1) (put-IsRing r b v) in
      let less : free r ≡ suc (free (put r b)) =
        omega (
          arith,
          count-put r b v room,
          count_facts r v,
          count_facts (put r b) (put-IsRing r b v),
        ) in
      rw some_left (
        holds
            ∙ ap (λ xs. xs ++ take (free (put r b)) bs) (contents-put r b v room)
            ∙ append_assoc (contents r) (b ∷ []) (take (free (put r b)) bs)
            ∙ ap (λ n. contents r ++ take n (b ∷ bs)) (sym less),
        omega (arith, taken, less),
        valid,
      )
]
