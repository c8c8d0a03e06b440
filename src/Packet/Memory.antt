-- ===== src/Packet/Memory.antt =====
-- Bytes and strings in a piece of memory, such as the shared buffer of get_packet.
use not.Prelude.{
  take-append, get_or, ap₂, true, false, ℕ, zero, suc, ◌+◌, ◌==◌, ◌≤◌, ◌<◌, ◌≡◌, ◌≢◌, refl, sym, ap,
  ◌∙◌, arith, if◌then◌else◌, List, [], ◌∷◌, ◌++◌, length, length-append, take, drop,
}

-- Bytes put over what is there, from a place on; a place behind the end takes nothing.
abbrev pub splice : ℕ → List ℕ → List ℕ → List ℕ
splice at [] memory = memory
splice at (b ∷ bs) [] = []
splice zero (b ∷ bs) (x ∷ memory) = b ∷ splice zero bs memory
splice (suc at) (b ∷ bs) (x ∷ memory) = x ∷ splice at (b ∷ bs) memory

-- The string that starts a piece of memory; without a terminator it is all of it.
abbrev pub c_string : List ℕ → List ℕ
c_string [] = []
c_string (x ∷ xs) = if x == 0 then [] else x ∷ c_string xs

pub length-splice :
    (at : ℕ) (bytes memory : List ℕ) → length (splice at bytes memory) ≡ length memory
length-splice at [] memory = refl
length-splice zero (b ∷ bs) [] = refl
length-splice (suc at) (b ∷ bs) [] = refl
length-splice zero (b ∷ bs) (x ∷ memory) = ap suc (length-splice zero bs memory)
length-splice (suc at) (b ∷ bs) (x ∷ memory) = ap suc (length-splice at (b ∷ bs) memory)

front-splice :
    (bytes memory : List ℕ)
    → length bytes ≤ length memory
    → splice zero bytes memory ≡ bytes ++ drop (length bytes) memory
front-splice [] memory h = refl
front-splice (b ∷ bs) [] h = absurd (omega arith)
front-splice (b ∷ bs) (x ∷ memory) h = ap (λ l. b ∷ l) (front-splice bs memory (omega arith))

-- What stands at the place where bytes were put.
pub drop-splice :
    (at : ℕ) (bytes memory : List ℕ)
    → at + length bytes ≤ length memory
    → drop at (splice at bytes memory) ≡ bytes ++ drop (length bytes) (drop at memory)
drop-splice at [] memory h = refl
drop-splice zero (b ∷ bs) memory h = front-splice (b ∷ bs) memory (omega arith)
drop-splice (suc at) (b ∷ bs) [] h = absurd (omega arith)
drop-splice (suc at) (b ∷ bs) (x ∷ memory) h = drop-splice at (b ∷ bs) memory (omega arith)

pub take-splice :
    (at : ℕ) (bytes memory : List ℕ)
    → at + length bytes ≤ length memory
    → take (length bytes) (drop at (splice at bytes memory)) ≡ bytes
take-splice at bytes memory h =
    ap (take (length bytes)) (drop-splice at bytes memory h)
    ∙ take-append bytes (drop (length bytes) (drop at memory))

splice-nil : (at : ℕ) (bytes : List ℕ) → splice at bytes [] ≡ []
splice-nil at [] = refl
splice-nil zero (b ∷ bs) = refl
splice-nil (suc at) (b ∷ bs) = refl

splice-suc :
    (at x : ℕ) (bytes memory : List ℕ)
    → splice (suc at) bytes (x ∷ memory) ≡ x ∷ splice at bytes memory
splice-suc at x [] memory = refl
splice-suc at x (b ∷ bs) memory = refl

front_twice :
    (bytes others memory : List ℕ)
    → splice (length bytes) others (splice zero bytes memory) ≡ splice zero (bytes ++ others) memory
front_twice [] others memory = refl
front_twice (b ∷ bs) others [] = splice-nil (length (b ∷ bs)) others
front_twice (b ∷ bs) others (x ∷ memory) =
    splice-suc (length bs) b others (splice zero bs memory)
    ∙ ap (λ l. b ∷ l) (front_twice bs others memory)

-- Bytes put behind bytes.
pub splice-splice :
    (at : ℕ) (bytes others memory : List ℕ)
    → splice (at + length bytes) others (splice at bytes memory)
      ≡ splice at (bytes ++ others) memory
splice-splice zero bytes others memory =
    let n : 0 + length bytes ≡ length bytes = omega arith in
    ap (λ i. splice i others (splice zero bytes memory)) n ∙ front_twice bytes others memory
splice-splice (suc at) bytes others [] =
    ap (splice (suc at + length bytes) others) (splice-nil (suc at) bytes)
    ∙ splice-nil (suc at + length bytes) others
    ∙ sym (splice-nil (suc at) (bytes ++ others))
splice-splice (suc at) bytes others (x ∷ memory) =
    let n : suc at + length bytes ≡ suc (at + length bytes) = omega arith in
    ap (λ i. splice i others (splice (suc at) bytes (x ∷ memory))) n
    ∙ ap (splice (suc (at + length bytes)) others) (splice-suc at x bytes memory)
    ∙ splice-suc (at + length bytes) x others (splice at bytes memory)
    ∙ ap (λ l. x ∷ l) (splice-splice at bytes others memory)
    ∙ sym (splice-suc at x (bytes ++ others) memory)

-- Bytes put behind a piece leave it alone.
pub take-splice_after :
    (n at : ℕ) (bytes memory : List ℕ) → n ≤ at → take n (splice at bytes memory) ≡ take n memory
take-splice_after zero at bytes memory h = refl
take-splice_after (suc n) zero bytes memory h = absurd (omega arith)
take-splice_after (suc n) (suc at) bytes [] h = ap (take (suc n)) (splice-nil (suc at) bytes)
take-splice_after (suc n) (suc at) bytes (x ∷ memory) h =
    ap (take (suc n)) (splice-suc at x bytes memory)
    ∙ ap (λ l. x ∷ l) (take-splice_after n at bytes memory (omega arith))

-- No byte of the text is a terminator.
abbrev pub IsText : List ℕ → Type 0
IsText [] = Unit
IsText (x ∷ xs) = (x ≢ 0) × IsText xs

-- A text whose terminator is inside a piece of memory is the string at its start.
pub c_string-take :
    (text memory : List ℕ)
    → IsText text
    → take (suc (length text)) memory ≡ text ++ 0 ∷ []
    → c_string memory ≡ text
c_string-take [] [] t e = refl
c_string-take [] (x ∷ memory) t e =
    let zero_first : (x == 0) ≡ true = ground (arith, ap (λ l. get_or l 0 1) e) in
    rw zero_first refl
c_string-take (c ∷ cs) [] t e = absurd (omega (arith, ap length e))
c_string-take (c ∷ cs) (x ∷ memory) t e =
    let same : x ≡ c = ap (λ l. get_or l 0 0) e in
    let nonzero : (x == 0) ≡ false = ground (arith, same, t.0) in
    rw nonzero (ap₂ (λ y l. y ∷ l) same (c_string-take cs memory t.1 (ap (drop 1) e)))

text_there :
    (at : ℕ) (text memory : List ℕ)
    → at + length text < length memory
    → take (suc (length text)) (drop at (splice at (text ++ 0 ∷ []) memory)) ≡ text ++ 0 ∷ []
text_there at text memory room =
    let size = length-append text (0 ∷ []) in
    let n : suc (length text) ≡ length (text ++ 0 ∷ []) = omega (arith, size) in
    ap (λ k. take k (drop at (splice at (text ++ 0 ∷ []) memory))) n
    ∙ take-splice at (text ++ 0 ∷ []) memory (omega (arith, size, room))

-- A text that was put with its terminator is the string there.
pub c_string-splice :
    (at : ℕ) (text memory : List ℕ)
    → IsText text
    → at + length text < length memory
    → c_string (drop at (splice at (text ++ 0 ∷ []) memory)) ≡ text
c_string-splice at text memory t room =
    c_string-take text (drop at (splice at (text ++ 0 ∷ []) memory)) t
      (text_there at text memory room)

-- It still is when bytes were put behind it.
pub c_string-splice_after :
    (at : ℕ) (text bytes memory : List ℕ)
    → IsText text
    → length text < length memory
    → length text < at
    → c_string (splice at bytes (splice 0 (text ++ 0 ∷ []) memory)) ≡ text
c_string-splice_after at text bytes memory t room behind =
    let first = splice 0 (text ++ 0 ∷ []) memory in
    c_string-take text (splice at bytes first) t (
      take-splice_after (suc (length text)) at bytes first (omega arith)
      ∙ text_there 0 text memory (omega (arith, room)))
