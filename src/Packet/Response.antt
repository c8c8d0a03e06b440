-- ===== src/Packet/Response.antt =====
-- The response of get_packet to RECV_RUN.
use not.Prelude.{
  subst, ap₂, ℕ, ◌+◌, ◌≤◌, ◌≡◌, refl, sym, ◌∙◌, arith, true, false, Bool, if◌then◌else◌, List, [],
  ◌++◌, length, length-append,
}
use mathlib.Core.List.{append-nil, append_assoc}
use not.Usb.Serial.{bytes_of}
use not.Vm.State.{Vm, ok, register_count, pile_size}
use not.Vm.Opcodes.{writes_registers, writes_pile}
use not.Packet.{Chip, Board, Code, ◌>>◌, pure, send_u32, send_bytes}
use not.Packet.Program.{send_machine_state, response_len, send_state}
use not.Packet.Served.{Wire, andthen, Carries, send_bytes-Reads}
use not.Packet.Chain.{Does, after_send_u32}

-- What the response holds behind its two words.
abbrev pub payload : List ℕ → Vm → List ℕ
payload program s =
    (if writes_registers program then s.registers else [])
    ++ (if writes_pile program then bytes_of s.rp ++ s.pile_r else [])

five : (out a b c d : List ℕ) → (((out ++ a) ++ b) ++ c) ++ d ≡ out ++ (a ++ (b ++ (c ++ d)))
five out a b c d =
    append_assoc ((out ++ a) ++ b) c d
    ∙ append_assoc (out ++ a) b (c ++ d)
    ∙ append_assoc out a (b ++ (c ++ d))

length-chosen :
    (t : Bool) (bytes : List ℕ) (n : ℕ)
    → length bytes ≡ n
    → length (if t then bytes else []) ≡ (if t then n else 0)
length-chosen true bytes n e = e
length-chosen false bytes n e = refl

-- The two arrays are as the caller declares them.
pub length-payload :
    (program : List ℕ) (s : Vm)
    → length s.registers ≡ register_count
    → length s.pile_r ≡ pile_size
    → length (payload program s) ≡ response_len program
unfolding response_len bytes_of
length-payload program s r p =
    let pile = length-append (bytes_of s.rp) s.pile_r in
    length-append (if writes_registers program then s.registers else [])
      (if writes_pile program then bytes_of s.rp ++ s.pile_r else [])
    ∙ ap₂ (λ x y. x + y) (length-chosen (writes_registers program) s.registers register_count r)
        (length-chosen (writes_pile program) (bytes_of s.rp ++ s.pile_r) (pile_size + 4)
          (omega (arith, pile, p)))

module _ {S L F D I : Type 0} (c : Chip S L F D I) (w : Wire c) where
  chosen-Does :
      (t : Bool) (m : Code (Board S L F D I) (Unit {0})) (b : Board S L F D I)
      (bytes inp out : List ℕ)
      → Carries c w b inp out
      → Does c w m b (λ l. ok (tt, record b { link = l })) inp (out ++ bytes)
      → Does c w
          (if t then m else pure tt)
          b
          (λ l. ok (tt, record b { link = l }))
          inp
          (out ++ (if t then bytes else []))
  unfolding pure
  chosen-Does true m b bytes inp out h d = d
  chosen-Does false m b bytes inp out h d = (b.link, refl, rw (append-nil out) h.1)

  pile :
      (b : Board S L F D I) (s : Vm) (inp out : List ℕ)
      → 256 ≤ w.limit
      → length s.pile_r ≡ pile_size
      → Carries c w b inp out
      → Does c w
          (send_u32 c s.rp >> send_bytes c s.pile_r)
          b
          (λ l. ok (tt, record b { link = l }))
          inp
          (out ++ (bytes_of s.rp ++ s.pile_r))
  pile b s inp out room p h = after_send_u32 c w _ b s.rp (omega (arith, room)) h (λ s₁ h₁.
      let (s₂, e₂, h₂) =
        send_bytes-Reads c w (record b { link = s₁ }) s.pile_r inp (out ++ bytes_of s.rp)
          (omega (arith, room, p)) h₁ in
      (s₂, e₂, rw (sym (append_assoc out (bytes_of s.rp) s.pile_r)) h₂))

  pub send_state_lem :
      (program : List ℕ) (s : Vm) (b : Board S L F D I) (inp out : List ℕ)
      → 256 ≤ w.limit
      → length s.registers ≡ register_count
      → length s.pile_r ≡ pile_size
      → Carries c w b inp out
      → Does c w
          (send_state c program s)
          b
          (λ l. ok (tt, record b { link = l }))
          inp
          (out
            ++ (bytes_of (response_len program)
                ++ (bytes_of send_machine_state ++ payload program s)))
  unfolding send_state
  send_state_lem program s b inp out room r p h =
      after_send_u32 c w _ b (response_len program) (omega (arith, room)) h (λ s₁ h₁.
        after_send_u32 c w _ _ send_machine_state (omega (arith, room)) h₁ (λ s₂ h₂.
          let out₂ = (out ++ bytes_of (response_len program)) ++ bytes_of send_machine_state in
          let registers = if writes_registers program then s.registers else [] in
          let (s₃, e₃, h₃) =
            chosen-Does (writes_registers program) (send_bytes c s.registers)
              (record b { link = s₂ }) s.registers inp out₂ h₂
              (send_bytes-Reads c w (record b { link = s₂ }) s.registers inp out₂
                (omega (arith, room, r)) h₂) in
          let (s₄, e₄, h₄) =
            chosen-Does (writes_pile program) (send_u32 c s.rp >> send_bytes c s.pile_r)
              (record b { link = s₃ }) (bytes_of s.rp ++ s.pile_r) inp (out₂ ++ registers) (h.0, h₃)
              (pile (record b { link = s₃ }) s inp (out₂ ++ registers) room p (h.0, h₃)) in
          let rest = if writes_pile program then bytes_of s.rp ++ s.pile_r else [] in
          (
            s₄,
            andthen _ _ e₃ e₄,
            subst (λ o. w.Holds s₄ inp o)
                (five out (bytes_of (response_len program)) (bytes_of send_machine_state) registers
                  rest)
                h₄,
          )))
