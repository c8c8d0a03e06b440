-- ===== src/Packet/RunRequest.antt =====
-- RECV_RUN of get_packet, from the request to the response.
mod Tests
use not.Prelude.{
  zero, suc, subst, ap₂, ℕ, ◌+◌, ◌^◌, ◌<◌, ◌≤◌, ◌≡◌, refl, sym, ap, ◌∙◌, arith, true, false, Bool,
  Bool-cases, inl, inr, if◌then◌else◌, List, [], ◌∷◌, ◌++◌, length, length-append, replicate,
}
use mathlib.Core.List.{append-nil, append_assoc}
use not.Usb.Serial.{bytes_of}
use not.Vm.State.{Vm, ok, fault, waiting, register_count, pile_size}
use not.Vm.Opcodes.{reads_registers, writes_registers, reads_pile, writes_pile}
use not.Vm.Run.{run}
use not.Hardware.{Trace}
use not.Vm.Returns.{AllBelow, Returns, returns}
use not.Vm.Invariant.{IsValid}
use not.Vm.Invariant.Loop.{run-IsValid}
use not.Packet.{
  mega_size, Chip, Board, Code, ◌>>=◌, ◌>>◌, pure, send_u32, send_bytes, recv_bytes, recv_u32,
}
use not.Packet.Response.{payload, length-payload, send_state_lem}
use not.Packet.Memory.{splice}
use not.Packet.Commands.{command_of}
use not.Packet.Program.{
  send_machine_state, response_len, load_registers, load_pile, started, run_program, send_state,
  recv_run,
}
use not.Packet.Dispatch.{handle, serve, get_packet}
use not.Packet.Served.{
  Wire, andthen, Carries, Reads, recv_bytes-Reads, get_mega_lem, send_u32-Reads, send_bytes-Reads,
}
use not.Packet.Chain.{
  Does, after, after_ok, after_u8, after_u32, after_into, after_send, after_send_u32,
}

AllBelow-splice :
    (n at : ℕ) (bytes memory : List ℕ)
    → AllBelow n bytes
    → AllBelow n memory
    → AllBelow n (splice at bytes memory)
AllBelow-splice n at [] memory h h' = h'
AllBelow-splice n zero (b ∷ bs) [] h h' = tt
AllBelow-splice n (suc at) (b ∷ bs) [] h h' = tt
AllBelow-splice n zero (b ∷ bs) (x ∷ memory) h h' = (h.0, AllBelow-splice n zero bs memory h.1 h'.1)
AllBelow-splice n (suc at) (b ∷ bs) (x ∷ memory) h h' =
    (h'.0, AllBelow-splice n at (b ∷ bs) memory h h'.1)

-- What the host sends behind a program, and what comes after it.
abbrev pub sent_with : List ℕ → List ℕ → ℕ → List ℕ → List ℕ → List ℕ
sent_with program registers tp pile_t inp =
    (if reads_registers program then registers else [])
    ++ ((if reads_pile program then bytes_of tp ++ pile_t else []) ++ inp)

on_history : (s : Vm) (t : Trace) → IsValid s → IsValid (record s { trace = t })
on_history s t v = record {
  pc_fits = v.pc_fits;
  sp_fits = v.sp_fits;
  tp_fits = v.tp_fits;
  rp_fits = v.rp_fits;
  stack_ok = v.stack_ok;
  registers_ok = v.registers_ok;
  pile_t_ok = v.pile_t_ok;
  pile_r_ok = v.pile_r_ok;
}

ok_holds : {A : Type 0} (P : A → Type 0) {a : A} → Returns P (ok a) → P a
ok_holds P (returns h) = h

module _ {S L F D I : Type 0} (c : Chip S L F D I) where
  abbrev pub registers_of : List ℕ → List ℕ → List ℕ
  registers_of program registers =
      if reads_registers program
      then registers
      else (if writes_registers program then replicate register_count 0 else c.junk_registers)

  abbrev pub pile_of : List ℕ → ℕ → List ℕ → ℕ × List ℕ
  pile_of program tp pile_t = if reads_pile program then (tp, pile_t) else (0, c.junk_pile_t)

  -- What the program starts with.
  abbrev pub start_of : List ℕ → List ℕ → ℕ → List ℕ → Vm
  start_of program registers tp pile_t =
      let pile = pile_of program tp pile_t in
      started c program (registers_of program registers) pile.0 pile.1

module _ {S L F D I : Type 0} (c : Chip S L F D I) (w : Wire c) where
  -- What is received when a scan says so.
  received :
      {A : Type 0} (t : Bool) (m : Code (Board S L F D I) A) (a other : A) (b : Board S L F D I)
      (bytes inp out : List ℕ)
      → Carries c w b ((if t then bytes else []) ++ inp) out
      → (Carries c w b (bytes ++ inp) out → Reads c w m b a inp out)
      → Reads c w (if t then m else pure other) b (if t then a else other) inp out
  unfolding pure
  received true m a other b bytes inp out h k = k h
  received false m a other b bytes inp out h k = (b.link, refl, h.1)

  registers-Reads :
      (program registers : List ℕ) (b : Board S L F D I) (inp out : List ℕ)
      → length registers ≡ register_count
      → Carries c w b ((if reads_registers program then registers else []) ++ inp) out
      → Reads c w (load_registers c program) b (registers_of c program registers) inp out
  unfolding load_registers
  registers-Reads program registers b inp out r h =
      received (reads_registers program) (recv_bytes c register_count) registers _ b registers inp
        out h
        (λ h'.
          subst (λ n. Reads c w (recv_bytes c n) b registers inp out) r
            (recv_bytes-Reads c w b registers inp out h'))

  pile-Reads :
      (program pile_t : List ℕ) (tp : ℕ) (b : Board S L F D I) (inp out : List ℕ)
      → length pile_t ≡ pile_size
      → tp < 2 ^ 32
      → Carries c w b ((if reads_pile program then bytes_of tp ++ pile_t else []) ++ inp) out
      → Reads c w (load_pile c program) b (pile_of c program tp pile_t) inp out
  unfolding load_pile pure
  pile-Reads program pile_t tp b inp out p small h =
      received (reads_pile program) _ (tp, pile_t) _ b (bytes_of tp ++ pile_t) inp out h
        (λ h'.
          after_u32 c w _ b tp small (h'.0, rw (sym (append_assoc (bytes_of tp) pile_t inp)) h'.1)
            (λ s₁ h₁.
              let (s₂, e₂, h₂) =
                subst (λ n. Reads c w (recv_bytes c n) (record b { link = s₁ }) pile_t inp out) p
                  (recv_bytes-Reads c w (record b { link = s₁ }) pile_t inp out h₁) in
              (s₂, andthen _ _ e₂ refl, h₂)))

  run_program_lem :
      (st s : Vm) (b : Board S L F D I)
      → run c.hw b.mega c.fuel c.rounds (record st { trace = b.trace }) ≡ ok s
      → run_program c st b ≡ ok (s, record b { trace = s.trace })
  unfolding run_program
  run_program_lem st s b e =
      ap
        (λ r. elim r [
          | ok s' ↦ ok (s', record b { trace = s'.trace })
          | fault ↦ fault
          | waiting ↦ waiting
        ])
        e

  -- A request to run a program, with the registers and the pile that the host sends for it: when the
  -- program runs to its end, the response is the length that the scans of the program give, the code of
  -- the response, and then as many bytes as that length says: the registers when the program is
  -- one that writes to them, and rp and the receive pile when it is one that writes to the pile. The
  -- condition is that the link is a pipe that takes 256 bytes at once, that the program fits the
  -- shared buffer, and that the arrays are of bytes; the request has the registers and the pile just
  -- when the scans say so.
  pub run_request_lem :
      (b : Board S L F D I) (program registers pile_t inp out : List ℕ) (tp : ℕ) (s : Vm)
      → length b.mega ≡ mega_size
      → AllBelow 256 b.mega
      → length program ≤ mega_size
      → AllBelow 256 program
      → length registers ≡ register_count
      → length pile_t ≡ pile_size
      → tp < 2 ^ 32
      → 256 ≤ w.limit
      → IsValid (start_of c program registers tp pile_t)
      → run c.hw
          (splice 0 program b.mega)
          c.fuel
          c.rounds
          (record (start_of c program registers tp pile_t) { trace = b.trace })
        ≡ ok s
      → Carries c w b
          (2 ∷ bytes_of (length program) ++ (program ++ sent_with program registers tp pile_t inp))
          out
      → (l : S) × (get_packet c b
          ≡ ok (tt, record b { link = l; mega = splice 0 program b.mega; trace = s.trace }))
        × w.Holds l inp (
            out
            ++ (bytes_of (response_len program)
                ++ (bytes_of send_machine_state ++ payload program s)))
        × (length (payload program s) ≡ response_len program)
  unfolding get_packet serve handle command_of recv_run
  run_request_lem b program registers pile_t inp out tp s size bytes room bytes' r p small limit
        valid ends h =
      let memory = splice 0 program b.mega in
      let start = start_of c program registers tp pile_t in
      let returned =
        run-IsValid c.hw memory c.fuel (AllBelow-splice 256 0 program b.mega bytes' bytes) c.rounds
          _ (on_history start b.trace valid) in
      let ended = ok_holds IsValid (subst (Returns IsValid) ends returned) in
      let (sent, e, h') = responds ended.registers_ok.sized ended.pile_r_ok.sized in
      (sent, e, h', length-payload program s ended.registers_ok.sized ended.pile_r_ok.sized)
    where
      responds :
          length s.registers ≡ register_count
          → length s.pile_r ≡ pile_size
          → Does c w
              (get_packet c)
              b
              (λ l. ok (tt, record b { link = l; mega = splice 0 program b.mega; trace = s.trace }))
              inp
              (out
                ++ (bytes_of (response_len program)
                    ++ (bytes_of send_machine_state ++ payload program s)))
      responds r' p' = after_u8 c w _ b h (λ s₀ h₀.
          after_u32 c w _ _ (length program) (omega (arith, room)) h₀ (λ s₁ h₁.
            after_into c w _ _ 0 program (omega (arith, room)) h₁ (λ s₂ h₂.
              after_ok c w _ _ _
                (get_mega_lem c w _ 0 program b.mega refl size (omega (arith, room)))
                (after c w _ _ _ h₂.0 (registers-Reads program registers _ _ out r h₂) (λ s₃ h₃.
                  after c w _ _ _ h₂.0 (pile-Reads program pile_t tp _ inp out p small h₃) (λ s₄ h₄.
                    let at_end : Board S L F D I = record b {
                      link = s₄;
                      mega = splice 0 program b.mega;
                    } in
                    after_ok c w _ _ _
                      (run_program_lem (start_of c program registers tp pile_t) s at_end ends)
                      (send_state_lem c w program s (record at_end { trace = s.trace }) inp out
                        limit r' p' h₄)))))))
