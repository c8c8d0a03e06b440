-- ===== src/Packet/Program.antt =====
-- RECV_RUN of get_packet: a program and its data from the host, its run, and the state that it leaves.
use not.Prelude.{ℕ, ◌+◌, if◌then◌else◌, List, [], replicate}
use not.Vm.State.{Vm, ok, fault, waiting, register_count, pile_size}
use not.Vm.Opcodes.{reads_registers, writes_registers, reads_pile, writes_pile}
use not.Vm.Run.{run}
use not.Packet.{
  Chip, Board, Code, Handler, ◌>>=◌, ◌>>◌, pure, recv_u32, recv_bytes, send_u32, send_bytes,
  recv_into, get_mega,
}

abbrev pub send_machine_state : ℕ
send_machine_state = 2

-- What the scans of the program add to the length of the response.
unfoldable pub response_len : List ℕ → ℕ
response_len program =
    (if writes_registers program then register_count else 0)
    + (if writes_pile program then pile_size + 4 else 0)

module _ {S L F D I : Type 0} (c : Chip S L F D I) where
  -- The registers and the piles that the program starts with: where it is not cleared nor loaded, an
  -- array holds what was on the stack.
  unfoldable pub load_registers : List ℕ → Code (Board S L F D I) (List ℕ)
  load_registers program =
      if reads_registers program
      then recv_bytes c register_count
      else pure (if writes_registers program then replicate register_count 0 else c.junk_registers)

  unfoldable pub load_pile : List ℕ → Code (Board S L F D I) (ℕ × List ℕ)
  load_pile program =
      if reads_pile program
      then (recv_u32 c >>= λ tp. recv_bytes c pile_size >>= λ pile_t. pure (tp, pile_t))
      else pure (0, c.junk_pile_t)

  -- The state in which `run` starts.
  unfoldable pub started : List ℕ → List ℕ → ℕ → List ℕ → Vm
  started program registers tp pile_t = record {
    pc = 0;
    sp = 0;
    stack = c.junk_stack;
    registers = registers;
    pile_t = pile_t;
    pile_r = if writes_pile program then replicate pile_size 0 else c.junk_pile_r;
    tp = tp;
    rp = 0;
    trace = [];
  }

  -- `run(program, registers, program_size, pile_t, pile_r, &tp, &rp)`; the program is the start of the
  -- whole buffer.
  unfoldable pub run_program : Vm → Code (Board S L F D I) Vm
  run_program s b = elim (run c.hw b.mega c.fuel c.rounds (record s { trace = b.trace })) [
    | ok s' ↦ ok (s', record b { trace = s'.trace })
    | fault ↦ fault
    | waiting ↦ waiting
  ]

  -- The arrays that the program may have written, after the two words of the header.
  unfoldable pub send_state : List ℕ → Vm → Handler S L F D I
  send_state program s = do
    send_u32 c (response_len program)
    send_u32 c send_machine_state
    if writes_registers program then send_bytes c s.registers else pure tt
    if writes_pile program then send_u32 c s.rp >> send_bytes c s.pile_r else pure tt

  unfoldable pub recv_run : Handler S L F D I
  recv_run = do
    program_size ← recv_u32 c
    recv_into c 0 program_size
    program ← get_mega c 0 program_size
    registers ← load_registers program
    (tp, pile_t) ← load_pile program
    s ← run_program (started program registers tp pile_t)
    send_state program s
