-- ===== src/Packet/RunRequest/Tests.antt =====
-- A program that sets a register, run for the host.
use not.Prelude.{ℕ, ◌≡◌, refl, arith, List, [], ◌∷◌, ◌++◌, length, replicate, set}
use not.Usb.Serial.{bytes_of}
use not.Vm.State.{Vm, ok}
use not.Vm.Opcodes.{
  decode, scan, is_register_reader, is_register_writer, is_pile_reader, is_pile_writer,
  reads_registers, writes_registers, reads_pile, writes_pile,
}
use not.Vm.Shift.{exec_assign}
use not.Vm.Run.{run, step, execute, execute_byte}
use not.Packet.Program.{started}
use not.Vm.Returns.{AllBelow, AllBelow-set}
use not.Vm.Invariant.{IsValid}
use not.Packet.Memory.{splice}
use not.Packet.Program.{response_len}
use not.Packet.Dispatch.{get_packet}
use not.Packet.Response.{payload}
use not.Packet.RunRequest.{run_request_lem}
use not.Packet.Sample.{chip, wire, board, board-sized, board-bytes, zeros-IsArray}

-- ASSIGN_REG 3 7, EXIT: register 7 goes to register 3.
abbrev program : List ℕ
program = 0x1F ∷ 0 ∷ 3 ∷ 7 ∷ 0xFF ∷ 0 ∷ 0 ∷ 0 ∷ []

abbrev registers : List ℕ
registers = set (replicate 32 0) 7 9

abbrev request : List ℕ
request = 2 ∷ 8 ∷ 0 ∷ 0 ∷ 0 ∷ program ++ registers

abbrev start : Vm
start = record {
  pc = 0;
  sp = 0;
  stack = replicate 16 0;
  registers = registers;
  pile_t = replicate 256 0;
  pile_r = replicate 256 0;
  tp = 0;
  rp = 0;
  trace = [];
}

start-IsValid : IsValid start
start-IsValid = record {
  pc_fits = omega arith;
  sp_fits = omega arith;
  tp_fits = omega arith;
  rp_fits = omega arith;
  stack_ok = zeros-IsArray 16 _;
  registers_ok = record {
    sized = refl;
    bounded = AllBelow-set 256 (replicate 32 0) 7 9 (zeros-IsArray 32 255).bounded (omega arith);
  };
  pile_t_ok = zeros-IsArray 256 _;
  pile_r_ok = zeros-IsArray 256 _;
}

abbrev at_exit : Vm
at_exit = record start { pc = 4; registers = set registers 3 9 }

bytes : AllBelow 256 program
bytes = (
  omega arith,
  (
    omega arith,
    (omega arith, (omega arith, (omega arith, (omega arith, (omega arith, (omega arith, tt)))))),
  ),
)

run_request_lem_example :
    (l : List ℕ × List ℕ) × (get_packet chip (board request)
      ≡ ok (tt, record (board []) { link = l; mega = splice 0 program (replicate 5120 0) }))
    × (l ≡ ([], bytes_of (response_len program) ++ (bytes_of 2 ++ payload program at_exit)))
    × (length (payload program at_exit) ≡ response_len program)
unfolding bytes_of reads_registers writes_registers reads_pile writes_pile scan is_register_reader
    is_register_writer is_pile_reader is_pile_writer started run step execute_byte execute decode
    exec_assign
run_request_lem_example =
    run_request_lem chip wire (board request) program registers (replicate 256 0) [] [] 0 at_exit
      (board-sized []) (board-bytes []) (omega arith) bytes refl refl (omega arith) (omega arith)
      start-IsValid refl (refl, refl)
