-- ===== src/Vm/Tests.antt =====
-- The interpreter of execute.c on concrete programs.
use not.Prelude.{
  ℕ, ◌+◌, ◌≡◌, ◌↔◌, refl, arith, true, false, List, [], ◌∷◌, some, get_elem?, replicate, bit,
  bit_and, max,
}
use not.Hardware.{Hw, gpio_a, outdr, u8}
use not.Vm.State.{Vm, ok, fault, waiting, advance}
use not.Vm.Opcodes.{
  writes_registers, reads_registers, reads_pile, writes_pile, is_register_writer,
  is_register_reader, is_pile_reader, is_pile_writer,
}
use not.Vm.Run.{exec_call, exec_ret, step, again, run}
use not.Vm.Shift.{bank_a_value, bank_d_value, exec_write_bank_a, exec_write_bank_d}
use not.Vm.Wait.{exec_wait_low, exec_wait_high, exec_wait_rising, exec_wait_falling}
use not.Vm.Control.{called, exec_call-exec_ret, stack_bounds, run_unused}
use not.Vm.Sampling.{IsRecorded, run_pushes}
use not.Vm.Scans.{Finds, scans_find}
use not.Vm.Missed.{second_push, bank_reader, writes_missed}
use not.Vm.Banks.{write_banks_lem}
use not.Vm.Waiting.{Resumes, ResumesTwice, waits_resume}

-- All pins of port A are high, and the timer runs out at once.
abbrev all_high : Hw
all_high = record {
  read_indr = λ p t. 0xFFFF;
  read_outdr = λ p t. 0x00F0;
  read_cfglr = λ p t. 0x44444444;
  read_cfghr = λ p t. 0x44444444;
  timed_out = λ t. true;
}

abbrev start : Vm
start = record {
  pc = 0;
  sp = 0;
  stack = replicate 16 0;
  registers = replicate 32 0;
  pile_t = replicate 256 0;
  pile_r = replicate 256 0;
  tp = 0;
  rp = 0;
  trace = [];
}

-- CALL 8, EXIT.
abbrev call_program : List ℕ
call_program = 0x15 ∷ 0 ∷ 8 ∷ 0 ∷ 0xFF ∷ 0 ∷ 0 ∷ 0 ∷ []

exec_call-exec_ret_example :
    (exec_call call_program start ≡ ok (called start 8))
    × (exec_ret (called start 8) ≡ ok (record (called start 8) { sp = 0; pc = 4 }))
exec_call-exec_ret_example =
    exec_call-exec_ret call_program start (called start 8) 8 refl refl (omega arith) (omega arith)
      refl refl

stack_bounds_example :
    (exec_call call_program (record start { sp = 16 }) ≡ fault) × (exec_ret start ≡ fault)
stack_bounds_example =
    stack_bounds call_program (record start { sp = 16 }) 8 refl refl (omega arith)

run_unused_example :
    (step all_high (0x30 ∷ []) 10 start ≡ ok (again start))
    × (run all_high (0x30 ∷ []) 10 100 start ≡ waiting)
run_unused_example = run_unused all_high (0x30 ∷ []) 10 100 start 0x30 refl (omega arith) refl

-- PUSH_UP pin 3, twice.
abbrev two_pushes : List ℕ
two_pushes = 0x21 ∷ 0 ∷ 3 ∷ 0 ∷ 0x21 ∷ 0 ∷ 3 ∷ 0 ∷ []

run_pushes_example :
    (s' : Vm) × (run all_high two_pushes 10 (2 + 0) start ≡ run all_high two_pushes 10 0 s')
    × IsRecorded all_high 3 2 start s'
run_pushes_example =
    run_pushes all_high two_pushes 10 3 2 0 start (omega arith) (refl, refl, (refl, refl, tt))
      (omega arith) refl (omega arith)

scans_find_example :
    ((writes_registers two_pushes ≡ true) ↔ Finds is_register_writer 4 0 two_pushes)
    × ((reads_registers two_pushes ≡ true) ↔ Finds is_register_reader 3 0 two_pushes)
    × ((reads_pile two_pushes ≡ true) ↔ Finds is_pile_reader 3 0 two_pushes)
    × ((writes_pile two_pushes ≡ true) ↔ Finds is_pile_writer 3 0 two_pushes)
scans_find_example = scans_find two_pushes

writes_missed_example :
    ((writes_pile (second_push 3) ≡ false)
      × ((s' : Vm) × (run all_high (second_push 3) 10 3 start ≡ ok s') × (s'.rp ≡ 1)))
    × ((writes_registers (bank_reader 2) ≡ false)
        × ((s' : Vm) × (run all_high (bank_reader 2) 10 2 start ≡ ok s')
            × (get_elem? s'.registers 2 ≡ some (u8 (bit_and 0xFFFF 0xFF)))))
writes_missed_example =
    writes_missed all_high 10 3 2 start (omega arith) (omega arith) refl refl refl refl

-- WRITE_BANK_A reg 1.
abbrev bank_writer : List ℕ
bank_writer = 0x0E ∷ 0 ∷ 1 ∷ 0 ∷ []

write_banks_lem_example :
    ((exec_write_bank_a all_high bank_writer start
        ≡ ok (advance start (outdr gpio_a (bank_a_value 0xF0 0) ∷ [])))
      × (bit (bank_a_value 0xF0 0) 5 ≡ max (bit 0xF0 5) (bit 0 5)))
    × ((exec_write_bank_d all_high bank_writer start
          ≡ ok (advance start (outdr gpio_a (bank_d_value 0xF0 0) ∷ [])))
        × (bit (bank_d_value 0xF0 0) 5 ≡ 0)
        × (bit (bank_d_value 0xF0 0) (8 + 5) ≡ max (bit 0xF0 (8 + 5)) (bit 0 5)))
write_banks_lem_example =
    write_banks_lem all_high bank_writer start 1 0 refl refl 5 5 (omega arith) (omega arith)

-- A wait on pin 3 with a timeout of 7.
abbrev waiter : List ℕ
waiter = 0 ∷ 0 ∷ 3 ∷ 7 ∷ []

waits_resume_example :
    Resumes all_high true 3 7 start (exec_wait_low all_high waiter 1 start)
    × Resumes all_high false 3 7 start (exec_wait_high all_high waiter 1 start)
    × ResumesTwice all_high true false 3 7 start (exec_wait_rising all_high waiter 1 start)
    × ResumesTwice all_high false true 3 7 start (exec_wait_falling all_high waiter 1 start)
waits_resume_example =
    waits_resume all_high waiter 1 0 3 7 start (λ t n asked h. refl) (omega arith) refl refl
