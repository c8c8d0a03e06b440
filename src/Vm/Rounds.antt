-- ===== src/Vm/Rounds.antt =====
-- How the rounds of the loop of execute.c compose.
use not.Prelude.{ℕ, suc, ◌≡◌, refl, List, some, get_elem?}
use not.Hardware.{Hw}
use not.Vm.Opcodes.{Opcode, decode}
use not.Vm.State.{Vm, ok}
use not.Vm.Run.{execute, execute_byte, step, run, again, exited}

module _ (hw : Hw) (code : List ℕ) (fuel : ℕ) where
  -- A round at a known instruction is that instruction.
  pub step_at :
      (s : Vm) (b : ℕ) (op : Opcode)
      → get_elem? code s.pc ≡ some b
      → decode b ≡ some op
      → step hw code fuel s ≡ execute hw code fuel op s
  unfolding step execute_byte
  step_at s b op e d = rw (e, d)

  pub run_again :
      (rounds : ℕ) (s s' : Vm)
      → step hw code fuel s ≡ ok (again s')
      → run hw code fuel (suc rounds) s ≡ run hw code fuel rounds s'
  unfolding run
  run_again rounds s s' e = rw e refl

  pub run_exit :
      (rounds : ℕ) (s s' : Vm)
      → step hw code fuel s ≡ ok (exited s')
      → run hw code fuel (suc rounds) s ≡ ok s'
  unfolding run
  run_exit rounds s s' e = rw e refl

  pub exit_round : (s : Vm) → get_elem? code s.pc ≡ some 0xFF → step hw code fuel s ≡ ok (exited s)
  unfolding execute decode
  exit_round s there = step_at s 0xFF Opcode.exit there refl
