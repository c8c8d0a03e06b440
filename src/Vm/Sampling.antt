-- ===== src/Vm/Sampling.antt =====
-- Consecutive PUSH_UP instructions of execute.c: the pile records the samples of the pin.
use native.Mathlib.Nat.{add-zero}
use not.Prelude.{
  ℕ, zero, suc, ◌+◌, ◌*◌, ◌^◌, ◌<◌, ◌≤◌, ◌≡◌, ◌⊎◌, inl, refl, ap, ◌∙◌, arith, List, ◌∷◌, some,
  get_elem?, length, bit,
}
use not.Hardware.Levels.{level_lem}
use not.Hardware.{Hw, gpio_a, sample, Trace, pin_is_high, u32}
use not.Vm.Opcodes.{Opcode, decode}
use not.Vm.Rounds.{step_at, run_again}
use not.Vm.State.{Vm, ok}
use not.Vm.Pile.{exec_push_up}
use not.Vm.Pile.Bits.{bit_at, put_bit_lem}
use not.Vm.Run.{execute, step, run, again}

-- The history after `n` reads of port A.
abbrev pub sampled : ℕ → Trace → Trace
sampled zero t = t
sampled (suc n) t = sampled n (sample gpio_a ∷ t)

-- At `pc` stand `n` PUSH_UP instructions for one pin.
abbrev pub PushesAt : List ℕ → ℕ → ℕ → ℕ → Type 0
PushesAt code pin zero pc = Unit {0}
PushesAt code pin (suc n) pc =
    (get_elem? code pc ≡ some 0x21)
    × (get_elem? code (pc + 2) ≡ some pin)
    × PushesAt code pin n (pc + 4)

-- `s'` is `s` after `n` pushes: pile R holds the samples in order, and nothing else of it changed.
pub record IsRecorded (hw : Hw) (pin n : ℕ) (s s' : Vm) : Type 0 where
  pub counted : s'.rp ≡ s.rp + n
  pub moved : s'.pc ≡ s.pc + 4 * n
  pub watched : s'.trace ≡ sampled n s.trace
  pub sized : length s'.pile_r ≡ length s.pile_r
  pub holds :
      (k : ℕ)
      → k < n
      → bit_at s'.pile_r (s.rp + k) ≡ bit (hw.read_indr gpio_a (sampled k s.trace)) pin
  pub keeps : (j : ℕ) → (j < s.rp) ⊎ (s.rp + n ≤ j) → bit_at s'.pile_r j ≡ bit_at s.pile_r j

module _ (hw : Hw) (code : List ℕ) (fuel pin : ℕ) (narrow : pin < 32) where
  -- The state after one PUSH_UP.
  pub push_once :
      (s : Vm)
      → get_elem? code s.pc ≡ some 0x21
      → get_elem? code (s.pc + 2) ≡ some pin
      → s.pc + 4 < 2 ^ 32
      → s.rp < length s.pile_r * 8
      → s.rp + 1 < 2 ^ 32
      → (s' : Vm) × (step hw code fuel s ≡ ok (again s')) × IsRecorded hw pin 1 s s'
  unfolding execute decode exec_push_up
  push_once s here operand near room small =
      let level = pin_is_high hw gpio_a pin s.trace in
      let (pile, done, size, self, others) = put_bit_lem s.pile_r s.rp level.0 room in
      let s' = record s { pile_r = pile; rp = s.rp + 1; pc = s.pc + 4; trace = level.1 } in
      let x_at : u32 (s.pc + 2) ≡ s.pc + 2 = omega arith in
      let pc_next : u32 (s.pc + 4) ≡ s.pc + 4 = omega arith in
      let rp_next : u32 (s.rp + 1) ≡ s.rp + 1 = omega arith in
      (
        s',
        step_at hw code fuel s 0x21 Opcode.push_up_pile_r here refl
            ∙ rw (x_at, operand, done, pc_next, rp_next) refl,
        record {
          counted = refl;
          moved = omega arith;
          watched = refl;
          sized = size;
          holds = λ k hk.
              let e : k ≡ 0 = omega arith in
              rw (e, add-zero) (self ∙ level_lem (hw.read_indr gpio_a s.trace) pin narrow);
          keeps = λ j away. others j (λ e. absurd (omega arith));
        },
      )

  appended_holds :
      (n : ℕ) (s s₁ s₂ : Vm)
      → IsRecorded hw pin 1 s s₁
      → IsRecorded hw pin n s₁ s₂
      → (k : ℕ) → k < suc n
      → bit_at s₂.pile_r (s.rp + k) ≡ bit (hw.read_indr gpio_a (sampled k s.trace)) pin
  appended_holds n s s₁ s₂ a b zero h =
      b.keeps (s.rp + 0) (inl (omega (arith, a.counted))) ∙ a.holds 0 (omega arith)
  appended_holds n s s₁ s₂ a b (suc k) h =
      let place : s.rp + suc k ≡ s₁.rp + k = omega (arith, a.counted) in
      ap (bit_at s₂.pile_r) place
      ∙ b.holds k (omega arith)
      ∙ ap (λ t. bit (hw.read_indr gpio_a (sampled k t)) pin) a.watched

  append_recordings :
      (n : ℕ) (s s₁ s₂ : Vm)
      → IsRecorded hw pin 1 s s₁
      → IsRecorded hw pin n s₁ s₂
      → IsRecorded hw pin (suc n) s s₂
  append_recordings n s s₁ s₂ a b = record {
    counted = omega (arith, a.counted, b.counted);
    moved = omega (arith, a.moved, b.moved);
    watched = b.watched ∙ ap (sampled n) a.watched;
    sized = b.sized ∙ a.sized;
    holds = appended_holds n s s₁ s₂ a b;
    keeps = λ j away. b.keeps j (omega (arith, a.counted)) ∙ a.keeps j (omega arith);
  }

-- `n` consecutive PUSH_UP instructions, with room for `n` bits, run without a fault and record `n`
-- successive samples of the pin in order, bit after bit, and change nothing else of pile R.
pub run_pushes :
    (hw : Hw) (code : List ℕ) (fuel pin n rounds : ℕ) (s : Vm)
    → pin < 32
    → PushesAt code pin n s.pc
    → s.pc + 4 * n < 2 ^ 32
    → length s.pile_r ≡ 256
    → s.rp + n ≤ 2048
    → (s' : Vm) × (run hw code fuel (n + rounds) s ≡ run hw code fuel rounds s')
      × IsRecorded hw pin n s s'
run_pushes hw code fuel pin zero rounds s narrow there near size room = (
  s,
  ap (λ r. run hw code fuel r s) (omega arith),
  record {
    counted = omega arith;
    moved = omega arith;
    watched = refl;
    sized = refl;
    holds = λ k hk. absurd (omega arith);
    keeps = λ j away. refl;
  },
)
run_pushes hw code fuel pin (suc n) rounds s narrow there near size room =
    let (s₁, one, first) =
      push_once hw code fuel pin narrow s there.0 there.1 (omega arith) (omega arith)
        (omega arith) in
    let (s₂, rest, more) =
      run_pushes hw code fuel pin n rounds s₁ narrow (rw first.moved there.2)
        (omega (arith, first.moved)) (first.sized ∙ size) (omega (arith, first.counted)) in
    (
      s₂,
      ap (λ r. run hw code fuel r s) (omega arith)
          ∙ run_again hw code fuel (n + rounds) s s₁ one
          ∙ rest,
      append_recordings hw code fuel pin narrow n s s₁ s₂ first more,
    )
