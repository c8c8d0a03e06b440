-- ===== src/Spi/Loop.antt =====
-- The loop of `spi_xfer_byte_bb_ch32` over rounds of one kind.
use not.Prelude.{
  ℕ, zero, suc, ◌+◌, ◌*◌, ◌^◌, ◌<◌, ◌≡◌, refl, ap, ap₂, ◌∙◌, arith, Bool, List, length, bit, bit_or,
}
use not.Hardware.{gpio_a, Trace, Hw, u8}
use not.Hardware.Levels.{mask_level}
use not.Spi.{rounds}
use not.Spi.Bits.{sent, upper, next_bit}
use not.Spi.Rounds.{Round}
use not.Spi.Slave.{Slave}

-- The slave shows the low `n` bits of `reply` on MISO, the highest of these first: when `n - m` more
-- bits are taken, and SCK is still at `level`, it is bit `m` that the pin has.
abbrev pub Shows : Hw → ℕ → (Trace → Slave) → Bool → List Bool → ℕ → ℕ → Type 0
Shows hw miso view level before n reply =
    (m : ℕ) (seen : Trace)
    → m < n
    → length (view seen).bits + m ≡ length before + n
    → (view seen).sck ≡ level
    → bit (hw.read_indr gpio_a seen) miso ≡ bit reply m

module _ (hw : Hw) (miso : ℕ) (round : ℕ → ℕ → Trace → ℕ × Trace) (view : Trace → Slave)
    (rest level : Bool) (one : Round hw (2 ^ miso) round view rest level) where
  pub rounds-sck :
      (n out inp : ℕ) (t : Trace)
      → (view t).sck ≡ rest
      → (view (rounds hw round n out inp t).1).sck ≡ rest
  unfolding rounds
  rounds-sck zero out inp t e = e
  rounds-sck (suc n) out inp t e =
      let r = one out inp t e in
      rounds-sck n (u8 (out * 2)) (round out inp t).0 (round out inp t).1 r.at_rest

  pub rounds-bits :
      (n out inp : ℕ) (t : Trace)
      → (view t).sck ≡ rest
      → (view (rounds hw round n out inp t).1).bits ≡ sent n out (view t).bits
  unfolding rounds
  rounds-bits zero out inp t e = refl
  rounds-bits (suc n) out inp t e =
      let r = one out inp t e in
      rounds-bits n (u8 (out * 2)) (round out inp t).0 (round out inp t).1 r.at_rest
      ∙ ap (sent n (u8 (out * 2))) r.taken

  pub rounds-reply :
      (n out inp reply : ℕ) (t : Trace)
      → (view t).sck ≡ rest
      → reply < 256
      → inp ≡ upper n reply
      → Shows hw miso view level (view t).bits n reply
      → (rounds hw round n out inp t).0 ≡ reply
  unfolding rounds
  rounds-reply zero out inp reply t e small so_far shows = so_far
  rounds-reply (suc n) out inp reply t e small so_far shows =
      let r = one out inp t e in
      let here =
        mask_level (hw.read_indr gpio_a r.seen) miso
        ∙ shows n r.seen (omega arith) (omega (arith, ap length r.seen_bits)) r.seen_level in
      rounds-reply n (u8 (out * 2)) (round out inp t).0 reply (round out inp t).1 r.at_rest small
        (r.value ∙ ap₂ (λ x b. u8 (bit_or (x * 2) b)) so_far here ∙ next_bit n reply small)
        (λ m seen h taken. shows m seen (omega arith) (omega (arith, ap length r.taken)))
