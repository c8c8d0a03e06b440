-- ===== src/I2c/Receive.antt =====
-- The bytes that `i2c_recv_bytes` takes from a device, and its acknowledgements.
use not.Prelude.{
  ℕ, zero, suc, ◌+◌, ◌*◌, ◌^◌, ◌<◌, ◌≤◌, ◌==◌, ltb, ◌≡◌, ◌≢◌, refl, ap, ap₂, ◌∙◌, arith,
  if◌then◌else◌, Bool, true, false, List, [], ◌∷◌, length, get_or, Bool-cases, inl, inr, bit,
  bit_or, to_bit,
}
use not.Hardware.{gpio_a, bshr, bcr, sample, Trace, Hw, u8, u32, pin_mask}
use not.Hardware.Wires.{clocked, length-clocked}
use not.Hardware.Levels.{level_lem}
use not.I2c.{
  i2c_start, i2c_send_byte, i2c_recv_bit, recv_bits, i2c_recv_byte, recv_all, stop_if,
  i2c_recv_bytes,
}
use not.I2c.Bus.{Device, device}
use not.I2c.Byte.{HasUpper, grown-HasUpper, start-HasUpper, whole_lem}
use not.I2c.Frame.{wait, start_lem, send_byte_lem, stop_lem}
use not.I2c.Steps.{
  Holds, Raised, wait-Holds, release-Holds, up-Raised, sample-Raised, down-Holds, pull_if-Holds,
  release_if-Holds,
}

-- Bits in which the master leaves SDA released.
abbrev pub released : ℕ → List Bool → List Bool
released zero acc = acc
released (suc n) acc = released n (true ∷ acc)

-- Eight such bits for each byte, and one in which SDA is down but for the last byte.
abbrev pub acknowledged : ℕ → List Bool → List Bool
acknowledged zero acc = acc
acknowledged (suc left) acc =
    acknowledged left ((if ltb 0 left then false else true) ∷ released 8 acc)

length-released : (n : ℕ) (acc : List Bool) → length (released n acc) ≡ n + length acc
length-released zero acc = omega arith
length-released (suc n) acc = omega (arith, length-released n (true ∷ acc))

-- The device shows the low `n` bits of `reply` on SDA, the highest first: while SCL is high for a
-- bit and the master leaves SDA released, with `m` of these bits to come, SDA is bit `m`.
abbrev Shows : Hw → ℕ → (Trace → Device) → ℕ → ℕ → ℕ → Type 0
Shows hw sda view before n reply =
    (m : ℕ) (seen : Trace)
    → m < n
    → length (view seen).bits + m ≡ before + n
    → (view seen).scl ≡ true
    → (view seen).sda ≡ true
    → bit (hw.read_indr gpio_a seen) sda ≡ bit reply m

-- The same for all bytes of a read, which begin behind `before` bits.
abbrev pub Answers : Hw → ℕ → (Trace → Device) → ℕ → List ℕ → Type 0
Answers hw sda view before replies =
    (j m : ℕ) (seen : Trace)
    → j < length replies
    → m < 8
    → length (view seen).bits + m ≡ before + 9 * j + 8
    → (view seen).scl ≡ true
    → (view seen).sda ≡ true
    → bit (hw.read_indr gpio_a seen) sda ≡ bit (get_or replies j 0) m

module _ (hw : Hw) (sda scl delay : ℕ) (d : Device) (in_sda : sda < 16) (in_scl : scl < 16)
    (apart : sda ≢ scl) where
  abbrev at : Trace → Device
  at t = device sda scl d t

  abbrev later : Trace → Trace
  later t = wait hw sda scl delay d in_sda in_scl apart t

  -- SDA is released and SCL is up: the history at which the bit is read.
  abbrev up : Trace → Trace
  up t = later (bshr gpio_a (pin_mask scl) ∷ later (bshr gpio_a (pin_mask sda) ∷ t))

  up_lem :
      (was : Bool) (bits : List Bool) (t : Trace)
      → Holds (at t) was bits
      → Raised (at (up t)) true (true ∷ bits)
  up_lem was bits t h =
      let t₁ = bshr gpio_a (pin_mask sda) ∷ t in
      up-Raised sda scl delay d in_sda in_scl apart true bits (later t₁) (
        wait-Holds sda scl delay d in_sda in_scl apart true bits t₁
          (release-Holds sda scl delay d in_sda in_scl apart was bits t h))

  recv_bit-Holds :
      (was : Bool) (bits : List Bool) (t : Trace)
      → Holds (at t) was bits
      → Holds (at (i2c_recv_bit hw sda scl delay t).1) true (true ∷ bits)
  unfolding i2c_recv_bit
  recv_bit-Holds was bits t h =
      down-Holds sda scl delay d in_sda in_scl apart true (true ∷ bits) (sample gpio_a ∷ up t) (
        sample-Raised sda scl delay d in_sda in_scl apart true (true ∷ bits) (up t)
          (up_lem was bits t h))

  recv_bit-level :
      (t : Trace) → (i2c_recv_bit hw sda scl delay t).0 ≡ bit (hw.read_indr gpio_a (up t)) sda
  unfolding i2c_recv_bit
  recv_bit-level t = level_lem (hw.read_indr gpio_a (up t)) sda (omega arith)

  recv_bits-Holds :
      (n buffer : ℕ) (was : Bool) (bits : List Bool) (t : Trace)
      → Holds (at t) was bits
      → (now : Bool) × Holds (at (recv_bits hw sda scl n buffer delay t).1) now (released n bits)
  unfolding recv_bits
  recv_bits-Holds zero buffer was bits t h = (was, h)
  recv_bits-Holds (suc n) buffer was bits t h =
      let r = i2c_recv_bit hw sda scl delay t in
      recv_bits-Holds n (u8 (bit_or buffer (r.0 * 2 ^ n))) true (true ∷ bits) r.1
        (recv_bit-Holds was bits t h)

  recv_bits-reply :
      (n buffer reply : ℕ) (was : Bool) (bits : List Bool) (t : Trace)
      → n ≤ 8
      → reply < 256
      → Holds (at t) was bits
      → HasUpper n buffer reply
      → Shows hw sda at (length bits) n reply
      → (recv_bits hw sda scl n buffer delay t).0 ≡ reply
  unfolding recv_bits
  recv_bits-reply zero buffer reply was bits t fits small h upper shows =
      whole_lem buffer reply small upper
  recv_bits-reply (suc n) buffer reply was bits t fits small h upper shows =
      let r = i2c_recv_bit hw sda scl delay t in
      let raised = up_lem was bits t h in
      let got =
        recv_bit-level t
        ∙ shows n (up t) (omega arith) (omega (arith, ap length raised.bits_now)) raised.scl_high
            raised.sda_stays in
      recv_bits-reply n (u8 (bit_or buffer (r.0 * 2 ^ n))) reply true (true ∷ bits) r.1
        (omega arith) small (recv_bit-Holds was bits t h)
        (rw got (grown-HasUpper n buffer reply fits upper))
        (λ m seen lt now. shows m seen (omega arith) (omega (arith, now)))

  recv_byte-Holds :
      (ack was : Bool) (bits : List Bool) (t : Trace)
      → Holds (at t) was bits
      → Holds
          (at (i2c_recv_byte hw sda scl ack delay t).1)
          true
          ((if ack then false else true) ∷ released 8 bits)
  unfolding i2c_recv_byte
  recv_byte-Holds ack was bits t h =
      let bits' = released 8 bits in
      let level = if ack then false else true in
      let t₀ = (recv_bits hw sda scl 8 0 delay t).1 in
      let (now, h₀) = recv_bits-Holds 8 0 was bits t h in
      let t₁ = bshr gpio_a (pin_mask sda) ∷ t₀ in
      let h₁ = release-Holds sda scl delay d in_sda in_scl apart now bits' t₀ h₀ in
      let h₂ = wait-Holds sda scl delay d in_sda in_scl apart true bits' t₁ h₁ in
      let t₃ = bcr gpio_a (u32 (to_bit ack * 2 ^ sda)) ∷ later t₁ in
      let h₃ = pull_if-Holds sda scl delay d in_sda in_scl apart ack bits' (later t₁) h₂ in
      let h₄ = wait-Holds sda scl delay d in_sda in_scl apart level bits' t₃ h₃ in
      let t₅ = later (bshr gpio_a (pin_mask scl) ∷ later t₃) in
      let h₅ = up-Raised sda scl delay d in_sda in_scl apart level bits' (later t₃) h₄ in
      let h₆ = down-Holds sda scl delay d in_sda in_scl apart level (level ∷ bits') t₅ h₅ in
      release_if-Holds sda scl delay d in_sda in_scl apart ack (level ∷ bits')
        (later (bcr gpio_a (pin_mask scl) ∷ t₅)) h₆

  recv_byte-reply :
      (ack was : Bool) (bits : List Bool) (t : Trace) (reply : ℕ)
      → reply < 256
      → Holds (at t) was bits
      → Shows hw sda at (length bits) 8 reply
      → (i2c_recv_byte hw sda scl ack delay t).0 ≡ reply
  unfolding i2c_recv_byte
  recv_byte-reply ack was bits t reply small h shows =
      recv_bits-reply 8 0 reply was bits t (omega arith) small h (start-HasUpper reply) shows

  recv_all_lem :
      (replies : List ℕ) (bits : List Bool) (t : Trace)
      → Holds (at t) true bits
      → ((j : ℕ) → j < length replies → get_or replies j 0 < 256)
      → Answers hw sda at (length bits) replies
      → ((recv_all hw sda scl (length replies) delay t).0 ≡ replies)
        × Holds
            (at (recv_all hw sda scl (length replies) delay t).1)
            true
            (acknowledged (length replies) bits)
  unfolding recv_all
  recv_all_lem [] bits t h bytes answers = (refl, h)
  recv_all_lem (reply ∷ replies) bits t h bytes answers =
      let ack = ltb 0 (length replies) in
      let r = i2c_recv_byte hw sda scl ack delay t in
      let got =
        recv_byte-reply ack true bits t reply (bytes 0 (omega arith)) h
          (λ m seen lt now. answers 0 m seen (omega arith) lt (omega arith)) in
      let behind = length-released 8 bits in
      let (rest, end) =
        recv_all_lem replies ((if ack then false else true) ∷ released 8 bits) r.1
          (recv_byte-Holds ack true bits t h) (λ j lt. bytes (suc j) (omega arith))
          (λ j m seen lt hm now.
            answers (suc j) m seen (omega arith) hm (omega (arith, now, behind))) in
      (ap₂ (λ x xs. x ∷ xs) got rest, end)

  -- `i2c_recv_bytes` gives the bytes that the device shows on SDA, each from bit 7 down, behind the
  -- nine bits of its address. Since its START the device has taken the address byte with the read
  -- bit and a bit for its acknowledgement, and for each byte eight bits in which SDA is released and
  -- one in which the master pulls it down, but for the last byte. It has seen no STOP, also where
  -- one was asked for, and takes the rise of SCL in `i2c_stop` for one more bit. The two pins are
  -- different pins of port A.
  pub i2c_recv_bytes_lem :
      (address : ℕ) (replies : List ℕ) (stop : ℕ) (t : Trace)
      → ((j : ℕ) → j < length replies → get_or replies j 0 < 256)
      → Answers hw sda at 9 replies
      → ((i2c_recv_bytes hw sda scl address (length replies) stop delay t).0 ≡ replies)
        × ((at (i2c_recv_bytes hw sda scl address (length replies) stop delay t).1).bits ≡ (
            if stop == 0
            then acknowledged (length replies) (true ∷ clocked 8 (bit_or address 1) [])
            else true ∷ acknowledged (length replies) (true ∷ clocked 8 (bit_or address 1) [])))
        × ((at (i2c_recv_bytes hw sda scl address (length replies) stop delay t).1).stopped ≡ false)
  unfolding i2c_recv_bytes stop_if
  i2c_recv_bytes_lem address replies stop t bytes answers =
      let a = bit_or address 1 in
      let t₁ = (i2c_start sda scl delay t).1 in
      let t₂ = (i2c_send_byte hw sda scl a delay t₁).1 in
      let begun = start_lem hw sda scl delay d in_sda in_scl apart t in
      let first = send_byte_lem hw sda scl delay d in_sda in_scl apart a false [] t₁ begun in
      let bits = true ∷ clocked 8 a [] in
      let (got, end) = recv_all_lem replies bits t₂ first bytes (λ j m seen lt hm now.
        answers j m seen lt hm (omega (arith, now, length-clocked 8 a []))) in
      elim (Bool-cases (stop == 0)) [
        | inl e ↦ rw e (got, end.bits_are, end.no_stop)
        | inr e ↦ rw e (
            let (last, no_stop) =
              stop_lem hw sda scl delay d in_sda in_scl apart (acknowledged (length replies) bits)
                (recv_all hw sda scl (length replies) delay t₂).1 end in
            (got, last, no_stop))
      ]
