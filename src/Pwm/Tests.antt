-- ===== src/Pwm/Tests.antt =====
-- Three pulses on pin A1.
use not.Prelude.{
  ℕ, ◌≡◌, inl, inr, refl, arith, true, List, [], ◌∷◌, ◌++◌, some, length, drop, leb, map,
}
use not.Hardware.{Trace, u16}
use not.Comms.Pipe.{IsPipe}
use not.Packet.Sample.{tape}
use not.Pwm.{pulseio_out_send}
use not.Pwm.Train.{waves, train, words_out, pulseio_out_send_lem}

tape-IsPipe : IsPipe tape 4096 (λ s inp out. s ≡ (inp, out))
tape-IsPipe = record {
  recv_lem = λ s inp out n e there.
      let enough : leb n (length inp) ≡ true = ground (arith, there) in
      ((drop n inp, out), rw (e, enough) refl, refl);
  send_lem = λ s inp out bytes e short. ((inp, out ++ bytes), rw e refl, refl);
}

abbrev pulses : List ℕ
pulses = 560 ∷ 1690 ∷ 70000 ∷ []

pulseio_out_send_lem_example :
    (t' : Trace) × (s' : List ℕ × List ℕ) × (pulseio_out_send tape 1 128 3
        (words_out pulses ++ 7 ∷ [], [])
        []
      ≡ some (map u16 pulses, t', s'))
    × (s' ≡ (7 ∷ [], []))
    × (waves 2 2 t' ≡ (0, [] ++ train 128 0 (map u16 pulses)))
pulseio_out_send_lem_example =
    pulseio_out_send_lem tape 4096 (λ s inp out. s ≡ (inp, out)) tape-IsPipe 1 2 2 128 pulses
      (words_out pulses ++ 7 ∷ [], []) (7 ∷ []) [] [] (inr (inl refl))
      (omega arith, (omega arith, (omega arith, tt))) refl
