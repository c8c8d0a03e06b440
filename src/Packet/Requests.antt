-- ===== src/Packet/Requests.antt =====
-- Requests of the host to get_packet, byte by byte, and what the firmware does on them.
use not.Prelude.{ℕ, ◌≡◌, refl, ◌∙◌, List, ◌∷◌, none, some}
use not.Gpio.{
  gpio_init_pin, mode_ain, mode_in_floating, mode_ipd, mode_ipu, mode_out_od, mode_out_pp,
  mode_af_pp,
}
use not.Vm.State.{ok, fault}
use not.Packet.{Chip, Board, recv_u8, try_trace}
use not.Packet.Commands.{command_of}
use not.Packet.Pins.{recv_pin_mode}
use not.Packet.Dispatch.{handle, serve, get_packet}
use not.Packet.Served.{Wire, bound, Carries, recv_u8-Reads}

-- The seven requests that give a pin a mode, their codes, and the mode that each gives.
pub data Setup : Type 0 where
  push_pull open_drain floating pull_up pull_down pwm analog : Setup

abbrev pub setup_code : Setup → ℕ
setup_code Setup.push_pull = 20
setup_code Setup.open_drain = 21
setup_code Setup.floating = 22
setup_code Setup.pull_up = 23
setup_code Setup.pull_down = 24
setup_code Setup.pwm = 119
setup_code Setup.analog = 121

abbrev pub setup_mode : Setup → ℕ
setup_mode Setup.push_pull = mode_out_pp
setup_mode Setup.open_drain = mode_out_od
setup_mode Setup.floating = mode_in_floating
setup_mode Setup.pull_up = mode_ipu
setup_mode Setup.pull_down = mode_ipd
setup_mode Setup.pwm = mode_af_pp
setup_mode Setup.analog = mode_ain

module _ {S L F D I : Type 0} (c : Chip S L F D I) (w : Wire c) where
  -- The first byte chooses the code that serves the request.
  pub served :
      (b : Board S L F D I) (code : ℕ) (inp out : List ℕ)
      → Carries c w b (code ∷ inp) out
      → (s : S) × (get_packet c b ≡ serve c (command_of code) (record b { link = s }))
        × w.Holds s inp out
  unfolding get_packet
  served b code inp out h =
      let (s, e, h') = recv_u8-Reads c w b code inp out h in
      (s, bound (recv_u8 c) (λ code. serve c (command_of code)) b e, h')

  pin_mode :
      (m : ℕ) (b : Board S L F D I) (pin : ℕ) (inp out : List ℕ)
      → Carries c w b (pin ∷ inp) out
      → (s : S) × (recv_pin_mode c m b ≡ elim (gpio_init_pin c.hw pin m b.trace) [
        | none ↦ fault
        | some t ↦ ok (tt, record b { link = s; trace = t })
      ])
        × w.Holds s inp out
  unfolding recv_pin_mode try_trace
  pin_mode m b pin inp out h =
      let (s, e, h') = recv_u8-Reads c w b pin inp out h in
      (s, bound (recv_u8 c) (λ pin. try_trace c (gpio_init_pin c.hw pin m)) b e, h')

  -- Each of the seven requests that set a pin up takes two bytes, its code and the pin, gives the pin
  -- its own mode by `gpio_init_pin`, changes nothing else and sends nothing; it is out of bounds just
  -- where `gpio_init_pin` is. The condition is that the link is a pipe.
  pub setup_request_lem :
      (p : Setup) (b : Board S L F D I) (pin : ℕ) (inp out : List ℕ)
      → Carries c w b (setup_code p ∷ pin ∷ inp) out
      → (s : S) × (get_packet c b ≡ elim (gpio_init_pin c.hw pin (setup_mode p) b.trace) [
        | none ↦ fault
        | some t ↦ ok (tt, record b { link = s; trace = t })
      ])
        × w.Holds s inp out
  unfolding serve handle command_of
  setup_request_lem p b pin inp out h =
      let (s, e, h') = served b (setup_code p) (pin ∷ inp) out h in
      let (s', e', h'') = pin_mode (setup_mode p) (record b { link = s }) pin inp out (h.0, h') in
      (s', e ∙ choice p s ∙ e', h'')
    where
      choice :
          (p : Setup) (s : S)
          → serve c (command_of (setup_code p)) (record b { link = s })
            ≡ recv_pin_mode c (setup_mode p) (record b { link = s })
      choice Setup.push_pull s = refl
      choice Setup.open_drain s = refl
      choice Setup.floating s = refl
      choice Setup.pull_up s = refl
      choice Setup.pull_down s = refl
      choice Setup.pwm s = refl
      choice Setup.analog s = refl
