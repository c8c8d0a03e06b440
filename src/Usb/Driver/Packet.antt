-- ===== src/Usb/Driver/Packet.antt =====
-- The packets of a control read: what endpoint 0 has ready, and what the interrupt does when the host
-- took it.
use not.Prelude.{
  ℕ, ◌+◌, ◌-◌, ◌≤◌, min, ◌≡◌, refl, sym, ap, ◌∙◌, subst, arith, leb, ◌==◌, true, Bool-cases, inl,
  inr, List, [], ◌++◌, some, length, take, drop, take-append, take-take, drop-drop, drop-take,
  length-append, length-take, length-drop, bit_and, bit_xor,
}
use not.Usb.Driver.{Usbfs, update, tog, set_rx_ctrl, set_tx_ctrl, set_tx_len, copy_to}
use not.Usb.Driver.Descriptors.{contents}
use not.Usb.Driver.Apart.{Apart, Apart-refl, Apart-trans}
use not.Usb.Driver.Setup.{packet_len, load_ep0, behind}
use not.Usb.Driver.Irq.{
  Interrupt, usbhd_irq_handler, on_transfer, on_in, on_ep0_in, next_descr, expect_status,
}

-- The interrupts of a packet that the host took from endpoint 0, and of a setup packet.
abbrev pub in_token : Interrupt
in_token = record { int_fg = 0x02; int_st = 0x20; rx_len = 0; mis_st = 0 }

abbrev pub setup_token : Interrupt
setup_token = record { int_fg = 0x02; int_st = 0x30; rx_len = 8; mis_st = 0 }

-- What the load of a packet makes of the state.
abbrev pub loaded : ℕ → Usbfs → Usbfs
loaded len u = record u {
  ep = update u.ep 0 (take len (behind u) ++ drop len (u.ep 0));
  descr_offset = u.descr_offset + len;
}

pub load_ep0_lem :
    (len : ℕ) (u : Usbfs)
    → len ≤ length (behind u)
    → len ≤ length (u.ep 0)
    → load_ep0 len u ≡ some (loaded len u)
unfolding load_ep0 copy_to
load_ep0_lem len u h b =
    let fits : leb len (length (behind u)) ≡ true = ground arith in
    let whole : length (take len (behind u)) ≡ len = omega (arith, length-take len (behind u)) in
    let room : leb (0 + len) (length (u.ep 0)) ≡ true = ground arith in
    let same : 0 + len ≡ len = omega arith in rw (fits, whole, room, same) refl

-- The next packet is `p`, with `t` in the control register; `rest` is still to be sent.
pub record Sends (u : Usbfs) (p rest : List ℕ) (t : ℕ) : Type 0 where
  pub standard : u.setup_type ≡ 0x80
  pub code : u.setup_code ≡ 0x06
  pub length_buf : length (u.ep 0) ≡ 64
  pub ctrl : (u.at 0).tx_ctrl ≡ t
  pub now : take (u.at 0).tx_len (u.ep 0) ≡ p
  pub left : u.setup_len ≤ length (behind u)
  pub later : take u.setup_len (behind u) ≡ rest

-- The registers of endpoint 0 for a packet of `len` bytes.
abbrev pub ready : ℕ → ℕ → Usbfs → Usbfs
ready t len u = set_tx_ctrl 0 t (set_tx_len 0 len (record u { setup_len = u.setup_len - len }))

pub packet_len_lem : (u : Usbfs) → packet_len u ≡ min 64 u.setup_len
unfolding packet_len
packet_len_lem u = ground arith

rest_lem :
    (l : ℕ) (xs : List ℕ) (len : ℕ)
    → len ≡ min 64 l
    → take (l - len) (drop len xs) ≡ take (l - 64) (drop 64 xs)
rest_lem l xs len e = elim (Bool-cases (leb 64 l)) [
  | inl more ↦ let full : len ≡ 64 = ground arith in rw full refl
  | inr last ↦
      let done : l - len ≡ 0 = ground arith in
      let none_left : l - 64 ≡ 0 = ground arith in rw (done, none_left) refl
]

pub ready-Sends :
    (u : Usbfs) (t : ℕ)
    → u.setup_type ≡ 0x80
    → u.setup_code ≡ 0x06
    → length (u.ep 0) ≡ 64
    → u.setup_len ≤ length (behind u)
    → Sends
        (ready t (packet_len u) (loaded (packet_len u) u))
        (take 64 (take u.setup_len (behind u)))
        (drop 64 (take u.setup_len (behind u)))
        t
ready-Sends u t s c b h =
    let len = packet_len u in
    let bounded : len ≤ 64 = omega (arith, packet_len_lem u) in
    let within : len ≤ length (behind u) = omega (arith, packet_len_lem u) in
    let whole : length (take len (behind u)) ≡ len = omega (arith, length-take len (behind u)) in
    let on = drop-drop u.descr_offset len (contents u.g_line_coding u.descr) in
    record {
      standard = s;
      code = c;
      length_buf = omega (
        arith,
        length-append (take len (behind u)) (drop len (u.ep 0)),
        whole,
        length-drop len (u.ep 0),
      );
      ctrl = refl;
      now =
          sym (ap (λ n. take n (take len (behind u) ++ drop len (u.ep 0))) whole)
          ∙ take-append (take len (behind u)) (drop len (u.ep 0))
          ∙ ap (λ n. take n (behind u)) (packet_len_lem u)
          ∙ sym (take-take 64 u.setup_len (behind u));
      left = omega (arith, ap length on, length-drop len (behind u));
      later =
          ap (take (u.setup_len - len)) (sym on)
          ∙ rest_lem u.setup_len (behind u) len (packet_len_lem u)
          ∙ sym (drop-take 64 u.setup_len (behind u));
    }

next_descr_lem :
    (u : Usbfs)
    → u.setup_len ≤ length (behind u)
    → length (u.ep 0) ≡ 64
    → next_descr u
      ≡ some (ready (bit_xor (u.at 0).tx_ctrl tog) (packet_len u) (loaded (packet_len u) u))
unfolding next_descr
next_descr_lem u h b =
    let within : packet_len u ≤ length (behind u) = omega (arith, packet_len_lem u) in
    let room : packet_len u ≤ length (u.ep 0) = omega (arith, packet_len_lem u) in
    rw (next_descr, load_ep0_lem (packet_len u) u within room) refl

in_token_lem :
    (u u' : Usbfs)
    → (expect_status u).setup_type ≡ 0x80
    → (expect_status u).setup_code ≡ 0x06
    → next_descr (expect_status u) ≡ some u'
    → usbhd_irq_handler in_token u ≡ some (record u' { int_cleared = 0x02 }, [])
unfolding usbhd_irq_handler on_transfer on_in on_ep0_in
in_token_lem u u' s c e =
    let standard : (bit_and (expect_status u).setup_type 0x60 == 0x00) ≡ true =
      ap (λ x. bit_and x 0x60 == 0) s in
    let code : ((expect_status u).setup_code == 0x06) ≡ true = ap (λ x. x == 6) c in
    rw (standard, code, e) refl

pub ready-Apart : (u : Usbfs) (t len : ℕ) → Apart u (ready t len (loaded len u))
ready-Apart u t len = record {
  same_config = refl;
  same_status = refl;
  same_address = refl;
  same_coding = refl;
  same_endpoints = λ n h. ground arith;
}

-- The status stage may begin.
abbrev pub Ends : Usbfs → List ℕ → Type 0
Ends u rest = length rest ≡ 0 → (u.at 0).rx_ctrl ≡ 0x04

abbrev pub Steps : Usbfs → List ℕ → ℕ → Type 0
Steps u rest t =
    (u' : Usbfs) × (usbhd_irq_handler in_token u ≡ some (u', []))
    × Sends u' (take 64 rest) (drop 64 rest) (bit_xor t 4)
    × Apart u u'
    × Ends u' rest

pub int_cleared-Sends :
    (u : Usbfs) (p rest : List ℕ) (t : ℕ)
    → Sends u p rest t
    → Sends (record u { int_cleared = 0x02 }) p rest t
int_cleared-Sends u p rest t h = record {
  standard = h.standard;
  code = h.code;
  length_buf = h.length_buf;
  ctrl = h.ctrl;
  now = h.now;
  left = h.left;
  later = h.later;
}

int_cleared-Apart : (u u' : Usbfs) → Apart u u' → Apart u (record u' { int_cleared = 0x02 })
int_cleared-Apart u u' a = record {
  same_config = a.same_config;
  same_status = a.same_status;
  same_address = a.same_address;
  same_coding = a.same_coding;
  same_endpoints = a.same_endpoints;
}

-- The step from the state `v` that `expect_status` makes.
expected-Steps :
    (u v : Usbfs) (p rest : List ℕ) (t : ℕ)
    → expect_status u ≡ v
    → Sends v p rest t
    → Apart u v
    → Ends v rest
    → Steps u rest t
expected-Steps u v p rest t e h a ends =
    let len = packet_len v in
    let v' = ready (bit_xor (v.at 0).tx_ctrl tog) len (loaded len v) in
    let sent = ready-Sends v (bit_xor (v.at 0).tx_ctrl tog) h.standard h.code h.length_buf h.left in
    (
      record v' { int_cleared = 0x02 },
      in_token_lem u v' (ap (λ w. w.setup_type) e ∙ h.standard) (ap (λ w. w.setup_code) e ∙ h.code)
          (ap next_descr e ∙ next_descr_lem v h.left h.length_buf),
      int_cleared-Sends v' (take 64 rest) (drop 64 rest) (bit_xor t 4) (
          subst (λ x. Sends v' (take 64 x) (drop 64 x) (bit_xor t 4)) h.later
            (subst
              (λ x.
                Sends v' (take 64 (take v.setup_len (behind v)))
                  (drop 64 (take v.setup_len (behind v))) (bit_xor x 4))
              h.ctrl sent)),
      int_cleared-Apart u v' (Apart-trans a (ready-Apart v (bit_xor (v.at 0).tx_ctrl tog) len)),
      ends,
    )

pub Sends-Steps : (u : Usbfs) (p rest : List ℕ) (t : ℕ) → Sends u p rest t → Steps u rest t
unfolding expect_status
Sends-Steps u p rest t h = elim (Bool-cases (u.setup_len == 0)) [
  | inl last ↦
      expected-Steps u (set_rx_ctrl 0 0x04 u) p rest t (rw last refl)
        (record {
          standard = h.standard;
          code = h.code;
          length_buf = h.length_buf;
          ctrl = h.ctrl;
          now = h.now;
          left = h.left;
          later = h.later;
        })
        (record {
          same_config = refl;
          same_status = refl;
          same_address = refl;
          same_coding = refl;
          same_endpoints = λ n e. ground arith;
        })
        (λ none_left. refl)
  | inr more ↦
      expected-Steps u u p rest t (rw more refl) h (Apart-refl u) (λ none_left.
        absurd (ground (arith, ap length h.later, length-take u.setup_len (behind u))))
]
