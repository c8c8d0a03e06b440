-- ===== src/Usb/Driver/ControlRead.antt =====
-- The setup stage of GET_DESCRIPTOR, and the whole transfer.
use not.Prelude.{
  ℕ, ◌^◌, ◌%◌, ◌<◌, ◌≤◌, min, ◌≡◌, ◌≢◌, ◌⊎◌, refl, sym, ap, ◌∙◌, arith, leb, ltb, ◌==◌,
  if◌then◌else◌, false, Bool-cases, inl, inr, List, [], Option, none, some, length, take, drop,
  length-take, length-drop, take-take, take_all, bit_and, bit_or,
}
use not.Usb.Driver.{Usbfs, Object, tog, res_nak, set_tx_ctrl, set_rx_ctrl}
use not.Usb.Driver.Descriptors.{contents}
use not.Usb.Driver.Setup.{
  packet_len, behind, on_setup, store_setup, which_descr, get_descriptor, send_descr,
  standard_request, answer,
}
use not.Usb.Driver.Irq.{usbhd_irq_handler, on_transfer}
use not.Usb.Driver.Names.{
  descriptor_request, descr_value, receives, descr_value-lt, which_descr_lem, size_lem,
}
use not.Usb.Driver.Features.{clamp_len}
use not.Usb.Driver.Apart.{Apart, Apart-trans}
use not.Usb.Driver.Packet.{
  setup_token, Sends, loaded, load_ep0_lem, int_cleared-Sends, ready, ready-Sends, packet_len_lem,
}
use not.Usb.Driver.Transfer.{host_in, host_in_lem, split-Complete, take_split}

clamp_len_lem :
    (most : ℕ) (u : Usbfs) → clamp_len most u ≡ record u { setup_len = min most u.setup_len }
unfolding clamp_len
clamp_len_lem most u = elim (Bool-cases (ltb most u.setup_len)) [
  | inl more ↦
      let least : most ≡ min most u.setup_len = ground arith in
      rw more (ap (λ k. record u { setup_len = k }) least)
  | inr less ↦
      let least : u.setup_len ≡ min most u.setup_len = ground arith in
      rw less (ap (λ k. record u { setup_len = k }) least)
]

-- The state from which the first packet of an object is loaded.
abbrev aimed : Object → ℕ → Usbfs → Usbfs
aimed o len u = record u { descr = o; descr_offset = 0; setup_len = min len u.setup_len }

module _ (u : Usbfs) (o : Object) (buf : length (u.ep 0) ≡ 64) where
  abbrev size : ℕ
  size = length (contents u.g_line_coding o)

  get_descriptor_lem :
      which_descr u.setup_value ≡ some (o, size)
      → get_descriptor u ≡ some (loaded (packet_len (aimed o size u)) (aimed o size u), false)
  unfolding get_descriptor send_descr
  get_descriptor_lem named =
      let v = aimed o size u in
      let within : packet_len v ≤ length (behind v) = omega (arith, packet_len_lem v) in
      let room : packet_len v ≤ length (v.ep 0) = omega (arith, packet_len_lem v) in
      rw
        (
          get_descriptor,
          named,
          send_descr,
          clamp_len_lem size (record u { descr = o; descr_offset = 0 }),
          load_ep0_lem (packet_len v) v within room,
        )
        refl

pub answer_lem :
    (u : Usbfs) (len : ℕ)
    → (bit_and u.setup_type 0x80 == 0) ≡ false
    → packet_len u ≡ len
    → answer false u ≡ ready 0x04 len u
unfolding answer packet_len
answer_lem u len back e =
    let same : (if ltb 64 u.setup_len then 64 else u.setup_len)
        ≡ (if leb 64 u.setup_len then 64 else u.setup_len) =
      ground arith in
    rw (back, same ∙ e) refl

-- A control read: the request, and its data as long as the host wants some.
pub control_read : List ℕ → ℕ → Usbfs → Option (List ℕ × Usbfs)
control_read request want u = elim (usbhd_irq_handler setup_token (receives request u)) [
  | none ↦ none
  | some (u', calls) ↦ host_in 3 want 0x04 u'
]

module _ (o : Object) (value lo hi n : ℕ) (u : Usbfs) where
  -- The state when the request is stored.
  abbrev asked : Usbfs
  asked =
      let v = receives (descriptor_request value lo hi n) u in
      store_setup (set_rx_ctrl 0 (bit_or tog res_nak) (set_tx_ctrl 0 (bit_or tog res_nak) v))

  -- The same when the first packet of the object is loaded.
  abbrev start : Usbfs
  start = aimed o (length (contents u.g_line_coding o)) asked

  module _ (buf : length (u.ep 0) ≡ 64) (named : descr_value o ≡ some value)
      (short : n < 2 ^ 16) where
    asked_buf : length (asked.ep 0) ≡ 64
    unfolding store_setup
    asked_buf = omega (arith, length-drop 8 (u.ep 0))

    asked_value : asked.setup_value ≡ value
    unfolding store_setup
    asked_value = omega (arith, descr_value-lt o value named)

    asked_len : asked.setup_len ≡ n
    unfolding store_setup
    asked_len = omega arith

    asked_descr : which_descr asked.setup_value ≡ some (o, length (contents u.g_line_coding o))
    asked_descr = ap which_descr asked_value ∙ which_descr_lem u.g_line_coding o value named

    on_setup_lem :
        on_setup (receives (descriptor_request value lo hi n) u)
        ≡ some (ready 0x04 (packet_len start) (loaded (packet_len start) start))
    unfolding on_setup standard_request store_setup packet_len
    on_setup_lem =
        let started = loaded (packet_len start) start in
        rw
          (
            on_setup,
            get_descriptor_lem asked o asked_buf asked_descr,
            answer_lem started (packet_len start) refl refl,
          )
          refl

    asked-Apart :
        Apart u (record (ready 0x04 (packet_len start) (loaded (packet_len start) start)) {
          int_cleared = 0x02;
        })
    unfolding store_setup
    asked-Apart = record {
      same_config = refl;
      same_status = refl;
      same_address = refl;
      same_coding = refl;
      same_endpoints = λ m h. ground arith;
    }

    -- The data that the host is to get.
    abbrev data_part : List ℕ
    data_part = take start.setup_len (behind start)

    data_lem : data_part ≡ take n (contents u.g_line_coding o)
    unfolding store_setup
    data_lem =
        let whole = contents u.g_line_coding o in
        let same : start.setup_len ≡ min n (length whole) = omega (arith, asked_len) in
        ap (λ k. take k whole) same
        ∙ sym (take-take n (length whole) whole)
        ∙ ap (take n) (take_all (length whole) whole (omega arith))

    data_done : (length data_part ≡ n) ⊎ (length data_part % 64 ≢ 0)
    unfolding store_setup
    data_done =
        let whole = contents u.g_line_coding o in
        let size = size_lem u.g_line_coding o value named in
        let got = ap length data_lem ∙ length-take n whole in
        elim (Bool-cases (leb n (length whole))) [
          | inl less ↦ inl (ground (arith, got))
          | inr more ↦
              let all : length data_part ≡ length whole = ground (arith, got) in
              inr (λ e. size.1 (ap (λ k. k % 64) (sym all) ∙ e))
        ]

    started-Sends :
        Sends
          (record (ready 0x04 (packet_len start) (loaded (packet_len start) start)) {
            int_cleared = 0x02;
          })
          (take 64 data_part)
          (drop 64 data_part)
          0x04
    unfolding store_setup
    started-Sends =
        let w = ready 0x04 (packet_len start) (loaded (packet_len start) start) in
        int_cleared-Sends w (take 64 data_part) (drop 64 data_part) 0x04
          (ready-Sends start 0x04 refl refl asked_buf (omega arith))

    setup_lem :
        usbhd_irq_handler setup_token (receives (descriptor_request value lo hi n) u)
        ≡ some (
          record (ready 0x04 (packet_len start) (loaded (packet_len start) start)) {
            int_cleared = 0x02;
          },
          [],
        )
    unfolding usbhd_irq_handler on_transfer
    setup_lem = rw (usbhd_irq_handler, on_transfer, on_setup_lem) refl

    -- The host that asks for a descriptor by GET_DESCRIPTOR gets its bytes, as many of them as it asked
    -- for or as there are, in packets with the right toggles; then endpoint 0 is ready for the
    -- packet that ends the transfer, and the address, the configuration, the line coding and
    -- the other endpoints are as before. This is so for each of the six descriptors and any state
    -- of the driver with a buffer of 64 bytes.
    pub control_read_lem :
        (u' : Usbfs) × (control_read (descriptor_request value lo hi n) n u
          ≡ some (take n (contents u.g_line_coding o), u'))
        × Apart u u'
        × ((u'.at 0).rx_ctrl ≡ 0x04)
    unfolding control_read
    control_read_lem =
        let size = size_lem u.g_line_coding o value named in
        let got = ap length data_lem ∙ length-take n (contents u.g_line_coding o) in
        let w = record (ready 0x04 (packet_len start) (loaded (packet_len start) start)) {
          int_cleared = 0x02;
        } in
        let (u', read, apart, ready') =
          host_in_lem 2 n 0x04 w (take 64 data_part) (drop 64 data_part) started-Sends (inl refl)
            (split-Complete n data_part (omega (arith, got)) data_done)
            (omega (arith, got, length-drop 64 data_part)) in
        (
          u',
          rw (control_read, setup_lem)
              (read ∙ ap (λ l. some (l, u')) (take_split 64 data_part ∙ data_lem)),
          Apart-trans asked-Apart apart,
          ready',
        )
