-- ===== src/Usb/Driver/Irq.antt =====
-- `USBHD_IRQHandler`. The calls that it makes in usb_serial.c come with the new state.
use not.Prelude.{
  ℕ, ◌-◌, leb, ◌==◌, ◌&&◌, negate, if◌then◌else◌, Bool, List, [], ◌∷◌, Option, none, some, length,
  take, bit_and, bit_or, bit_xor,
}
use not.Hardware.{u16}
use not.Usb.Driver.{
  Usbfs, tog, res_ack, res_nak, with_res, set_tx_ctrl, set_rx_ctrl, set_tx_len, set_busy,
  device_endp_init,
}
use not.Usb.Driver.Setup.{packet_len, load_ep0, on_setup}

-- What the handler reads of the controller.
pub record Interrupt : Type 0 where
  pub int_fg : ℕ
  pub int_st : ℕ
  pub rx_len : ℕ
  pub mis_st : ℕ

-- `usbSerial_on_ep2_out` with the bytes of `USBFS_EP2_Buf` that it is to read, and
-- `usbSerial_on_ep3_in_done`.
pub data Call : Type 0 where
  on_ep2_out : List ℕ → Call
  on_ep3_in_done : Call

abbrev is_standard : Usbfs → Bool
is_standard u = bit_and u.setup_type 0x60 == 0x00

-- With no data left, the packet that ends the transfer may come.
unfoldable pub expect_status : Usbfs → Usbfs
expect_status u = if u.setup_len == 0 then set_rx_ctrl 0 (bit_or tog res_ack) u else u

-- The next packet of a descriptor.
unfoldable pub next_descr : Usbfs → Option Usbfs
next_descr u = elim (load_ep0 (packet_len u) u) [
  | none ↦ none
  | some u' ↦
      let u'' =
        set_tx_len 0 (packet_len u) (record u' { setup_len = u'.setup_len - packet_len u }) in
      some (set_tx_ctrl 0 (bit_xor (u''.at 0).tx_ctrl tog) u'')
]

-- The host took a packet of endpoint 0.
unfoldable pub on_ep0_in : Usbfs → Option Usbfs
on_ep0_in u =
    let u₁ = expect_status u in
    if negate (is_standard u₁)
    then some u₁
    else if u₁.setup_code == 0x06
    then next_descr u₁
    else if u₁.setup_code == 0x05
    then some (record u₁ { reg_dev_addr = bit_or (bit_and u₁.reg_dev_addr 0x80) u₁.dev_addr })
    else some u₁

-- The host took a packet of endpoint 1 or 3.
unfoldable pub in_done : ℕ → Usbfs → Usbfs
in_done n u =
    let u₁ = set_tx_ctrl n (bit_xor (u.at n).tx_ctrl tog) u in
    set_busy n 0 (set_tx_ctrl n (with_res (u₁.at n).tx_ctrl res_nak) u₁)

unfoldable pub on_in : Interrupt → Usbfs → Option (Usbfs × List Call)
on_in i u =
    let endp = bit_and i.int_st 0x0F in
    if endp == 0
    then (elim (on_ep0_in u) [ none ↦ none | some u' ↦ some (u', []) ])
    else if endp == 1
    then some (in_done 1 u, [])
    else if endp == 3
    then some (in_done 3 u, on_ep3_in_done ∷ [])
    else some (u, [])

-- `SET_LINE_CODING` takes the seven bytes that the host sent, and a request of no more data ends with
-- an empty packet.
unfoldable pub on_ep0_out : Interrupt → Usbfs → Usbfs
on_ep0_out i u =
    let u₁ = if is_standard u then u else record u { setup_len = 0 } in
    let u₂ =
      if negate (is_standard u) && u.setup_code == 0x20
      then record u₁ { g_line_coding = take 7 (u.ep 0) }
      else u₁ in
    if bit_and i.int_st 0x40 == 0
    then u
    else if u₂.setup_len == 0
    then set_tx_ctrl 0 (bit_or tog res_ack) (set_tx_len 0 0 u₂)
    else u₂

-- A packet from the host on endpoint 2.
unfoldable pub on_ep2 : Interrupt → Usbfs → Option (Usbfs × List Call)
on_ep2 i u =
    let u₁ = set_rx_ctrl 2 (bit_xor (u.at 2).rx_ctrl tog) u in
    let rlen = u16 i.rx_len in
    if leb rlen (length (u₁.ep 2))
    then some (
      set_rx_ctrl 2 (with_res (u₁.at 2).rx_ctrl res_ack) u₁,
      on_ep2_out (take rlen (u₁.ep 2)) ∷ [],
    )
    else none

unfoldable pub on_out : Interrupt → Usbfs → Option (Usbfs × List Call)
on_out i u =
    let endp = bit_and i.int_st 0x0F in
    if endp == 0 then some (on_ep0_out i u, []) else if endp == 2 then on_ep2 i u else some (u, [])

-- The switch on the token.
unfoldable pub on_transfer : Interrupt → Usbfs → Option (Usbfs × List Call)
on_transfer i u =
    let token = bit_and i.int_st 0x30 in
    if token == 0x20
    then on_in i u
    else if token == 0x00
    then on_out i u
    else if token == 0x30
    then (elim (on_setup u) [ none ↦ none | some u' ↦ some (u', []) ])
    else some (u, [])

abbrev clear_int : ℕ → Usbfs → Usbfs
clear_int v u = record u { int_cleared = v }

unfoldable pub on_suspend : Interrupt → Usbfs → Usbfs
on_suspend i u =
    if negate (bit_and i.mis_st 0x04 == 0)
    then record u { dev_sleep_status = bit_or u.dev_sleep_status 0x02 }
    else record u { dev_sleep_status = bit_and u.dev_sleep_status 0xFD }

-- `USBHD_IRQHandler`. `none`: out of bounds.
unfoldable pub usbhd_irq_handler : Interrupt → Usbfs → Option (Usbfs × List Call)
usbhd_irq_handler i u =
    if negate (bit_and i.int_fg 0x02 == 0)
    then (elim (on_transfer i u) [
      | none ↦ none
      | some (u', calls) ↦ some (clear_int 0x02 u', calls)
    ])
    else if negate (bit_and i.int_fg 0x01 == 0)
    then some (clear_int 0x01 (device_endp_init (record u { reg_dev_addr = 0 })), [])
    else if negate (bit_and i.int_fg 0x04 == 0)
    then some (clear_int 0x04 (on_suspend i u), [])
    else some (clear_int i.int_fg u, [])
