-- ===== src/Usb/Driver/Enumerate.antt =====
-- From a bus reset to a configured device.
use not.Prelude.{
  ℕ, ◌+◌, ◌*◌, ◌^◌, ◌<◌, ◌≡◌, ◌≢◌, refl, ap, ◌∙◌, arith, ◌==◌, ◌&&◌, if◌then◌else◌, true, false,
  List, [], ◌∷◌, Option, none, some, length, holds_below, holds_below_sound, bit_and, bit_or,
}
use not.Usb.Driver.{Usbfs, device_endp_init}
use not.Usb.Driver.Setup.{on_setup, store_setup, standard_request, answer}
use not.Usb.Driver.Irq.{Interrupt, usbhd_irq_handler, on_transfer, on_in, on_ep0_in, expect_status}
use not.Usb.Driver.Packet.{in_token, setup_token}
use not.Usb.Driver.Names.{receives}
use not.Usb.Driver.Events.{IsSetUp, Seen}
use not.Usb.Serial.{Serial, connected}

abbrev pub reset : Interrupt
reset = record { int_fg = 0x01; int_st = 0; rx_len = 0; mis_st = 0 }

-- A standard request to the device, with a value of one byte and no data.
abbrev pub request_of : ℕ → ℕ → List ℕ
request_of code value = 0x00 ∷ code ∷ value ∷ 0 ∷ 0 ∷ 0 ∷ 0 ∷ 0 ∷ []

-- A control transfer with no data: the setup packet, and the empty packet that the device answers with.
-- `none`: out of bounds, or no such packet is ready.
unfoldable pub control_write : List ℕ → Usbfs → Option Usbfs
control_write request u = elim (usbhd_irq_handler setup_token (receives request u)) [
  | none ↦ none
  | some (u', calls) ↦
      if (u'.at 0).tx_ctrl == 0x04 && (u'.at 0).tx_len == 0
      then (elim (usbhd_irq_handler in_token u') [ none ↦ none | some (u'', calls') ↦ some u'' ])
      else none
]

-- A bus reset, SET_ADDRESS and SET_CONFIGURATION.
unfoldable pub enumerate : ℕ → ℕ → Usbfs → Option Usbfs
enumerate address config u = elim (usbhd_irq_handler reset u) [
  | none ↦ none
  | some (u₁, calls) ↦ elim (control_write (request_of 0x05 address) u₁) [
    | none ↦ none
    | some u₂ ↦ control_write (request_of 0x09 config) u₂
  ]
]

byte_table : holds_below 256 (λ x. bit_and (x + 0 * 2 ^ 8) 0xFF == x && bit_or 0 x == x) ≡ true
unfolding holds_below
byte_table = refl

byte_lem : (x : ℕ) → x < 256 → (bit_and (x + 0 * 2 ^ 8) 0xFF ≡ x) × (bit_or 0 x ≡ x)
byte_lem x h =
    let all =
      holds_below_sound 256 (λ x. bit_and (x + 0 * 2 ^ 8) 0xFF == x && bit_or 0 x == x) x h
        byte_table in
    ground arith

abbrev or_else : Usbfs → Option Usbfs → Usbfs
or_else u none = u
or_else u (some u') = u'

-- The part of the state that usb_serial.c reads, put into its variables; nothing is under way.
abbrev pub view : Usbfs → Serial → Serial
view u s = record s {
  dev_config = u.dev_config;
  dev_enum_status = u.dev_enum_status;
  ep3_busy = false;
}

-- After a bus reset a host that gives the device an address and a configuration finds both requests
-- answered; then the controller has the address, usb_serial.c takes the device for connected, and
-- the endpoints are set up and idle, as it has to be for the transfers of its data. The
-- configuration is not 0, and the buffers of the driver have their 64 bytes.
pub enumerate_lem :
    (address config : ℕ) (u : Usbfs) (s : Serial)
    → address < 128
    → config < 256
    → config ≢ 0
    → length (u.ep 2) ≡ 64
    → length (u.ep 3) ≡ 64
    → (u' : Usbfs) × (enumerate address config u ≡ some u')
      × (u'.reg_dev_addr ≡ address)
      × (connected (view u' s) ≡ true)
      × IsSetUp u'
      × Seen u' (view u' s)
unfolding enumerate control_write usbhd_irq_handler on_transfer on_setup store_setup
    standard_request answer on_in on_ep0_in expect_status device_endp_init connected
enumerate_lem address config u s a c some_config b2 b3 =
    let u' = or_else u (enumerate address config u) in
    let a' = byte_lem address (omega arith) in
    let c' = byte_lem config c in
    let up : IsSetUp u' = record {
      directions = refl;
      out_buf = b2;
      in_buf = b3;
      in_dma = refl;
      in_ctrl = omega arith;
    } in
    (
      u',
      refl,
      ap (bit_or 0) a'.0 ∙ a'.1,
      ground (arith, c'.0),
      up,
      record { config = refl; status = refl; busy = refl; last = λ e. cc; acked = λ e. cc },
    )
