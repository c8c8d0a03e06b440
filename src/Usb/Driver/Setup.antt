-- ===== src/Usb/Driver/Setup.antt =====
-- The setup stage of a control transfer in USBHD_IRQHandler: a request is stored, carried out, and
-- answered on endpoint 0. A Bool says whether `errflag` is set.
use not.Prelude.{
  ℕ, ◌+◌, ◌-◌, ◌*◌, ◌^◌, ◌/◌, leb, ltb, ◌==◌, ◌||◌, negate, if◌then◌else◌, Bool, true, false, List,
  Option, none, some, length, take, drop, get_or, bit_and, bit_or,
}
use not.Hardware.{u8}
use not.Usb.Driver.{
  Usbfs, Object, update, tog, res_ack, res_nak, res_stall, set_tx_ctrl, set_rx_ctrl, set_tx_len,
  ep0_size, copy_to,
}
use not.Usb.Driver.Features.{put_ep0, clamp_len, clear_feature, set_feature, get_status}
use not.Usb.Driver.Descriptors.{
  contents, desc_len, config_desc_len, my_dev_descr, my_cfg_descr, my_lang_descr, my_manu_info,
  my_prod_info, my_ser_num_info,
}

-- The fields of the packet in `USBFS_EP0_Buf`, little-endian.
abbrev setup_byte : Usbfs → ℕ → ℕ
setup_byte u i = get_or (u.ep 0) i 0

abbrev setup_word : Usbfs → ℕ → ℕ
setup_word u i = setup_byte u i + setup_byte u (i + 1) * 2 ^ 8

unfoldable pub store_setup : Usbfs → Usbfs
store_setup u = record u {
  setup_type = setup_byte u 0;
  setup_code = setup_byte u 1;
  setup_len = setup_word u 6;
  setup_value = setup_word u 2;
  setup_index = setup_word u 4;
}

-- `len = MIN(USBFS_SetupReqLen, DEF_USBD_UEP0_SIZE)`.
unfoldable pub packet_len : Usbfs → ℕ
packet_len u = if leb ep0_size u.setup_len then ep0_size else u.setup_len

-- The bytes from `pUSBFS_Descr` to the end of what it points into.
abbrev pub behind : Usbfs → List ℕ
behind u = drop u.descr_offset (contents u.g_line_coding u.descr)

-- `memcpy( USBFS_EP0_Buf, pUSBFS_Descr, len ); pUSBFS_Descr += len;`. `none`: out of bounds.
unfoldable pub load_ep0 : ℕ → Usbfs → Option Usbfs
load_ep0 len u =
    if leb len (length (behind u))
    then (elim (copy_to (u.ep 0) 0 (take len (behind u))) [
      | none ↦ none
      | some buf ↦ some (record u { ep = update u.ep 0 buf; descr_offset = u.descr_offset + len })
    ])
    else none

abbrev point_at : Object → Usbfs → Usbfs
point_at o u = record u { descr = o; descr_offset = 0 }

-- The switch on a class request.
unfoldable pub class_request : Usbfs → Usbfs × Bool
class_request u =
    if u.setup_code == 0x21
    then (point_at Object.line_coding u, false)
    else (u, negate (u.setup_code == 0x20 || u.setup_code == 0x22 || u.setup_code == 0x23))

-- The choice between a class request, a vendor request and any other.
unfoldable pub other_request : Usbfs → Usbfs × Bool
other_request u =
    if negate (bit_and u.setup_type 0x20 == 0)
    then class_request u
    else (u, bit_and u.setup_type 0x40 == 0)

-- A request that is not a standard one.
unfoldable pub non_standard_request : Usbfs → Option (Usbfs × Bool)
non_standard_request u =
    let (u', err) = other_request u in
    elim (load_ep0 (packet_len u') u') [ none ↦ none | some u'' ↦ some (u'', err) ]

-- The descriptor that a value names, with its length.
unfoldable pub string_descr : ℕ → Option (Object × ℕ)
string_descr index =
    if index == 0
    then some (Object.lang_descr, desc_len my_lang_descr)
    else if index == 1
    then some (Object.manu_info, desc_len my_manu_info)
    else if index == 2
    then some (Object.prod_info, desc_len my_prod_info)
    else if index == 3
    then some (Object.ser_num_info, desc_len my_ser_num_info)
    else none

unfoldable pub which_descr : ℕ → Option (Object × ℕ)
which_descr value =
    if u8 (value / 2 ^ 8) == 1
    then some (Object.dev_descr, u8 (desc_len my_dev_descr))
    else if u8 (value / 2 ^ 8) == 2
    then some (Object.cfg_descr, config_desc_len my_cfg_descr)
    else if u8 (value / 2 ^ 8) == 3
    then string_descr (bit_and value 0xFF)
    else none

-- `len` bytes of what the pointer is at, as many of them as the host asked for.
unfoldable pub send_descr : ℕ → Bool → Usbfs → Option (Usbfs × Bool)
send_descr len err u =
    let u' = clamp_len len u in
    elim (load_ep0 (packet_len u') u') [ none ↦ none | some u'' ↦ some (u'', err) ]

-- `USB_GET_DESCRIPTOR`. For a descriptor that there is not, `len` is 0 and the pointer stays.
unfoldable pub get_descriptor : Usbfs → Option (Usbfs × Bool)
get_descriptor u = elim (which_descr u.setup_value) [
  | none ↦ send_descr 0 true u
  | some (o, n) ↦ send_descr n false (point_at o u)
]

-- The switch on a standard request.
unfoldable pub standard_request : Usbfs → Option (Usbfs × Bool)
standard_request u =
    if u.setup_code == 0x06
    then get_descriptor u
    else if u.setup_code == 0x05
    then some (record u { dev_addr = bit_and u.setup_value 0xFF }, false)
    else if u.setup_code == 0x08
    then some (clamp_len 1 (put_ep0 0 u.dev_config u), false)
    else if u.setup_code == 0x09
    then some (record u { dev_config = bit_and u.setup_value 0xFF; dev_enum_status = 0x01 }, false)
    else if u.setup_code == 0x01
    then some (clear_feature u)
    else if u.setup_code == 0x03
    then some (set_feature u)
    else if u.setup_code == 0x0A
    then some (clamp_len 1 (put_ep0 0 0x00 u), false)
    else if u.setup_code == 0x0B
    then some (u, false)
    else if u.setup_code == 0x00
    then some (get_status u)
    else some (u, true)

-- How endpoint 0 goes on after a request.
unfoldable pub answer : Bool → Usbfs → Usbfs
answer err u =
    let len = if ltb ep0_size u.setup_len then ep0_size else u.setup_len in
    if err
    then set_rx_ctrl 0 (bit_or tog res_stall) (set_tx_ctrl 0 (bit_or tog res_stall) u)
    else if negate (bit_and u.setup_type 0x80 == 0)
    then set_tx_ctrl 0 (bit_or tog res_ack)
        (set_tx_len 0 len (record u { setup_len = u.setup_len - len }))
    else if u.setup_len == 0
    then set_tx_ctrl 0 (bit_or tog res_ack) (set_tx_len 0 0 u)
    else set_rx_ctrl 0 (bit_or tog res_ack) u

-- The case `USBFS_UIS_TOKEN_SETUP`. `none`: out of bounds.
unfoldable pub on_setup : Usbfs → Option Usbfs
on_setup u =
    let u₁ = set_rx_ctrl 0 (bit_or tog res_nak) (set_tx_ctrl 0 (bit_or tog res_nak) u) in
    let u₂ = store_setup u₁ in
    let done =
      if bit_and u₂.setup_type 0x60 == 0x00 then standard_request u₂ else non_standard_request u₂ in
    elim done [ none ↦ none | some (u₃, err) ↦ some (answer err u₃) ]
