-- ===== src/Usb/Driver/Features.antt =====
-- The requests on features and status in the setup stage of USBHD_IRQHandler. A Bool says whether
-- `errflag` is set.
use not.Prelude.{
  ℕ, ltb, ◌==◌, ◌&&◌, negate, if◌then◌else◌, Bool, true, false, get_or, set, bit_and, bit_or,
}
use not.Usb.Driver.{Usbfs, update, res_ack, res_nak, res_stall, with_res, set_tx_ctrl, set_rx_ctrl}
use not.Usb.Driver.Descriptors.{my_cfg_descr}

abbrev pub put_ep0 : ℕ → ℕ → Usbfs → Usbfs
put_ep0 i b u = record u { ep = update u.ep 0 (set (u.ep 0) i b) }

-- `if ( USBFS_SetupReqLen > most ) USBFS_SetupReqLen = most;`
unfoldable pub clamp_len : ℕ → Usbfs → Usbfs
clamp_len most u = if ltb most u.setup_len then record u { setup_len = most } else u

abbrev to_device : Usbfs → Bool
to_device u = bit_and u.setup_type 0x1F == 0x00

abbrev to_endpoint : Usbfs → Bool
to_endpoint u = bit_and u.setup_type 0x1F == 0x02

abbrev low_value : Usbfs → ℕ
low_value u = bit_and u.setup_value 0xFF

abbrev low_index : Usbfs → ℕ
low_index u = bit_and u.setup_index 0xFF

-- `USB_CLEAR_FEATURE`.
unfoldable pub clear_feature : Usbfs → Usbfs × Bool
clear_feature u =
    if to_device u
    then (
      (if low_value u == 0x01
          then record u { dev_sleep_status = bit_and u.dev_sleep_status 0xFE }
          else u),
      false,
    )
    else if to_endpoint u && low_value u == 0x00
    then (if low_index u == 0x81
        then (set_tx_ctrl 1 res_nak u, false)
        else if low_index u == 0x02
        then (set_rx_ctrl 2 res_ack u, false)
        else if low_index u == 0x83
        then (set_tx_ctrl 3 res_nak u, false)
        else (u, true))
    else (u, true)

-- `USB_SET_FEATURE`.
unfoldable pub set_feature : Usbfs → Usbfs × Bool
set_feature u =
    if to_device u
    then (if low_value u == 0x01 && negate (bit_and (get_or my_cfg_descr 7 0) 0x20 == 0)
        then (record u { dev_sleep_status = bit_or u.dev_sleep_status 0x01 }, false)
        else (u, true))
    else if to_endpoint u && low_value u == 0x00
    then (if low_index u == 0x81
        then (set_tx_ctrl 1 (with_res (u.at 1).tx_ctrl res_stall) u, false)
        else if low_index u == 0x02
        then (set_rx_ctrl 2 (with_res (u.at 2).rx_ctrl res_stall) u, false)
        else if low_index u == 0x83
        then (set_tx_ctrl 3 (with_res (u.at 3).tx_ctrl res_stall) u, false)
        else (u, true))
    else (u, true)

-- `if ( ( ctrl & RES_MASK ) == RES_STALL ) USBFS_EP0_Buf[ 0 ] = 0x01;`
abbrev note_halt : ℕ → Usbfs → Usbfs
note_halt ctrl u = if bit_and ctrl 0x03 == res_stall then put_ep0 0 0x01 u else u

-- The status bits of `USB_GET_STATUS`.
unfoldable pub status_bits : Usbfs → Usbfs × Bool
status_bits u =
    if to_device u
    then ((if bit_and u.dev_sleep_status 0x01 == 0 then u else put_ep0 0 0x02 u), false)
    else if to_endpoint u
    then (if low_index u == 0x81
        then (note_halt (u.at 1).tx_ctrl u, false)
        else if low_index u == 0x02
        then (note_halt (u.at 2).rx_ctrl u, false)
        else if low_index u == 0x83
        then (note_halt (u.at 3).tx_ctrl u, false)
        else (u, true))
    else (u, true)

-- `USB_GET_STATUS`.
unfoldable pub get_status : Usbfs → Usbfs × Bool
get_status u =
    let (u', err) = status_bits (put_ep0 1 0x00 (put_ep0 0 0x00 u)) in (clamp_len 2 u', err)
