-- ===== src/Usb/Driver.antt =====
-- User/USB_Serial/src/ch32v20x_usbfs_device.c: the state of the driver of the USB device controller.
-- The controller is not part of these sources. Its registers are fields; what it writes by itself,
-- the bytes of a packet and the flags of an interrupt, comes in from outside.
pub mod Descriptors
pub mod Upload
pub mod Features
pub mod Setup
pub mod Irq
pub mod Apart
pub mod Names
pub mod Packet
pub mod Transfer
pub mod ControlRead
pub mod Events
pub mod Refines
pub mod Enumerate
pub mod Stale
mod Tests
use not.Prelude.{
  ℕ, ◌+◌, ◌==◌, leb, ◌&&◌, if◌then◌else◌, Bool, true, false, List, [], ◌∷◌, ◌++◌, Option, none,
  some, length, take, drop, bit_and, bit_or,
}

-- What `pUSBFS_Descr` points into.
pub data Object : Type 0 where
  nothing dev_descr cfg_descr lang_descr manu_info prod_info ser_num_info line_coding : Object

-- What the DMA register of an endpoint points to: one of the buffers of the driver, or memory of the
-- caller of `endp_data_up`, taken as its bytes at the time of the call.
pub data Target : Type 0 where
  nowhere : Target
  ep_buf : ℕ → Target
  caller : List ℕ → Target

-- The registers of an endpoint, and its entry of `USBFS_Endp_Busy`.
pub record Endpoint : Type 0 where
  pub dma : Target
  pub tx_len : ℕ
  pub tx_ctrl : ℕ
  pub rx_ctrl : ℕ
  pub busy : ℕ

pub record Usbfs : Type 0 where
  pub setup_type : ℕ
  pub setup_code : ℕ
  pub setup_value : ℕ
  pub setup_index : ℕ
  pub setup_len : ℕ
  pub dev_config : ℕ
  pub dev_addr : ℕ
  pub dev_sleep_status : ℕ
  pub dev_enum_status : ℕ
  pub descr : Object
  pub descr_offset : ℕ
  pub g_line_coding : List ℕ
  -- `USBFS_EP0_Buf` to `USBFS_EP3_Buf`.
  pub ep : ℕ → List ℕ
  -- The endpoints 0 to 7.
  pub at : ℕ → Endpoint
  -- `UEP4_1_MOD`, `UEP2_3_MOD`, `UEP5_6_MOD`, `UEP7_MOD`.
  pub mode : ℕ → ℕ
  pub base_ctrl : ℕ
  pub udev_ctrl : ℕ
  pub int_en : ℕ
  pub reg_dev_addr : ℕ
  -- The last value written to `INT_FG`, which clears the flags that are 1 in it.
  pub int_cleared : ℕ
  pub irq_enabled : Bool

abbrev pub update : {A : Type 0} → (ℕ → A) → ℕ → A → ℕ → A
update f n v m = if m == n then v else f m

-- `DEF_USBD_UEP0_SIZE`.
abbrev pub ep0_size : ℕ
ep0_size = 64

-- The bits of the control registers, the same for the two directions.
abbrev pub tog : ℕ
tog = 0x04

abbrev pub res_ack : ℕ
res_ack = 0x00

abbrev pub res_nak : ℕ
res_nak = 0x02

abbrev pub res_stall : ℕ
res_stall = 0x03

-- `(r & ~RES_MASK) | v`, on a register of eight bits.
unfoldable pub with_res : ℕ → ℕ → ℕ
with_res r v = bit_or (bit_and r 0xFC) v

-- Writes of one register.
abbrev pub set_tx_ctrl : ℕ → ℕ → Usbfs → Usbfs
set_tx_ctrl n v u = record u { at = update u.at n (record (u.at n) { tx_ctrl = v }) }

abbrev pub set_rx_ctrl : ℕ → ℕ → Usbfs → Usbfs
set_rx_ctrl n v u = record u { at = update u.at n (record (u.at n) { rx_ctrl = v }) }

abbrev pub set_tx_len : ℕ → ℕ → Usbfs → Usbfs
set_tx_len n v u = record u { at = update u.at n (record (u.at n) { tx_len = v }) }

abbrev pub set_busy : ℕ → ℕ → Usbfs → Usbfs
set_busy n v u = record u { at = update u.at n (record (u.at n) { busy = v }) }

abbrev pub set_dma : ℕ → Target → Usbfs → Usbfs
set_dma n v u = record u { at = update u.at n (record (u.at n) { dma = v }) }

-- `memcpy` to an offset of a buffer. `none`: out of bounds.
unfoldable pub copy_to : List ℕ → ℕ → List ℕ → Option (List ℕ)
copy_to buf offset bytes =
    if leb (offset + length bytes) (length buf)
    then some (take offset buf ++ bytes ++ drop (offset + length bytes) buf)
    else none

-- The loop that clears `USBFS_Endp_Busy`.
abbrev clear_busy : (ℕ → Endpoint) → ℕ → Endpoint
clear_busy at n = if leb 8 n then at n else record (at n) { busy = 0 }

-- `USBFS_Device_Endp_Init`.
unfoldable pub device_endp_init : Usbfs → Usbfs
device_endp_init u₀ =
    let u₁ = record u₀ { mode = update (update u₀.mode 0 0x40) 1 (bit_or 0x08 0x40) } in
    let u₂ =
      set_dma 3 (ep_buf 3)
        (set_dma 2 (ep_buf 2) (set_dma 1 (ep_buf 1) (set_dma 0 (ep_buf 0) u₁))) in
    let u₃ = set_rx_ctrl 2 res_ack (set_rx_ctrl 0 res_ack u₂) in
    let u₄ = set_tx_len 3 0 (set_tx_len 1 0 u₃) in
    let u₅ = set_tx_ctrl 3 res_nak (set_tx_ctrl 1 res_nak (set_tx_ctrl 0 res_nak u₄)) in
    record u₅ { at = clear_busy u₅.at }

-- `USBFS_Device_Init`: of a register that it writes several times, the last value.
unfoldable pub device_init : Bool → Usbfs → Usbfs
device_init sta u =
    if sta
    then (let u₁ = record u { base_ctrl = 0x00; int_en = bit_or (bit_or 0x04 0x01) 0x02 } in
        let u₂ = device_endp_init (record u₁ { base_ctrl = bit_or (bit_or 0x20 0x08) 0x01 }) in
        record u₂ { udev_ctrl = bit_or 0x80 0x01; irq_enabled = true })
    else record u { base_ctrl = 0x00; irq_enabled = false }
