-- ===== src/Usb/Driver/Upload.antt =====
-- `USBFS_Endp_DataUp`: a packet for an IN endpoint.
use not.Prelude.{
  ℕ, ◌^◌, ◌/◌, leb, ◌==◌, ◌&&◌, ◌||◌, if◌then◌else◌, Bool, List, Option, none, some, length,
  bit_and,
}
use not.Hardware.{u8, u16}
use not.Usb.Driver.{
  Usbfs, nowhere, ep_buf, caller, update, res_ack, with_res, set_tx_len, set_tx_ctrl, set_busy,
  set_dma, copy_to,
}

-- `endp_mode`: the half of the mode register that belongs to the endpoint.
unfoldable pub endp_mode : ℕ → Usbfs → ℕ
endp_mode endp u =
    if endp == 1 || endp == 4
    then (if endp == 1 then u8 (u.mode 0 / 2 ^ 4) else u.mode 0)
    else if endp == 2 || endp == 3
    then (if endp == 3 then u8 (u.mode 1 / 2 ^ 4) else u.mode 1)
    else if endp == 5 || endp == 6
    then (if endp == 6 then u8 (u.mode 2 / 2 ^ 4) else u.mode 2)
    else u.mode 3

-- `memcpy( USBFSD_UEP_BUF(endp) + offset, pbuf, len )`.
unfoldable pub copy_up : ℕ → ℕ → List ℕ → Usbfs → Option Usbfs
copy_up endp offset bytes u = elim (u.at endp).dma [
  | nowhere ↦ none
  | ep_buf n ↦ elim (copy_to (u.ep n) offset bytes) [
    | none ↦ none
    | some buf ↦ some (record u { ep = update u.ep n buf })
  ]
  | caller old ↦ elim (copy_to old offset bytes) [
    | none ↦ none
    | some buf ↦ some (set_dma endp (caller buf) u)
  ]
]

-- `buf_load_offset` and the load, with `bytes` the `len` bytes at `pbuf`, and `dma_mode` for
-- `mod == DEF_UEP_DMA_LOAD`.
unfoldable pub load_packet : ℕ → List ℕ → Bool → Usbfs → Option Usbfs
load_packet endp bytes dma_mode u =
    if bit_and (endp_mode endp u) 0x08 == 0
    then (if dma_mode then some (set_dma endp (caller bytes) u) else copy_up endp 0 bytes u)
    else copy_up endp 64 bytes u

-- The transmission is set up: length, ACK, busy.
unfoldable pub arm : ℕ → ℕ → Usbfs → Usbfs
arm endp len u =
    let u₁ = set_tx_len endp (u16 len) u in
    set_busy endp 0x01 (set_tx_ctrl endp (with_res (u₁.at endp).tx_ctrl res_ack) u₁)

-- `USBFS_Endp_DataUp`. `none`: out of bounds.
unfoldable pub endp_data_up : ℕ → List ℕ → Bool → Usbfs → Option (Usbfs × ℕ)
endp_data_up endp bytes dma_mode u =
    if leb 1 endp && leb endp 7
    then (if (u.at endp).busy == 0
        then (if bit_and (endp_mode endp u) 0x04 == 0
            then some (u, 0)
            else elim (load_packet endp bytes dma_mode u) [
              | none ↦ none
              | some u' ↦ some (arm endp (length bytes) u', 0)
            ])
        else some (u, 1))
    else some (u, 1)
