-- ===== src/Usb/Driver/Events.antt =====
-- The events of endpoints 2 and 3, in the driver and in the variables of usb_serial.c.
use not.Prelude.{
  ℕ, ◌%◌, ◌<◌, ◌≤◌, ◌≡◌, refl, arith, ltb, ◌==◌, ◌&&◌, negate, true, false, List, [], ◌∷◌, ◌++◌,
  Option, none, some, length, take, drop, holds_below, holds_below_sound, bit_xor,
}
use not.Usb.Driver.{Usbfs, ep_buf, update, with_res, res_ack}
use not.Usb.Driver.Upload.{endp_data_up}
use not.Usb.Driver.Irq.{Call, on_ep2_out, on_ep3_in_done, usbhd_irq_handler}
use not.Usb.Serial
use not.Usb.Serial.{Serial, data_up}

with_res_table :
    holds_below 256
      (λ r. with_res r 0 % 4 == 0 && ltb (with_res r 0) 256 && ltb (with_res (bit_xor r 4) 2) 256)
    ≡ true
unfolding holds_below with_res
with_res_table = refl

pub with_res_lem :
    (r : ℕ)
    → r < 256
    → (with_res r 0 % 4 ≡ 0) × (with_res r 0 < 256) × (with_res (bit_xor r 4) 2 < 256)
with_res_lem r h =
    let all =
      holds_below_sound 256
        (λ r. with_res r 0 % 4 == 0 && ltb (with_res r 0) 256 && ltb (with_res (bit_xor r 4) 2) 256)
        r h with_res_table in
    ground arith

-- The endpoints as `device_endp_init` leaves them: 2 receives, 3 sends, each in its own buffer.
pub record IsSetUp (u : Usbfs) : Type 0 where
  pub directions : u.mode 1 ≡ 0x48
  pub out_buf : length (u.ep 2) ≡ 64
  pub in_buf : length (u.ep 3) ≡ 64
  pub in_dma : (u.at 3).dma ≡ ep_buf 3
  pub in_ctrl : (u.at 3).tx_ctrl < 256

-- What endpoint 3 sends when the host asks.
abbrev pub on_wire : Usbfs → List ℕ
on_wire u = take (u.at 3).tx_len (u.ep 3)

-- The variables that usb_serial.c reads are those of the driver, and while endpoint 3 is busy it answers
-- the host with the last packet that it was given.
pub record Seen (u : Usbfs) (s : Serial) : Type 0 where
  pub config : s.dev_config ≡ u.dev_config
  pub status : s.dev_enum_status ≡ u.dev_enum_status
  pub busy : s.ep3_busy ≡ negate ((u.at 3).busy == 0)
  pub last : s.ep3_busy ≡ true → (before : List (List ℕ)) × (s.sent ≡ before ++ on_wire u ∷ [])
  pub acked : s.ep3_busy ≡ true → (u.at 3).tx_ctrl % 4 ≡ res_ack

-- What the firmware or the host does: a packet is given to endpoint 3, the host takes the packet of endpoint
-- 3, the host sends a packet to endpoint 2.
pub data Event : Type 0 where
  upload : List ℕ → Event
  taken : Event
  received : List ℕ → Event

abbrev pub Fits : Event → Type 0
Fits (upload packet) = length packet ≤ 64
Fits taken = Unit
Fits (received packet) = length packet ≤ 64

-- A call of the interrupt handler, as usb_serial.c carries it out.
abbrev pub called : Call → Serial → Serial
called (on_ep2_out packet) s = Serial.on_ep2_out s packet
called on_ep3_in_done s = Serial.on_ep3_in_done s

abbrev pub all_called : List Call → Serial → Serial
all_called [] s = s
all_called (c ∷ cs) s = all_called cs (called c s)

-- The driver, with the calls that its interrupt makes.
unfoldable pub drive : Event → Usbfs → Option (Usbfs × List Call)
drive (upload packet) u = elim (endp_data_up 3 packet false u) [
  | none ↦ none
  | some (u', r) ↦ some (u', [])
]
drive taken u =
    usbhd_irq_handler (record { int_fg = 0x02; int_st = 0x23; rx_len = 0; mis_st = 0 }) u
drive (received packet) u =
    usbhd_irq_handler (record { int_fg = 0x02; int_st = 0x42; rx_len = length packet; mis_st = 0 })
      (record u { ep = update u.ep 2 (packet ++ drop (length packet) (u.ep 2)) })

-- The driver as usb_serial.c sees it.
unfoldable pub perform : Event → Serial → Serial
perform (upload packet) s = data_up s packet
perform taken s = Serial.on_ep3_in_done s
perform (received packet) s = Serial.on_ep2_out s packet

-- What is done to the variables of usb_serial.c by the caller of the driver itself.
abbrev pub given : Event → Serial → Serial
given (upload packet) s = data_up s packet
given taken s = s
given (received packet) s = s

-- One event: the driver does not read or write out of bounds, its calls do to the variables what
-- they are to do, and the view of usb_serial.c stays right.
abbrev pub Follows : Event → Usbfs → Serial → Type 0
Follows e u s =
    (u' : Usbfs) × (calls : List Call) × (drive e u ≡ some (u', calls))
    × (all_called calls (given e s) ≡ perform e s)
    × Seen u' (perform e s)
    × IsSetUp u'
