-- ===== src/Usb/Serial.antt =====
-- The state and the routines of usb_serial.c. The interrupts that arrive while a routine waits are
-- an argument: what arrives at each turn of the loop that waits.
pub mod Receive
pub mod Transmit
pub mod Drain
pub mod Write
pub mod Untouched
pub mod Print
use not.Prelude.{
  ℕ, zero, suc, ◌+◌, ◌-◌, ◌*◌, ◌/◌, ◌%◌, ◌^◌, ltb, leb, ◌==◌, ◌&&◌, ◌||◌, negate, if◌then◌else◌,
  Bool, true, false, List, [], ◌∷◌, ◌++◌, Option, none, some, length, bit_or,
}
use not.Hardware.{u16, u32}
use not.Usb.Ring.{Ring, count, front, drop_front, put_all}

-- The static variables of usb_serial.c and the two of the endpoint driver that it reads; `sent`
-- holds the packets given to endpoint 3, oldest first.
pub record Serial : Type 0 where
  pub rx : Ring
  pub tx : Ring
  pub tx_pending_kick : Bool
  pub dev_enum_status : ℕ
  pub dev_config : ℕ
  pub ep3_busy : Bool
  pub sent : List (List ℕ)

-- `DEF_USBD_FS_PACK_SIZE`.
abbrev pub pack_size : ℕ
pack_size = 64

unfoldable pub connected : Serial → Bool
connected s = s.dev_enum_status == 1 && negate (s.dev_config == 0)

-- `USBFS_Endp_DataUp` on endpoint 3 in copy mode, with the endpoint set up for sending only: a
-- busy endpoint takes nothing.
unfoldable pub data_up : Serial → List ℕ → Serial
data_up s packet =
    if s.ep3_busy then s else record s { ep3_busy = true; sent = s.sent ++ packet ∷ [] }

-- `for (i = 0; i < n; i++) pkt[i] = pop`: `n` bytes off the ring.
unfoldable pub pop_bytes : ℕ → Ring → List ℕ × Ring
pop_bytes zero r = ([], r)
pop_bytes (suc n) r = let (pkt, r') = pop_bytes n (drop_front r) in (front r ∷ pkt, r')

-- `tx_kick`.
unfoldable pub tx_kick : Serial → Serial
tx_kick s =
    let cnt = count s.tx in
    let n = if ltb pack_size cnt then pack_size else cnt in
    let (pkt, tx) = pop_bytes n s.tx in
    if negate (connected s)
    then s
    else if s.ep3_busy
    then s
    else if cnt == 0
    then s
    else data_up (record s { tx = tx }) pkt

-- `usbSerial_begin`, after the endpoint driver is set up.
unfoldable pub begin_serial : Serial → Serial
begin_serial s = record s {
  rx = record (s.rx) { head = 0; tail = 0 };
  tx = record (s.tx) { head = 0; tail = 0 };
}

-- `usbSerial_available`.
unfoldable pub available : Serial → ℕ
available s = count s.rx

-- `usbSerial_read`.
unfoldable pub read : Serial → ℕ × Serial
read s = if s.rx.head == s.rx.tail then (0, s) else (front s.rx, record s { rx = drop_front s.rx })

-- `usbSerial_on_ep2_out`: the interrupt that a packet from the host raises.
unfoldable pub on_ep2_out : Serial → List ℕ → Serial
on_ep2_out s packet = record s { rx = (put_all s.rx packet 0).0 }

-- The IN interrupt of endpoint 3: the packet is gone, and `usbSerial_on_ep3_in_done` notes it.
unfoldable pub on_ep3_in_done : Serial → Serial
on_ep3_in_done s = record s { ep3_busy = false; tx_pending_kick = true }

-- `usbSerial_blocking_read_u8`, with the packet (maybe empty) that comes in before each look at
-- the ring. `none`: still waiting when the list of packets ends.
unfoldable pub blocking_read_u8 : List (List ℕ) → Serial → Option (ℕ × List (List ℕ) × Serial)
blocking_read_u8 [] s = none
blocking_read_u8 (p ∷ ps) s =
    let s' = on_ep2_out s p in
    let again = blocking_read_u8 ps s' in
    if available s' == 0 then again else some ((read s').0, ps, (read s').1)

-- `usbSerial_blocking_read_bytes`.
unfoldable pub blocking_read_bytes :
    ℕ → List (List ℕ) → Serial → Option (List ℕ × List (List ℕ) × Serial)
blocking_read_bytes zero ps s = some ([], ps, s)
blocking_read_bytes (suc len) ps s = elim (blocking_read_u8 ps s) [
  | none ↦ none
  | some (b, ps', s') ↦ elim (blocking_read_bytes len ps' s') [
    | none ↦ none
    | some (bs, ps'', s'') ↦ some (b ∷ bs, ps'', s'')
  ]
]

-- `b1 | b2 << 8 | b3 << 16 | b4 << 24`.
unfoldable pub word_of : ℕ → ℕ → ℕ → ℕ → ℕ
word_of b1 b2 b3 b4 = bit_or (bit_or (bit_or b1 (b2 * 2 ^ 8)) (b3 * 2 ^ 16)) (b4 * 2 ^ 24)

-- `usbSerial_blocking_read_u32`.
unfoldable pub blocking_read_u32 : List (List ℕ) → Serial → Option (ℕ × List (List ℕ) × Serial)
blocking_read_u32 ps s = elim (blocking_read_u8 ps s) [
  | none ↦ none
  | some (b1, ps₁, s₁) ↦ elim (blocking_read_u8 ps₁ s₁) [
    | none ↦ none
    | some (b2, ps₂, s₂) ↦ elim (blocking_read_u8 ps₂ s₂) [
      | none ↦ none
      | some (b3, ps₃, s₃) ↦ elim (blocking_read_u8 ps₃ s₃) [
        | none ↦ none
        | some (b4, ps₄, s₄) ↦ some (word_of b1 b2 b3 b4, ps₄, s₄)
      ]
    ]
  ]
]

-- `usbSerial_writeP`: the number of bytes taken, and a first packet sent at once.
unfoldable pub write : Serial → List ℕ → ℕ × Serial
write s bytes =
    let (tx, written) = put_all s.tx bytes 0 in (written, tx_kick (record s { tx = tx }))

-- `while (usbSerial_tx_pending() > 0) { usbSerial_flush(); Delay_Us(100); }`: the list says of each
-- delay whether the IN interrupt comes in it.
unfoldable pub drain : List Bool → Serial → Option (Serial × List Bool)
drain [] s = if count s.tx == 0 then some (s, []) else none
drain (done ∷ later) s =
    let kicked = tx_kick s in
    let rest = drain later (if done then on_ep3_in_done kicked else kicked) in
    if count s.tx == 0 then some (s, done ∷ later) else rest

-- The loop of `usbSerial_send_zlp`, with `left` more waits; the endpoint is busy or not in the end.
unfoldable pub wait_idle : ℕ → List Bool → Serial → Serial × List Bool
wait_idle zero later s = (s, later)
wait_idle (suc left) [] s = (s, [])
wait_idle (suc left) (done ∷ later) s =
    let rest = wait_idle left later (if done then on_ep3_in_done s else s) in
    if s.ep3_busy then rest else (s, done ∷ later)

-- `usbSerial_send_zlp`: 50000 waits at most.
unfoldable pub send_zlp : List Bool → Serial → Serial × List Bool
send_zlp later s =
    let (s', later') = wait_idle 50000 later s in
    (if s'.ep3_busy then s' else data_up s' [], later')

-- `usbSerial_blocking_writeP`; the bytes are the `len` bytes of the buffer. The result of
-- `usbSerial_writeP` is not looked at.
unfoldable pub blocking_write : List Bool → Serial → List ℕ → Option (Serial × List Bool)
blocking_write later s bytes = elim (drain later (write s bytes).1) [
  | none ↦ none
  | some (s', later') ↦
      if ltb 0 (length bytes) && length bytes % 64 == 0
      then some (send_zlp later' s')
      else some (s', later')
]

-- `(unsigned char*)&value`, little-endian.
unfoldable pub bytes_of : ℕ → List ℕ
bytes_of value =
    value % 2 ^ 8 ∷ value / 2 ^ 8 % 2 ^ 8 ∷ value / 2 ^ 16 % 2 ^ 8 ∷ value / 2 ^ 24 % 2 ^ 8 ∷ []

-- `usbSerial_blocking_writeP_u32`.
unfoldable pub blocking_write_u32 : List Bool → Serial → ℕ → Option (Serial × List Bool)
blocking_write_u32 later s value = blocking_write later s (bytes_of value)
