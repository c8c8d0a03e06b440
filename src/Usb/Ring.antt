-- ===== src/Usb/Ring.antt =====
-- The two rings of usb_serial.c: arrays of 2048 bytes with a head that is written and a tail that
-- is read. One place always stays free.
pub mod Queue
use not.Prelude.{
  ℕ, ◌+◌, ◌-◌, ◌%◌, ◌^◌, ltb, leb, ◌==◌, if◌then◌else◌, Bool, List, [], ◌∷◌, get_or, set, length,
}
use not.Hardware.{u16}

abbrev pub ring_size : ℕ
ring_size = 2048

pub record Ring : Type 0 where
  pub buf : List ℕ
  pub head : ℕ
  pub tail : ℕ

-- `ring_count` on `uint16_t`.
unfoldable pub ring_count : ℕ → ℕ → ℕ → ℕ
ring_count head tail size =
    if leb tail head then u16 (head + 2 ^ 16 - tail) else u16 (size + 2 ^ 16 - (tail - head))

-- `ring_free` on `uint16_t`.
unfoldable pub ring_free : ℕ → ℕ → ℕ → ℕ
ring_free head tail size = u16 (size + 2 ^ 16 - 1 - ring_count head tail size)

abbrev pub count : Ring → ℕ
count r = ring_count r.head r.tail ring_size

abbrev pub free : Ring → ℕ
free r = ring_free r.head r.tail ring_size

-- `ring[head] = b; head = (head + 1) % SIZE;`
unfoldable pub put : Ring → ℕ → Ring
put r b = record r { buf = set r.buf r.head b; head = (r.head + 1) % ring_size }

-- The byte at the tail, and `tail = (tail + 1) % SIZE`.
unfoldable pub front : Ring → ℕ
front r = get_or r.buf r.tail 0

unfoldable pub drop_front : Ring → Ring
drop_front r = record r { tail = (r.tail + 1) % ring_size }

-- The loop of `usbSerial_writeP` and of `usbSerial_on_ep2_out`: it stops at the first byte that
-- finds the ring full. With the ring, the number of bytes taken.
unfoldable pub put_all : Ring → List ℕ → ℕ → Ring × ℕ
put_all r [] written = (r, written)
put_all r (b ∷ bs) written =
    let rest = put_all (put r b) bs (written + 1) in if free r == 0 then (r, written) else rest
