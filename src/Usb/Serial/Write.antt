-- ===== src/Usb/Serial/Write.antt =====
-- The blocking write of usb_serial.c ends, and what it sends.
use mathlib.Core.List.{append-nil, append_assoc}
use not.Prelude.{
  either_way, ℕ, zero, suc, ◌+◌, ◌/◌, ◌%◌, ◌≤◌, ◌==◌, ◌≡◌, refl, sym, ap, ◌∙◌, arith, min, List, [],
  ◌∷◌, ◌++◌, some, Bool, true, false, Bool-cases, inl, inr, take, length, length-append,
  length-take, if◌then◌else◌, ltb, ◌&&◌, to_bit,
}
use not.Usb.Ring.{count, free, put_all}
use not.Usb.Ring.Queue.{IsRing, contents, contents-put_all, length-contents}
use not.Usb.Serial.{
  Serial, connected, data_up, tx_kick, on_ep3_in_done, write, wait_idle, send_zlp, blocking_write,
}
use not.Usb.Serial.Transmit.{joined, joined-snoc, outgoing}
use not.Usb.Serial.Drain.{Keeps, kick-Keeps, completions, Drains, drain_lem}

-- An empty packet changes no byte and no ring.
record Calm (s s' : Serial) : Type 0 where
  sent : joined s'.sent ≡ joined s.sent
  tx : s'.tx ≡ s.tx
  rx : s'.rx ≡ s.rx
  status : connected s' ≡ connected s

still : (s : Serial) → Calm s s
still s = record { sent = refl; tx = refl; rx = refl; status = refl }

idle-Calm : (n : ℕ) (later : List Bool) (s : Serial) → Calm s (wait_idle n later s).0
unfolding wait_idle on_ep3_in_done connected
idle-Calm zero later s = still s
idle-Calm (suc n) [] s = still s
idle-Calm (suc n) (done ∷ later) s =
    either_way (λ (w : Serial × List Bool). Calm s w.0) s.ep3_busy
      (noted done (idle-Calm n later s) (idle-Calm n later (on_ep3_in_done s))) (still s)
  where
    noted :
        (done : Bool)
        → Calm s (wait_idle n later s).0
        → Calm (on_ep3_in_done s) (wait_idle n later (on_ep3_in_done s)).0
        → Calm s (wait_idle n later (if done then on_ep3_in_done s else s)).0
    noted true idle more = record {
      sent = more.sent;
      tx = more.tx;
      rx = more.rx;
      status = more.status;
    }
    noted false idle more = idle

send_zlp_lem : (later : List Bool) (s : Serial) → Calm s (send_zlp later s).0
unfolding send_zlp data_up connected
send_zlp_lem later s =
    let waited = wait_idle 50000 later s in
    let w = idle-Calm 50000 later s in
    let given : Serial = data_up_to waited.0 in
    let d : Calm s given = record {
      sent = joined-snoc waited.0.sent [] ∙ append-nil (joined waited.0.sent) ∙ w.sent;
      tx = w.tx;
      rx = w.rx;
      status = w.status;
    } in
    either_way (Calm s) waited.0.ep3_busy w (either_way (Calm s) waited.0.ep3_busy w d)
  where
    data_up_to : Serial → Serial
    data_up_to s = record s { ep3_busy = true; sent = s.sent ++ [] ∷ [] }

-- What a blocking write does: it ends, and the packets hold what was to go out before and then
-- the bytes that the ring had room for.
pub record Writes (later : List Bool) (s : Serial) (bytes : List ℕ) : Type 0 where
  pub after : Serial
  pub rest : List Bool
  pub ends : blocking_write later s bytes ≡ some (after, rest)
  pub all_sent : joined after.sent ≡ outgoing s ++ take (free s.tx) bytes
  pub valid : IsRing after.tx
  pub emptied : count after.tx ≡ 0
  pub status : connected after ≡ connected s
  pub received : after.rx ≡ s.rx

-- The state with the bytes in the ring, before the first packet is tried.
filled : Serial → List ℕ → Serial
filled s bytes = record s { tx = (put_all s.tx bytes 0).0 }

count-filled :
    (s : Serial) (bytes : List ℕ)
    → IsRing s.tx
    → count (filled s bytes).tx ≡ count s.tx + min (free s.tx) (length bytes)
unfolding filled
count-filled s bytes v =
    let (holds, taken, valid) = contents-put_all s.tx bytes 0 v in
    omega (
      arith,
      ap length holds,
      length-append (contents s.tx) (take (free s.tx) bytes),
      length-take (free s.tx) bytes,
      length-contents s.tx,
      length-contents (put_all s.tx bytes 0).0,
    )

write-Keeps :
    (s : Serial) (bytes : List ℕ)
    → IsRing s.tx
    → connected s ≡ true
    → Keeps (filled s bytes) (write s bytes).1
unfolding write filled connected tx_kick
write-Keeps s bytes v c =
    let valid = (contents-put_all s.tx bytes 0 v).2 in
    elim (Bool-cases (count (filled s bytes).tx == 0)) [
      | inl e ↦
          let still : tx_kick (filled s bytes) ≡ filled s bytes = ground (arith, e) in
          rw still (record {
            same = refl;
            no_more = omega arith;
            status = refl;
            valid = valid;
            received = refl;
          })
      | inr e ↦ (kick-Keeps (filled s bytes) valid c (ground (arith, e))).0
    ]

write-Drains :
    (later : List Bool) (s : Serial) (bytes : List ℕ)
    → IsRing s.tx
    → connected s ≡ true
    → (count s.tx + min (free s.tx) (length bytes) + 63) / 64 + to_bit s.ep3_busy
      ≤ completions later
    → Drains (write s bytes).1 later
unfolding filled connected
write-Drains later s bytes v c enough =
    let k = write-Keeps s bytes v c in
    drain_lem later (write s bytes).1 k.valid (k.status ∙ c)
      (omega (arith, k.no_more, count-filled s bytes v))

-- `usbSerial_blocking_writeP` ends, and the packets given to the endpoint hold, in order, what was
-- to go out before, and then the bytes of the buffer for which the ring had room at the call: the
-- bytes after these are lost, and no result says so. The condition is that the ring is well formed
-- and the device connected, and that the host takes every packet that the bytes make and the one
-- under way.
pub blocking_write_lem :
    (later : List Bool) (s : Serial) (bytes : List ℕ)
    → IsRing s.tx
    → connected s ≡ true
    → (count s.tx + min (free s.tx) (length bytes) + 63) / 64 + to_bit s.ep3_busy
      ≤ completions later
    → Writes later s bytes
unfolding blocking_write filled connected
blocking_write_lem later s bytes v c enough =
    let d = write-Drains later s bytes v c enough in
    let holds = (contents-put_all s.tx bytes 0 v).0 in
    let sent : joined d.after.sent ≡ outgoing s ++ take (free s.tx) bytes =
      d.all_sent
      ∙ (write-Keeps s bytes v c).same
      ∙ ap (λ l. joined s.sent ++ l) holds
      ∙ sym (append_assoc (joined s.sent) (contents s.tx) (take (free s.tx) bytes)) in
    let w = write-Keeps s bytes v c in
    elim (Bool-cases (ltb 0 (length bytes) && length bytes % 64 == 0)) [
      | inl e ↦
          let z = send_zlp_lem d.rest d.after in
          record {
            after = (send_zlp d.rest d.after).0;
            rest = (send_zlp d.rest d.after).1;
            ends = rw (blocking_write, d.ends, e) refl;
            all_sent = z.sent ∙ sent;
            valid = rw (sym z.tx) at d.valid;
            emptied = ap count z.tx ∙ d.emptied;
            status = z.status ∙ d.status ∙ w.status;
            received = z.rx ∙ d.received ∙ w.received;
          }
      | inr e ↦ record {
        after = d.after;
        rest = d.rest;
        ends = rw (blocking_write, d.ends, e) refl;
        all_sent = sent;
        valid = d.valid;
        emptied = d.emptied;
        status = d.status ∙ w.status;
        received = d.received ∙ w.received;
      }
    ]
