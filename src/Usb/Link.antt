-- ===== src/Usb/Link.antt =====
-- The link that User/comms/src/protocol.c has over USB: usb_serial.c with a host at the other end.
use not.Prelude.{
  ℕ, ◌+◌, ◌/◌, ◌≤◌, ◌≡◌, refl, sym, ap, ap₂, ◌∙◌, arith, true, min, List, [], ◌++◌, Option, none,
  some, Bool, to_bit, replicate, length, take, drop, length-drop, take_all,
}
use mathlib.Core.List.{append-nil}
use not.Usb.Ring.{count, free}
use not.Usb.Ring.Queue.{IsRing, contents, contents_none, count_facts}
use not.Usb.Serial.{Serial, connected, begin_serial, blocking_read_bytes, blocking_write}
use not.Usb.Serial.Transmit.{joined, outgoing}
use not.Usb.Serial.Receive.{incoming, stream, blocking_read_bytes_lem}
use not.Usb.Serial.Untouched.{reads_keep}
use not.Usb.Serial.Drain.{completions}
use not.Usb.Serial.Write.{blocking_write_lem}
use not.Comms.{Link, mode_usb, comms_send_buffer, comms_recv_buffer}
use not.Comms.Pipe.{IsPipe, chosen}

-- `host s bytes` is how the host takes packets while `bytes` are written in state `s`: what is said
-- of each delay. The state has the packets that the host will send beside the variables.
module _ (host : Serial → List ℕ → List Bool) where
  unfoldable pub usb_recv : ℕ → Serial × List (List ℕ) → Option (List ℕ × (Serial × List (List ℕ)))
  usb_recv n (s, ps) = elim (blocking_read_bytes n (ps ++ replicate n []) s) [
    | none ↦ none
    | some (bytes, ps', s') ↦ some (bytes, (s', ps'))
  ]

  unfoldable pub usb_send : List ℕ → Serial × List (List ℕ) → Option (Serial × List (List ℕ))
  usb_send bytes (s, ps) = elim (blocking_write (host s bytes) s bytes) [
    | none ↦ none
    | some (s', later) ↦ some (s', ps)
  ]

  abbrev pub usb_link : Link (Serial × List (List ℕ))
  usb_link = record { start = λ s. some (begin_serial s.0, s.1); send = usb_send; recv = usb_recv }

-- The host takes every packet that a write makes, and the one under way.
abbrev pub Takes : (Serial → List ℕ → List Bool) → Type 0
Takes host =
    (s : Serial) (bytes : List ℕ)
    → (count s.tx + min (free s.tx) (length bytes) + 63) / 64 + to_bit s.ep3_busy
      ≤ completions (host s bytes)

-- The rings are in order and the device is enumerated, and nothing waits to be sent: `inp` is all
-- that is received and not read or that the host has yet to send, `out` all that it was given.
pub record Quiet (s : Serial × List (List ℕ)) (inp out : List ℕ) : Type 0 where
  pub rx_valid : IsRing s.0.rx
  pub tx_valid : IsRing s.0.tx
  pub status : connected s.0 ≡ true
  pub emptied : count s.0.tx ≡ 0
  pub to_come : incoming s.0 s.1 ≡ inp
  pub given : joined s.0.sent ≡ out

recv-Quiet :
    (host : Serial → List ℕ → List Bool) (s : Serial) (ps : List (List ℕ)) (inp out : List ℕ)
    (n : ℕ)
    → length inp ≤ 2047
    → Quiet (s, ps) inp out
    → n ≤ length inp
    → (s' : Serial × List (List ℕ)) × (usb_recv host n (s, ps) ≡ some (take n inp, s'))
      × Quiet s' (drop n inp) out
unfolding usb_recv
recv-Quiet host s ps inp out n fits q there =
    let size = ap length q.to_come in
    let r =
      blocking_read_bytes_lem n n ps s q.rx_valid (omega (arith, size)) (omega (arith, size))
        (omega arith) in
    let (tx, sent, status) = reads_keep n (ps ++ replicate n []) s r.reads in
    (
      (r.after, r.left),
      rw (usb_recv, r.reads) (ap (λ l. some (take n l, (r.after, r.left))) q.to_come),
      record {
        rx_valid = r.valid;
        tx_valid = rw (sym tx) at q.tx_valid;
        status = status ∙ q.status;
        emptied = ap count tx ∙ q.emptied;
        to_come = r.others ∙ ap (drop n) q.to_come;
        given = ap joined sent ∙ q.given;
      },
    )

send-Quiet :
    (host : Serial → List ℕ → List Bool) (s : Serial) (ps : List (List ℕ)) (inp out bytes : List ℕ)
    → Takes host
    → Quiet (s, ps) inp out
    → length bytes ≤ 2047
    → (s' : Serial × List (List ℕ)) × (usb_send host bytes (s, ps) ≡ some s')
      × Quiet s' inp (out ++ bytes)
unfolding usb_send
send-Quiet host s ps inp out bytes takes q short =
    let w = blocking_write_lem (host s bytes) s bytes q.tx_valid q.status (takes s bytes) in
    let room : length bytes ≤ free s.tx = omega (arith, count_facts s.tx q.tx_valid, q.emptied) in
    let before : outgoing s ≡ out =
      ap (λ l. joined s.sent ++ l) (contents_none s.tx q.emptied)
      ∙ append-nil (joined s.sent)
      ∙ q.given in
    (
      (w.after, ps),
      rw (usb_send, w.ends) refl,
      record {
        rx_valid = rw (sym w.received) at q.rx_valid;
        tx_valid = w.valid;
        status = w.status ∙ q.status;
        emptied = w.emptied;
        to_come = ap (λ r. contents r ++ stream ps) w.received ∙ q.to_come;
        given = w.all_sent ∙ ap₂ (λ l m. l ++ m) before (take_all (free s.tx) bytes room);
      },
    )

-- With a host that takes every packet, protocol.c over usb_serial.c in the mode for USB is a pipe
-- as long as all that is received and not read, or that the host has yet to send, is at most 2047
-- bytes, which is what the ring holds: from a quiet state every receive of bytes that are among
-- these ends with them in their order, every send of at most 2047 bytes ends with the bytes given to
-- the host behind the ones before, and the state is quiet again, within the same bound.
pub comms_usb-IsPipe :
    (host : Serial → List ℕ → List Bool) (i2c : Link (Serial × List (List ℕ)))
    → Takes host
    → IsPipe
        (chosen (usb_link host) i2c mode_usb)
        2047
        (λ s inp out. (length inp ≤ 2047) × Quiet s inp out)
unfolding comms_send_buffer comms_recv_buffer
comms_usb-IsPipe host i2c takes = record {
  recv_lem = λ (s, ps) inp out n (fits, q) there.
      let (s', e, q') = recv-Quiet host s ps inp out n fits q there in
      (s', e, (omega (arith, fits, length-drop n inp), q'));
  send_lem = λ (s, ps) inp out bytes (fits, q) short.
      let (s', e, q') = send-Quiet host s ps inp out bytes takes q short in (s', e, (fits, q'));
}
