-- ===== src/Usb/Serial/Drain.antt =====
-- The loop of usb_serial.c that waits until the transmit ring is empty.
use mathlib.Core.List.{append-nil}
use not.Prelude.{
  ℕ, ◌+◌, ◌/◌, ◌≤◌, ◌==◌, ◌≡◌, ◌≢◌, refl, sym, ap, ◌∙◌, arith, List, [], ◌∷◌, ◌++◌, some, Bool,
  true, false, Bool-cases, inl, inr, if◌then◌else◌, to_bit,
}
use not.Usb.Ring.{count}
use not.Usb.Ring.Queue.{IsRing, contents_none}
use not.Usb.Serial.{Serial, connected, tx_kick, on_ep3_in_done, drain}
use not.Usb.Serial.Transmit.{joined, outgoing, kick_sends}

-- The packets that are still to be given away and the one under way.
abbrev pub work : Serial → ℕ
work s = (count s.tx + 63) / 64 + to_bit s.ep3_busy

-- What `tx_kick` does, sending or not.
pub record Keeps (s s' : Serial) : Type 0 where
  pub same : outgoing s' ≡ outgoing s
  pub no_more : work s' ≤ work s
  pub status : connected s' ≡ connected s
  pub valid : IsRing s'.tx
  pub received : s'.rx ≡ s.rx

kick_waits : (s : Serial) → s.ep3_busy ≡ true → tx_kick s ≡ s
unfolding tx_kick
kick_waits s b = elim (Bool-cases (connected s)) [
  | inl c ↦ rw (tx_kick, c, b) refl
  | inr c ↦ rw (tx_kick, c) refl
]

pub kick-Keeps :
    (s : Serial)
    → IsRing s.tx
    → connected s ≡ true
    → count s.tx ≢ 0
    → Keeps s (tx_kick s) × ((tx_kick s).ep3_busy ≡ true)
kick-Keeps s v c some_left = elim (Bool-cases s.ep3_busy) [
  | inl b ↦
      rw (kick_waits s b) (
        record { same = refl; no_more = omega arith; status = refl; valid = v; received = refl },
        b,
      )
  | inr b ↦
      let k = kick_sends s v c b some_left in
      (
        record {
          same = k.keeps;
          no_more = omega (arith, k.left, ap to_bit b, ap to_bit k.busy);
          status = k.status;
          valid = k.valid;
          received = k.received;
        },
        k.busy,
      )
]

done-Keeps : (s : Serial) → IsRing s.tx → Keeps s (on_ep3_in_done s)
unfolding on_ep3_in_done connected
done-Keeps s v = record {
  same = refl;
  no_more = omega arith;
  status = refl;
  valid = v;
  received = refl;
}

-- One delay of the waiting loop.
after_delay : Bool → Serial → Serial
after_delay done s = if done then on_ep3_in_done (tx_kick s) else tx_kick s

delay-Keeps :
    (done : Bool) (s : Serial)
    → IsRing s.tx
    → connected s ≡ true
    → count s.tx ≢ 0
    → Keeps s (after_delay done s) × (work (after_delay done s) + to_bit done ≤ work s)
unfolding after_delay on_ep3_in_done
delay-Keeps true s v c some_left =
    let (k, busy) = kick-Keeps s v c some_left in
    let d = done-Keeps (tx_kick s) k.valid in
    let less : work (tx_kick s) ≡ (count (tx_kick s).tx + 63) / 64 + 1 = rw busy refl in
    (
      record {
        same = d.same ∙ k.same;
        no_more = omega (arith, d.no_more, k.no_more);
        status = d.status ∙ k.status;
        valid = d.valid;
        received = d.received ∙ k.received;
      },
      omega (arith, less, k.no_more),
    )
delay-Keeps false s v c some_left =
    let (k, busy) = kick-Keeps s v c some_left in (k, omega (arith, k.no_more))

-- The interrupts that say that a packet is gone.
abbrev pub completions : List Bool → ℕ
completions [] = 0
completions (done ∷ later) = to_bit done + completions later

pub record Drains (s : Serial) (later : List Bool) : Type 0 where
  pub after : Serial
  pub rest : List Bool
  pub ends : drain later s ≡ some (after, rest)
  pub all_sent : joined after.sent ≡ outgoing s
  pub valid : IsRing after.tx
  pub emptied : count after.tx ≡ 0
  pub status : connected after ≡ connected s
  pub received : after.rx ≡ s.rx

empty_sent : (s : Serial) → count s.tx ≡ 0 → joined s.sent ≡ outgoing s
empty_sent s e =
    sym (append-nil (joined s.sent)) ∙ ap (λ l. joined s.sent ++ l) (sym (contents_none s.tx e))

-- The waiting loop ends when the packets that are left, and the one under way, are taken by the
-- host before the list of delays ends; all of the ring is sent then.
pub drain_lem :
    (later : List Bool) (s : Serial)
    → IsRing s.tx
    → connected s ≡ true
    → work s ≤ completions later
    → Drains s later
unfolding drain after_delay
drain_lem [] s v c enough =
    let e : count s.tx ≡ 0 = omega arith in
    record {
      after = s;
      rest = [];
      ends = ground (arith, e);
      all_sent = empty_sent s e;
      valid = v;
      emptied = e;
      status = refl;
      received = refl;
    }
drain_lem (done ∷ later) s v c enough = elim (Bool-cases (count s.tx == 0)) [
  | inl e ↦ record {
    after = s;
    rest = done ∷ later;
    ends = rw e refl;
    all_sent = empty_sent s (ground (arith, e));
    valid = v;
    emptied = ground (arith, e);
    status = refl;
    received = refl;
  }
  | inr e ↦
      let (k, less) = delay-Keeps done s v c (ground (arith, e)) in
      let more =
        drain_lem later (after_delay done s) k.valid (k.status ∙ c) (omega (arith, less, enough)) in
      record {
        after = more.after;
        rest = more.rest;
        ends = rw e more.ends;
        all_sent = more.all_sent ∙ k.same;
        valid = more.valid;
        emptied = more.emptied;
        status = more.status ∙ k.status;
        received = more.received ∙ k.received;
      }
]
