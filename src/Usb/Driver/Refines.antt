-- ===== src/Usb/Driver/Refines.antt =====
-- What usb_serial.c stands on: its view of endpoints 2 and 3 is what the driver makes of the controller.
use not.Prelude.{
  ℕ, ◌+◌, ◌^◌, ◌/◌, ◌≤◌, ◌≡◌, refl, sym, ap, ◌∙◌, subst, arith, leb, ◌==◌, negate, true, false,
  Bool-cases, inl, inr, List, [], ◌∷◌, ◌++◌, Option, none, some, length, take, drop, take-append,
  length-append, length-drop, bit_and, bit_xor,
}
use not.Hardware.{u8, u16}
use not.Usb.Driver.{Usbfs, update, with_res, res_ack, tog, set_rx_ctrl, copy_to}
use not.Usb.Driver.Upload.{endp_mode, copy_up, load_packet, arm, endp_data_up}
use not.Usb.Driver.Irq.{
  on_ep2_out, on_ep3_in_done, usbhd_irq_handler, on_transfer, on_in, on_out, on_ep2, in_done,
}
use not.Usb.Serial
use not.Usb.Serial.{Serial, data_up}
use not.Usb.Driver.Events.{
  with_res_lem, IsSetUp, Seen, on_wire, Event, upload, taken, received, Fits, all_called, drive,
  perform, given, Follows,
}

taken-Follows : (u : Usbfs) (s : Serial) → IsSetUp u → Seen u s → Follows taken u s
unfolding drive perform usbhd_irq_handler on_transfer on_in in_done Serial.on_ep3_in_done
taken-Follows u s i h = (
  record (in_done 3 u) { int_cleared = 0x02 },
  on_ep3_in_done ∷ [],
  refl,
  refl,
  record { config = h.config; status = h.status; busy = refl; last = λ e. cc; acked = λ e. cc },
  record {
    directions = i.directions;
    out_buf = i.out_buf;
    in_buf = i.in_buf;
    in_dma = i.in_dma;
    in_ctrl = (with_res_lem (u.at 3).tx_ctrl i.in_ctrl).2;
  },
)

received-Follows :
    (u : Usbfs) (s : Serial) (packet : List ℕ)
    → length packet ≤ 64
    → IsSetUp u
    → Seen u s
    → Follows (received packet) u s
unfolding drive perform usbhd_irq_handler on_transfer on_out on_ep2 Serial.on_ep2_out
received-Follows u s packet le i h =
    let buf = packet ++ drop (length packet) (u.ep 2) in
    let whole : length buf ≡ 64 = omega (
      arith,
      length-append packet (drop (length packet) (u.ep 2)),
      length-drop (length packet) (u.ep 2),
      i.out_buf,
    ) in
    let short : u16 (length packet) ≡ length packet = omega arith in
    let fits : leb (length packet) (length buf) ≡ true = ground arith in
    let ctrl = bit_xor (u.at 2).rx_ctrl tog in
    (
      record (set_rx_ctrl 2 (with_res ctrl res_ack)
          (set_rx_ctrl 2 ctrl (record u { ep = update u.ep 2 buf }))) { int_cleared = 0x02 },
      on_ep2_out packet ∷ [],
      rw
          (
            drive,
            usbhd_irq_handler,
            on_transfer,
            on_out,
            on_ep2,
            short,
            fits,
            take-append packet (drop (length packet) (u.ep 2)),
          )
          refl,
      refl,
      record {
        config = h.config;
        status = h.status;
        busy = h.busy;
        last = h.last;
        acked = h.acked;
      },
      record {
        directions = i.directions;
        out_buf = whole;
        in_buf = i.in_buf;
        in_dma = i.in_dma;
        in_ctrl = i.in_ctrl;
      },
    )

module _ (u : Usbfs) (s : Serial) (packet : List ℕ) (le : length packet ≤ 64) (i : IsSetUp u)
    (h : Seen u s) where
  -- The state when the packet is in the buffer and endpoint 3 is armed.
  abbrev armed : Usbfs
  armed =
      let buf = packet ++ drop (length packet) (u.ep 3) in
      arm 3 (length packet) (record u { ep = update u.ep 3 buf })

  mode_lem : endp_mode 3 u ≡ 0x04
  unfolding endp_mode
  mode_lem = ap (λ m. u8 (m / 2 ^ 4)) i.directions

  copy_lem : copy_to (u.ep 3) 0 packet ≡ some (packet ++ drop (length packet) (u.ep 3))
  unfolding copy_to
  copy_lem =
      let same : 0 + length packet ≡ length packet = omega arith in
      let fits : leb (length packet) (length (u.ep 3)) ≡ true = ground (arith, i.in_buf) in
      rw (same, fits) refl

  load_lem :
      load_packet 3 packet false u
      ≡ some (record u { ep = update u.ep 3 (packet ++ drop (length packet) (u.ep 3)) })
  unfolding load_packet copy_up
  load_lem =
      let alone : (bit_and (endp_mode 3 u) 0x08 == 0) ≡ true =
        ap (λ m. bit_and m 0x08 == 0) mode_lem in
      rw (alone, copy_up, i.in_dma, copy_lem) refl

  idle_lem : ((u.at 3).busy == 0) ≡ true → endp_data_up 3 packet false u ≡ some (armed, 0)
  unfolding endp_data_up
  idle_lem idle =
      let sends : (bit_and (endp_mode 3 u) 0x04 == 0) ≡ false =
        ap (λ m. bit_and m 0x04 == 0) mode_lem in
      rw (idle, sends, load_lem) refl

  busy_lem : ((u.at 3).busy == 0) ≡ false → endp_data_up 3 packet false u ≡ some (u, 1)
  unfolding endp_data_up
  busy_lem busy = rw busy refl

  idle-Follows : ((u.at 3).busy == 0) ≡ true → Follows (upload packet) u s
  unfolding drive perform data_up arm
  idle-Follows idle =
      let rest = drop (length packet) (u.ep 3) in
      let ctrl = with_res_lem (u.at 3).tx_ctrl i.in_ctrl in
      let free : s.ep3_busy ≡ false = h.busy ∙ ap negate idle in
      let whole : length (packet ++ rest) ≡ 64 =
        omega (arith, length-append packet rest, length-drop (length packet) (u.ep 3), i.in_buf) in
      let sent : on_wire armed ≡ packet =
        let short : u16 (length packet) ≡ length packet = omega arith in
        ap (λ n. take n (packet ++ rest)) short ∙ take-append packet rest in
      (
        armed,
        [],
        rw (drive, idle_lem idle) refl,
        refl,
        rw free (record {
          config = h.config;
          status = h.status;
          busy = refl;
          last = λ e. (s.sent, ap (λ p. s.sent ++ p ∷ []) (sym sent));
          acked = λ e. ctrl.0;
        }),
        record {
          directions = i.directions;
          out_buf = i.out_buf;
          in_buf = whole;
          in_dma = i.in_dma;
          in_ctrl = ctrl.1;
        },
      )

  busy-Follows : ((u.at 3).busy == 0) ≡ false → Follows (upload packet) u s
  unfolding drive perform data_up
  busy-Follows busy =
      let full : s.ep3_busy ≡ true = h.busy ∙ ap negate busy in
      let kept : data_up s packet ≡ s = rw full refl in
      (u, [], rw (drive, busy_lem busy) refl, refl, subst (Seen u) (sym kept) h, i)

event-Follows : (e : Event) (u : Usbfs) (s : Serial) → Fits e → IsSetUp u → Seen u s → Follows e u s
event-Follows (upload packet) u s le i h = elim (Bool-cases ((u.at 3).busy == 0)) [
  | inl idle ↦ idle-Follows u s packet le i h idle
  | inr busy ↦ busy-Follows u s packet le i h busy
]
event-Follows taken u s le i h = taken-Follows u s i h
event-Follows (received packet) u s le i h = received-Follows u s packet le i h

-- Events in a row, the calls of the interrupt handler carried out as they come. `none`: out of bounds.
unfoldable pub drive_all : List Event → Usbfs → Serial → Option (Usbfs × Serial)
drive_all [] u s = some (u, s)
drive_all (e ∷ es) u s = elim (drive e u) [
  | none ↦ none
  | some (u', calls) ↦ drive_all es u' (all_called calls (given e s))
]

unfoldable pub perform_all : List Event → Serial → Serial
perform_all [] s = s
perform_all (e ∷ es) s = perform_all es (perform e s)

abbrev pub AllFit : List Event → Type 0
AllFit [] = Unit
AllFit (e ∷ es) = Fits e × AllFit es

-- Whatever packets are given to endpoint 3, taken by the host and sent by the host, the driver does
-- with endpoints 2 and 3 what the model of usb_serial.c says: the bytes received, the packets
-- sent and the busy flag are the same after it, and while endpoint 3 is busy it answers the
-- host with the last packet given. The condition is that the endpoints are set up as
-- USBFS_Device_Endp_Init leaves them, that no packet is over 64 bytes, and that no bus reset or
-- request on endpoint 0 comes between.
pub drive_all_lem :
    (es : List Event) (u : Usbfs) (s : Serial)
    → AllFit es
    → IsSetUp u
    → Seen u s
    → (u' : Usbfs) × (drive_all es u s ≡ some (u', perform_all es s))
      × Seen u' (perform_all es s)
      × IsSetUp u'
unfolding drive_all perform_all
drive_all_lem [] u s le i h = (u, refl, h, i)
drive_all_lem (e ∷ es) u s le i h =
    let (u', calls, done, same, h', i') = event-Follows e u s le.0 i h in
    let (u'', rest, h'', i'') = drive_all_lem es u' (perform e s) le.1 i' h' in
    (u'', rw (drive_all, done, same) rest, h'', i'')
