-- ===== src/Usb/Driver/Tests.antt =====
-- A device after a reset of the board: the configuration read, enumeration, transfers, a vendor request.
use not.Prelude.{
  ◌≡◌, ◌⊎◌, ◌<◌, ◌≤◌, min, refl, arith, true, false, List, [], ◌∷◌, none, some, length, take,
  replicate,
}
use not.Usb.Ring.{Ring}
use not.Usb.Serial.{Serial, connected}
use not.Usb.Driver.{Usbfs, Object, Endpoint, Target, nowhere}
use not.Usb.Driver.Descriptors.{contents}
use not.Usb.Driver.Setup.{behind, on_setup}
use not.Usb.Driver.Apart.{Apart}
use not.Usb.Driver.Names.{descriptor_request, receives}
use not.Usb.Driver.ControlRead.{control_read, control_read_lem}
use not.Usb.Driver.Events.{Event, upload, taken, received, IsSetUp, Seen}
use not.Usb.Driver.Refines.{drive_all, perform_all, drive_all_lem}
use not.Usb.Driver.Enumerate.{enumerate, view, enumerate_lem}
use not.Usb.Driver.Stale.{vendor_request, vendor_request_lem, Leaks}

abbrev fresh_endpoint : Endpoint
fresh_endpoint = record { dma = nowhere; tx_len = 0; tx_ctrl = 0; rx_ctrl = 0; busy = 0 }

abbrev fresh : Usbfs
fresh = record {
  setup_type = 0;
  setup_code = 0;
  setup_value = 0;
  setup_index = 0;
  setup_len = 0;
  dev_config = 0;
  dev_addr = 0;
  dev_sleep_status = 0;
  dev_enum_status = 0;
  descr = Object.nothing;
  descr_offset = 0;
  g_line_coding = 0x00 ∷ 0xC2 ∷ 0x01 ∷ 0x00 ∷ 0x00 ∷ 0x00 ∷ 0x08 ∷ [];
  ep = λ n. replicate 64 0;
  at = λ n. fresh_endpoint;
  mode = λ n. 0;
  base_ctrl = 0;
  udev_ctrl = 0;
  int_en = 0;
  reg_dev_addr = 0;
  int_cleared = 0;
  irq_enabled = false;
}

abbrev empty_ring : Ring
empty_ring = record { buf = replicate 2048 0; head = 0; tail = 0 }

abbrev serial : Serial
serial = record {
  rx = empty_ring;
  tx = empty_ring;
  tx_pending_kick = false;
  dev_enum_status = 0;
  dev_config = 0;
  ep3_busy = false;
  sent = [];
}

control_read_lem_example :
    (u' : Usbfs) × (control_read (descriptor_request 0x0200 0 0 255) 255 fresh
      ≡ some (take 255 (contents fresh.g_line_coding Object.cfg_descr), u'))
    × Apart fresh u'
    × ((u'.at 0).rx_ctrl ≡ 0x04)
control_read_lem_example =
    control_read_lem Object.cfg_descr 0x0200 0 0 255 fresh refl refl (omega arith)

enumerate_lem_example :
    (u' : Usbfs) × (enumerate 5 1 fresh ≡ some u')
    × (u'.reg_dev_addr ≡ 5)
    × (connected (view u' serial) ≡ true)
    × IsSetUp u'
    × Seen u' (view u' serial)
enumerate_lem_example =
    enumerate_lem 5 1 fresh serial (omega arith) (omega arith) (λ e. absurd (omega (arith, e))) refl
      refl

abbrev events : List Event
events =
    upload (1 ∷ 2 ∷ []) ∷ upload (3 ∷ []) ∷ received (7 ∷ 8 ∷ 9 ∷ []) ∷ taken ∷ upload (4 ∷ []) ∷ []

abbrev set_up : Usbfs
set_up = record fresh {
  mode = λ n. 0x48;
  at = λ n. record fresh_endpoint { dma = Target.ep_buf n };
}

drive_all_lem_example :
    (u' : Usbfs) × (drive_all events set_up serial ≡ some (u', perform_all events serial))
    × Seen u' (perform_all events serial)
    × IsSetUp u'
drive_all_lem_example =
    drive_all_lem events set_up serial
      (omega arith, (omega arith, (omega arith, (tt, (omega arith, tt)))))
      (record {
        directions = refl;
        out_buf = refl;
        in_buf = refl;
        in_dma = refl;
        in_ctrl = omega arith;
      })
      (record { config = refl; status = refl; busy = refl; last = λ e. cc; acked = λ e. cc })

-- The last request was for the manufacturer's name, and the host took nothing of it.
abbrev named : Usbfs
named = record fresh { descr = Object.manu_info; descr_offset = 0 }

vendor_request_lem_example :
    ((min 64 10 ≤ length (behind named))
      × (u' : Usbfs) × (on_setup (receives (vendor_request 0xC0 1 0 0 0 0 10) named) ≡ some u')
      × Leaks 10 named u')
    ⊎ ((length (behind named) < min 64 10)
        × (on_setup (receives (vendor_request 0xC0 1 0 0 0 0 10) named) ≡ none))
vendor_request_lem_example =
    vendor_request_lem 0xC0 (omega arith) (omega arith) 1 0 0 0 0 10 named refl (omega arith)
