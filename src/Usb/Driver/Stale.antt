-- ===== src/Usb/Driver/Stale.antt =====
-- Requests that are not standard ones: all of them are answered from where `pUSBFS_Descr` points.
use not.Prelude.{
  ℕ, ◌^◌, ◌/◌, ◌%◌, ◌<◌, ◌≤◌, min, ◌≡◌, ◌⊎◌, inl, inr, refl, sym, ap, ◌∙◌, arith, leb, ◌==◌, ◌&&◌,
  negate, if◌then◌else◌, true, false, Bool-cases, List, [], ◌∷◌, ◌++◌, none, some, length, take,
  drop, take-append, drop-drop, length-take, length-drop, holds_below, holds_below_sound, bit_and,
  bit_or,
}
use not.Usb.Driver.{Usbfs, tog, res_nak, set_tx_ctrl, set_rx_ctrl}
use not.Usb.Driver.Descriptors.{contents}
use not.Usb.Driver.Setup.{
  behind, packet_len, load_ep0, other_request, non_standard_request, on_setup, store_setup, answer,
}
use not.Usb.Driver.Packet.{loaded, ready, load_ep0_lem, packet_len_lem}
use not.Usb.Driver.Names.{receives}
use not.Usb.Driver.ControlRead.{answer_lem}

-- A vendor request for `n` bytes from the device: the request type is one of 0xC0 to 0xDF.
abbrev pub vendor_request : ℕ → ℕ → ℕ → ℕ → ℕ → ℕ → ℕ → List ℕ
vendor_request kind code v₀ v₁ i₀ i₁ n =
    kind ∷ code ∷ v₀ ∷ v₁ ∷ i₀ ∷ i₁ ∷ (n % 256) ∷ (n / 256) ∷ []

-- What the host gets for `n` bytes, and how the pointer moves.
abbrev pub Leaks : ℕ → Usbfs → Usbfs → Type 0
Leaks n u u' =
    (take (u'.at 0).tx_len (u'.ep 0) ≡ take (min 64 n) (behind u))
    × ((u'.at 0).tx_ctrl ≡ 0x04)
    × (behind u' ≡ drop (min 64 n) (behind u))

kind_table :
    holds_below 256 (λ t.
      if leb 0xC0 t && leb t 0xDF
      then negate (bit_and t 0x60 == 0)
        && (bit_and t 0x20 == 0)
        && negate (bit_and t 0x40 == 0)
        && negate (bit_and t 0x80 == 0)
      else true)
    ≡ true
unfolding holds_below
kind_table = refl

module _ (kind : ℕ) (lo : 0xC0 ≤ kind) (hi : kind ≤ 0xDF) where
  kind_tests :
      ((bit_and kind 0x60 == 0) ≡ false)
      × ((bit_and kind 0x20 == 0) ≡ true)
      × ((bit_and kind 0x40 == 0) ≡ false)
      × ((bit_and kind 0x80 == 0) ≡ false)
  kind_tests =
      let all =
        holds_below_sound 256
          (λ t.
            if leb 0xC0 t && leb t 0xDF
            then negate (bit_and t 0x60 == 0)
              && (bit_and t 0x20 == 0)
              && negate (bit_and t 0x40 == 0)
              && negate (bit_and t 0x80 == 0)
            else true)
          kind (omega arith) kind_table in
      ground arith

  module _ (code v₀ v₁ i₀ i₁ n : ℕ) (u : Usbfs) (buf : length (u.ep 0) ≡ 64) where
    -- The state when the request is stored.
    abbrev stored : Usbfs
    stored =
        let v = receives (vendor_request kind code v₀ v₁ i₀ i₁ n) u in
        store_setup (set_rx_ctrl 0 (bit_or tog res_nak) (set_tx_ctrl 0 (bit_or tog res_nak) v))

    other_request_lem : other_request stored ≡ (stored, false)
    unfolding other_request store_setup
    other_request_lem = rw (kind_tests.1, kind_tests.2) refl

    type_lem : (bit_and stored.setup_type 0x60 == 0x00) ≡ false
    unfolding store_setup
    type_lem = kind_tests.0

    on_setup-none :
        load_ep0 (packet_len stored) stored ≡ none
        → on_setup (receives (vendor_request kind code v₀ v₁ i₀ i₁ n) u) ≡ none
    unfolding on_setup non_standard_request
    on_setup-none e = rw (on_setup, type_lem, non_standard_request, other_request_lem, e) refl

    on_setup-some :
        (w : Usbfs)
        → load_ep0 (packet_len stored) stored ≡ some w
        → on_setup (receives (vendor_request kind code v₀ v₁ i₀ i₁ n) u) ≡ some (answer false w)
    unfolding on_setup non_standard_request
    on_setup-some w e =
        rw (on_setup, type_lem, non_standard_request, other_request_lem, e)
          (ap (λ r. some (answer r.1 w)) other_request_lem)

    stored_len : n < 2 ^ 16 → packet_len stored ≡ min 64 n
    unfolding store_setup
    stored_len short =
        let same : stored.setup_len ≡ n = omega arith in packet_len_lem stored ∙ ap (min 64) same

    answered_ready :
        answer false (loaded (packet_len stored) stored)
        ≡ ready 0x04 (packet_len stored) (loaded (packet_len stored) stored)
    unfolding store_setup packet_len
    answered_ready =
        answer_lem (loaded (packet_len stored) stored) (packet_len stored) kind_tests.3 refl

    stored-behind : behind stored ≡ behind u
    unfolding store_setup
    stored-behind = refl

    answered :
        n < 2 ^ 16
        → min 64 n ≤ length (behind u)
        → Leaks n u (ready 0x04 (packet_len stored) (loaded (packet_len stored) stored))
    unfolding store_setup
    answered short within =
        let k = packet_len stored in
        let k_lem = stored_len short in
        let whole : length (take k (behind u)) ≡ k = omega (arith, length-take k (behind u)) in
        (
          sym (ap (λ m. take m (take k (behind u) ++ drop k (stored.ep 0))) whole)
              ∙ take-append (take k (behind u)) (drop k (stored.ep 0))
              ∙ ap (λ m. take m (behind u)) k_lem,
          refl,
          sym (drop-drop u.descr_offset k (contents u.g_line_coding u.descr))
              ∙ ap (λ m. drop m (behind u)) k_lem,
        )

    in_reach :
        min 64 n ≤ length (behind u) → n < 2 ^ 16 → packet_len stored ≤ length (behind stored)
    in_reach within short = omega (arith, stored_len short, ap length stored-behind)

    in_room : n < 2 ^ 16 → packet_len stored ≤ length (stored.ep 0)
    unfolding store_setup
    in_room short = omega (arith, stored_len short, length-drop 8 (u.ep 0))

    load_beyond :
        n < 2 ^ 16 → length (behind u) < min 64 n → load_ep0 (packet_len stored) stored ≡ none
    unfolding load_ep0
    load_beyond short beyond =
        let past : leb (packet_len stored) (length (behind stored)) ≡ false =
          ground (arith, stored_len short, ap length stored-behind) in
        rw past refl

    -- A vendor request that asks for data is never refused. The host gets the bytes that
    -- `pUSBFS_Descr` points to since the last request, at most 64 of them, and the pointer moves on
    -- behind them; and where the object that it points into has fewer bytes left, the driver
    -- reads out of bounds. This is so for every request code, value and index.
    pub vendor_request_lem :
        n < 2 ^ 16
        → ((min 64 n ≤ length (behind u))
            × (u' : Usbfs) × (on_setup (receives (vendor_request kind code v₀ v₁ i₀ i₁ n) u)
                ≡ some u')
            × Leaks n u u')
          ⊎ ((length (behind u) < min 64 n)
              × (on_setup (receives (vendor_request kind code v₀ v₁ i₀ i₁ n) u) ≡ none))
    vendor_request_lem short = elim (Bool-cases (leb (min 64 n) (length (behind u)))) [
      | inl fits ↦
          let within : min 64 n ≤ length (behind u) = ground arith in
          let k_lem = stored_len short in
          let loaded_lem =
            load_ep0_lem (packet_len stored) stored (in_reach within short) (in_room short) in
          inl (
            within,
            ready 0x04 (packet_len stored) (loaded (packet_len stored) stored),
            on_setup-some (loaded (packet_len stored) stored) loaded_lem ∙ ap some answered_ready,
            answered short within,
          )
      | inr over ↦
          let beyond : length (behind u) < min 64 n = ground arith in
          inr (beyond, on_setup-none (load_beyond short beyond))
    ]
