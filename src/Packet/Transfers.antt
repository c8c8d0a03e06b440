-- ===== src/Packet/Transfers.antt =====
-- Requests of the host that carry data: a transfer on the I2C bus, paths and data of files.
use not.Prelude.{ℕ, ◌*◌, ◌^◌, ◌<◌, ◌≤◌, ◌≡◌, refl, arith, List, ◌∷◌, ◌++◌, length}
use not.Hardware.{u8}
use not.Usb.Serial.{bytes_of}
use not.I2c.{i2c_send_bytes}
use not.Vm.State.{ok}
use not.Packet.{on_trace, mega_size, Chip, Board}
use not.Packet.Memory.{splice}
use not.Packet.Commands.{command_of}
use not.Packet.Bus.{recv_i2c_write}
use not.Packet.Dispatch.{handle, serve, get_packet}
use not.Packet.Served.{Wire, andthen, Carries, get_mega_lem}
use not.Packet.Chain.{after_u8, after_u32, after_into}

module _ {S L F D I : Type 0} (c : Chip S L F D I) (w : Wire c) where
  -- A request to write on the I2C bus, whose data the host sends with its length before it: the
  -- firmware takes the whole request off the link, keeps the data in the shared buffer and puts
  -- these very bytes on the bus, with the pins, the address, the stop flag and the delay of the
  -- request; it sends nothing. The condition is that the link is a pipe, and that the data and the
  -- delay are in range.
  pub i2c_write_request_lem :
      (b : Board S L F D I) (sda scl address stop delay : ℕ) (bytes inp out : List ℕ)
      → length b.mega ≡ mega_size
      → length bytes ≤ mega_size
      → delay < 2 ^ 32
      → Carries c w b
          (143 ∷ sda ∷ scl ∷ address ∷ bytes_of (length bytes)
            ++ (bytes ++ (stop ∷ bytes_of delay ++ inp)))
          out
      → (s : S) × (get_packet c b
          ≡ ok (
            tt,
            record b {
              link = s;
              mega = splice 0 bytes b.mega;
              trace = (i2c_send_bytes c.hw sda scl (u8 (address * 2)) bytes stop delay b.trace).1;
            },
          ))
        × w.Holds s inp out
  unfolding get_packet serve handle command_of recv_i2c_write on_trace
  i2c_write_request_lem b sda scl address stop delay bytes inp out size room small h =
      after_u8 c w _ b h (λ s₀ h₀. after_u8 c w _ _ h₀ (λ s₁ h₁. after_u8 c w _ _ h₁ (λ s₂ h₂.
        after_u8 c w _ _ h₂ (λ s₃ h₃.
          after_u32 c w _ _ (length bytes) (omega (arith, room)) h₃ (λ s₄ h₄.
            after_into c w _ _ 0 bytes (omega (arith, room)) h₄ (λ s₅ h₅.
              after_u8 c w _ _ h₅ (λ s₆ h₆. after_u32 c w _ _ delay small h₆ (λ s₇ h₇.
                let there = get_mega_lem c w _ 0 bytes b.mega refl size (omega (arith, room)) in
                (s₇, andthen _ _ there refl, h₇.1)))))))))
