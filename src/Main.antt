-- ===== src/Main.antt =====
-- The loop of User/main.c: requests while the host has sent something, and packets to the host.
mod Tests
pub mod Setups
use not.Prelude.{ℕ, zero, suc, ◌==◌, ◌||◌, if◌then◌else◌, Bool, some}
use not.Comms.{mode_usb, mode_i2c}
use not.Packet.{Chip, Board, Handler, ◌>>=◌, ◌>>◌, pure, look, to_link}
use not.Packet.Dispatch.{get_packet}

-- `available` and `flush` are `usbSerial_available` and `usbSerial_flush` on the state of the links.
module _ {S L F D I : Type 0} (c : Chip S L F D I) (available : S → Bool) (flush : S → S) where
  -- One turn of `while(1)`.
  unfoldable pub main_round : Handler S L F D I
  main_round = do
    b ← look c (λ b. b)
    if available b.link || b.mode == mode_i2c then get_packet c else pure tt
    b' ← look c (λ b. b)
    if b'.mode == mode_usb then to_link c (λ mode s. some (flush s)) else pure tt

  unfoldable pub main_rounds : ℕ → Handler S L F D I
  main_rounds zero = pure tt
  main_rounds (suc n) = do main_round; main_rounds n
