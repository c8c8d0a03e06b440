-- ===== src/Packet/Sample.antt =====
-- A board whose link is a list of bytes each way, for tests.
use not.Prelude.{
  ℕ, zero, suc, ◌≡◌, refl, ap, arith, leb, if◌then◌else◌, true, List, [], ◌++◌, none, some, length,
  take, drop, replicate,
}
use not.Hardware.{Hw}
use not.Fs.{Littlefs}
use not.Comms.{Link, mode_usb, comms_send_buffer, comms_recv_buffer}
use not.Comms.Pipe.{IsPipe, chosen}
use not.Vm.Returns.{AllBelow, IsArray}
use not.Packet.{Chip, Board, mega_size}
use not.Packet.Served.{Wire}

abbrev pub tape : Link (List ℕ × List ℕ)
tape = record {
  start = λ s. some s;
  send = λ bytes s. some (s.0, s.1 ++ bytes);
  recv = λ n s. if leb n (length s.0) then some (take n s.0, (drop n s.0, s.1)) else none;
}

pub tape-IsPipe : IsPipe (chosen tape tape mode_usb) 4096 (λ s inp out. s ≡ (inp, out))
unfolding comms_send_buffer comms_recv_buffer
tape-IsPipe = record {
  recv_lem = λ s inp out n e there.
      let enough : leb n (length inp) ≡ true = ground (arith, there) in
      ((drop n inp, out), rw (e, enough) refl, refl);
  send_lem = λ s inp out bytes e short. ((inp, out ++ bytes), rw e refl, refl);
}

-- A file system that takes every call.
abbrev pub willing : Littlefs ℕ ℕ ℕ ℕ
willing = record {
  mount = λ l. (0, l);
  format = λ l. (0, l);
  remove = λ p l. (0, l);
  rename = λ p q l. (0, l);
  stat = λ p l. (0, 0, l);
  mkdir = λ p l. (0, l);
  file_open = λ f p n l. (0, f, l);
  file_close = λ f l. (0, f, l);
  file_read = λ f n l. (0, [], f, l);
  file_write = λ f b l. (length b, f, l);
  file_seek = λ f n w l. (0, f, l);
  file_truncate = λ f n l. (0, f, l);
  dir_open = λ d p l. (0, d, l);
  dir_close = λ d l. (0, d, l);
  dir_read = λ d l. (0, 0, d, l);
}

abbrev pub all_high : Hw
all_high = record {
  read_indr = λ p t. 0xFFFF;
  read_outdr = λ p t. 0;
  read_cfglr = λ p t. 0x44444444;
  read_cfghr = λ p t. 0x44444444;
  timed_out = λ t. true;
}

abbrev pub chip : Chip (List ℕ × List ℕ) ℕ ℕ ℕ ℕ
chip = record {
  hw = all_high;
  adc = record { done = λ t. true; value = λ t. 7; read_ctlr1 = λ t. 0; read_rdatar = λ t. 9 };
  usb = tape;
  i2c = tape;
  littlefs = willing;
  entry_type = λ i. 1;
  entry_size = λ i. 0;
  entry_name = λ i. [];
  uid = replicate 12 0x41;
  junk_registers = replicate 32 0;
  junk_pile_t = replicate 256 0;
  junk_pile_r = replicate 256 0;
  junk_stack = replicate 16 0;
  fuel = 10;
  rounds = 100;
}

abbrev pub wire : Wire chip
wire = record {
  mode = mode_usb;
  limit = 4096;
  Holds = λ s inp out. s ≡ (inp, out);
  pipe = tape-IsPipe;
}

-- The board with these bytes on their way.
abbrev pub board : List ℕ → Board (List ℕ × List ℕ) ℕ ℕ ℕ ℕ
board inp = record {
  link = (inp, []);
  mode = mode_usb;
  trace = [];
  fs = record {
    lfs = 0;
    file_handles = replicate 10 (record { file = 0; taken = 0 });
    dir_handles = replicate 10 (record { file = 0; taken = 0 });
    file_info = 0;
  };
  pulses = record { buffer = replicate 3000 0; head = 0; count = 0 };
  mega = replicate 5120 0;
}

pub board-sized : (inp : List ℕ) → length (board inp).mega ≡ mega_size
board-sized inp = refl

AllBelow-replicate : (bound n : ℕ) → AllBelow (suc bound) (replicate n 0)
AllBelow-replicate bound zero = tt
AllBelow-replicate bound (suc n) = (omega arith, AllBelow-replicate bound n)

pub board-bytes : (inp : List ℕ) → AllBelow 256 (board inp).mega
board-bytes inp = AllBelow-replicate _ 5120

sized : (n : ℕ) → length {A = ℕ} (replicate n 0) ≡ n
sized zero = refl
sized (suc n) = ap suc (sized n)

pub zeros-IsArray : (size bound : ℕ) → IsArray size (suc bound) (replicate size 0)
zeros-IsArray size bound = record { sized = sized size; bounded = AllBelow-replicate bound size }
