-- ===== src/Comms/Exchange.antt =====
-- What one side sends with the calls of protocol.c, the other receives.
use not.Prelude.{ℕ, ◌+◌, ◌*◌, ◌/◌, ◌%◌, ◌^◌, ◌<◌, ◌≡◌, arith, get_or, bit_or_above}
use not.Usb.Serial.{bytes_of, word_of}

-- What `comms_send_u32` sends of a word, `comms_recv_u32` reads as the same word: the four bytes,
-- the lowest first, give it back. The condition is that the word has 32 bits.
pub word_of-bytes_of :
    (x : ℕ)
    → x < 2 ^ 32
    → word_of
        (get_or (bytes_of x) 0 0)
        (get_or (bytes_of x) 1 0)
        (get_or (bytes_of x) 2 0)
        (get_or (bytes_of x) 3 0)
      ≡ x
unfolding word_of bytes_of
word_of-bytes_of x h =
    let b1 = x % 2 ^ 8 in
    let b2 = x / 2 ^ 8 % 2 ^ 8 in
    let b3 = x / 2 ^ 16 % 2 ^ 8 in
    let b4 = x / 2 ^ 24 % 2 ^ 8 in
    let two = bit_or_above 8 b1 b2 (omega arith) in
    let three = bit_or_above 16 (b1 + b2 * 2 ^ 8) b3 (omega arith) in
    let four = bit_or_above 24 (b1 + b2 * 2 ^ 8 + b3 * 2 ^ 16) b4 (omega arith) in
    rw (two, three, four) (omega arith)
