-- ===== src/Packet/Bus.antt =====
-- The requests of get_packet for the I2C master.
use not.Prelude.{ℕ, zero, suc, ◌+◌, ◌*◌, ◌==◌, if◌then◌else◌, [], ◌∷◌}
use not.Hardware.{u8}
use not.Gpio.{mode_out_od, gpio_init_pin}
use not.I2c.{i2c_scan_address, i2c_send_bytes, i2c_recv_bytes, i2c_send_recv_bytes}
use not.Packet.{
  half, Chip, Handler, ◌>>=◌, ◌>>◌, pure, on_trace, try_trace, recv_u8, recv_u32, send_bytes,
  recv_into, put_mega, get_mega,
}

module _ {S L F D I : Type 0} (c : Chip S L F D I) where
  unfoldable pub recv_i2c_init : Handler S L F D I
  recv_i2c_init = do
    sda_pin_number ← recv_u8 c
    scl_pin_number ← recv_u8 c
    try_trace c (gpio_init_pin c.hw sda_pin_number mode_out_od)
    try_trace c (gpio_init_pin c.hw scl_pin_number mode_out_od)

  -- The loop of RECV_I2C_SCAN, with `left` addresses to go from `i` on.
  unfoldable pub scan_from : ℕ → ℕ → ℕ → ℕ → ℕ → Handler S L F D I
  scan_from sda scl delay zero i = pure tt
  scan_from sda scl delay (suc left) i = do
    ack ← on_trace c (i2c_scan_address c.hw sda scl i delay)
    if ack == 0 then pure tt else send_bytes c (u8 i ∷ [])
    scan_from sda scl delay left (i + 1)

  unfoldable pub recv_i2c_scan : Handler S L F D I
  recv_i2c_scan = do
    sda_pin_number ← recv_u8 c
    scl_pin_number ← recv_u8 c
    delay ← recv_u32 c
    scan_from sda_pin_number scl_pin_number delay 127 1
    send_bytes c (0 ∷ [])

  unfoldable pub recv_i2c_write : Handler S L F D I
  recv_i2c_write = do
    sda_pin ← recv_u8 c
    scl_pin ← recv_u8 c
    address ← recv_u8 c
    write_data_len ← recv_u32 c
    recv_into c 0 write_data_len
    stop ← recv_u8 c
    delay ← recv_u32 c
    write_buffer ← get_mega c 0 write_data_len
    on_trace c (i2c_send_bytes c.hw sda_pin scl_pin (u8 (address * 2)) write_buffer stop delay)

  unfoldable pub recv_i2c_read : Handler S L F D I
  recv_i2c_read = do
    sda_pin ← recv_u8 c
    scl_pin ← recv_u8 c
    address ← recv_u8 c
    bytes_to_read ← recv_u32 c
    stop ← recv_u8 c
    delay ← recv_u32 c
    bytes ←
        on_trace c (i2c_recv_bytes c.hw sda_pin scl_pin (u8 (address * 2)) bytes_to_read stop delay)
    put_mega c 0 bytes
    read_buffer ← get_mega c 0 bytes_to_read
    send_bytes c read_buffer

  -- The second half of the buffer is for what is read.
  unfoldable pub recv_i2c_write_read : Handler S L F D I
  recv_i2c_write_read = do
    sda_pin ← recv_u8 c
    scl_pin ← recv_u8 c
    address ← recv_u8 c
    write_data_len ← recv_u32 c
    recv_into c 0 write_data_len
    bytes_to_read ← recv_u32 c
    stop ← recv_u8 c
    delay ← recv_u32 c
    write_buffer ← get_mega c 0 write_data_len
    bytes ← on_trace c (
        i2c_send_recv_bytes c.hw sda_pin scl_pin (u8 (address * 2)) write_buffer bytes_to_read stop
          delay)
    put_mega c half bytes
    read_buffer ← get_mega c half bytes_to_read
    send_bytes c read_buffer
