-- ===== src/Packet/Wires.antt =====
-- The requests of get_packet for the 1-Wire bus and for SPI.
use not.Prelude.{◌^◌}
use not.Hardware.{u16}
use not.OneWire.{one_wire_reset, one_wire_write0, one_wire_write1, one_wire_read}
use not.Spi.{spi_init, spi_read, spi_write, spi_write_read}
use not.Packet.{
  half, Chip, Handler, ◌>>=◌, ◌>>◌, on_trace, try_trace, recv_u8, recv_u32, send_u32, send_bytes,
  recv_into, put_mega, get_mega,
}

module _ {S L F D I : Type 0} (c : Chip S L F D I) where
  unfoldable pub recv_ow_reset : Handler S L F D I
  recv_ow_reset = do
    pin_number ← recv_u8 c
    result ← on_trace c (one_wire_reset c.hw (u16 (2 ^ pin_number)))
    send_u32 c result

  unfoldable pub recv_ow_write_0 : Handler S L F D I
  recv_ow_write_0 = do pin_number ← recv_u8 c; on_trace c (one_wire_write0 (u16 (2 ^ pin_number)))

  unfoldable pub recv_ow_write_1 : Handler S L F D I
  recv_ow_write_1 = do pin_number ← recv_u8 c; on_trace c (one_wire_write1 (u16 (2 ^ pin_number)))

  unfoldable pub recv_ow_read : Handler S L F D I
  recv_ow_read = do
    pin_number ← recv_u8 c
    result ← on_trace c (one_wire_read c.hw (u16 (2 ^ pin_number)))
    send_u32 c result

  unfoldable pub recv_spi_init : Handler S L F D I
  recv_spi_init = do
    clock_pin ← recv_u8 c
    mosi_pin ← recv_u8 c
    miso_pin ← recv_u8 c
    try_trace c (spi_init c.hw clock_pin mosi_pin miso_pin)

  unfoldable pub recv_spi_read : Handler S L F D I
  recv_spi_read = do
    clock_pin ← recv_u8 c
    mosi_pin ← recv_u8 c
    miso_pin ← recv_u8 c
    mode ← recv_u8 c
    write_value ← recv_u8 c
    delay ← recv_u32 c
    len ← recv_u32 c
    bytes ← on_trace c (spi_read c.hw clock_pin mosi_pin miso_pin mode write_value delay len)
    put_mega c 0 bytes
    read_buff ← get_mega c 0 len
    send_bytes c read_buff

  unfoldable pub recv_spi_write : Handler S L F D I
  recv_spi_write = do
    clock_pin ← recv_u8 c
    mosi_pin ← recv_u8 c
    miso_pin ← recv_u8 c
    mode ← recv_u8 c
    delay ← recv_u32 c
    len ← recv_u32 c
    recv_into c 0 len
    write_buff ← get_mega c 0 len
    on_trace c (spi_write c.hw clock_pin mosi_pin miso_pin mode delay write_buff)

  -- The second half of the buffer is for what is written.
  unfoldable pub recv_spi_write_read : Handler S L F D I
  recv_spi_write_read = do
    clock_pin ← recv_u8 c
    mosi_pin ← recv_u8 c
    miso_pin ← recv_u8 c
    mode ← recv_u8 c
    delay ← recv_u32 c
    len ← recv_u32 c
    recv_into c half len
    write_buff ← get_mega c half len
    bytes ← on_trace c (spi_write_read c.hw clock_pin mosi_pin miso_pin mode delay write_buff)
    put_mega c 0 bytes
    read_buff ← get_mega c 0 len
    send_bytes c read_buff
