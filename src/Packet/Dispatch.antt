-- ===== src/Packet/Dispatch.antt =====
-- `get_packet` of User/comms/src/comms.c: one request from the link, and its service.
use not.Prelude.{Option, none, some}
use not.Gpio.{mode_ain, mode_in_floating, mode_ipd, mode_ipu, mode_out_od, mode_out_pp, mode_af_pp}
use not.Packet.{Chip, Handler, ◌>>=◌, pure, recv_u8}
use not.Packet.Commands.{Command, command_of}
use not.Packet.Pins.{
  recv_ping, recv_identify, recv_pin_mode, recv_set_pin, recv_clear_pin, recv_read_pin,
}
use not.Packet.Program.{recv_run}
use not.Packet.Analog.{recv_pwm_duty, recv_adc_read, recv_adc_tkey_read}
use not.Packet.Bus.{
  recv_i2c_init, recv_i2c_scan, recv_i2c_write, recv_i2c_read, recv_i2c_write_read,
}
use not.Packet.Trains.{
  recv_pulseio_in_clear, recv_pulseio_in_stop, recv_pulseio_in_resume, recv_pulseio_in_read,
  recv_pulseio_out_send, recv_neopixel_write, recv_internal_ws2812b,
}
use not.Packet.Wires.{
  recv_ow_reset, recv_ow_write_0, recv_ow_write_1, recv_ow_read, recv_spi_init, recv_spi_read,
  recv_spi_write, recv_spi_write_read,
}
use not.Packet.Files.{
  recv_flashfs_remove, recv_flashfs_move, recv_flashfs_file_open, recv_flashfs_file_close,
  recv_flashfs_file_read, recv_flashfs_file_write, recv_flashfs_file_seek,
  recv_flashfs_file_truncate, recv_flashfs_mkdir, recv_flashfs_dir_open, recv_flashfs_dir_close,
  recv_flashfs_dir_read,
}

module _ {S L F D I : Type 0} (c : Chip S L F D I) where
  unfoldable pub handle : Command → Handler S L F D I
  handle Command.ping = recv_ping c
  handle Command.identify = recv_identify c
  handle Command.run = recv_run c
  handle Command.out_pp = recv_pin_mode c mode_out_pp
  handle Command.out_od = recv_pin_mode c mode_out_od
  handle Command.in_floating = recv_pin_mode c mode_in_floating
  handle Command.in_pu = recv_pin_mode c mode_ipu
  handle Command.in_pd = recv_pin_mode c mode_ipd
  handle Command.set_pin = recv_set_pin c
  handle Command.clear_pin = recv_clear_pin c
  handle Command.read_pin = recv_read_pin c
  handle Command.pwm_init = recv_pin_mode c mode_af_pp
  handle Command.pwm_duty = recv_pwm_duty c
  handle Command.adc_init = recv_pin_mode c mode_ain
  handle Command.adc_read = recv_adc_read c
  handle Command.adc_tkey_read = recv_adc_tkey_read c
  handle Command.i2c_init = recv_i2c_init c
  handle Command.i2c_scan = recv_i2c_scan c
  handle Command.i2c_read = recv_i2c_read c
  handle Command.i2c_write = recv_i2c_write c
  handle Command.i2c_write_read = recv_i2c_write_read c
  handle Command.pulseio_in_clear = recv_pulseio_in_clear c
  handle Command.pulseio_in_stop = recv_pulseio_in_stop c
  handle Command.pulseio_in_resume = recv_pulseio_in_resume c
  handle Command.pulseio_in_read = recv_pulseio_in_read c
  handle Command.pulseio_out_send = recv_pulseio_out_send c
  handle Command.neopixel_write = recv_neopixel_write c
  handle Command.internal_ws2812b = recv_internal_ws2812b c
  handle Command.ow_reset = recv_ow_reset c
  handle Command.ow_write_0 = recv_ow_write_0 c
  handle Command.ow_write_1 = recv_ow_write_1 c
  handle Command.ow_read = recv_ow_read c
  handle Command.spi_init = recv_spi_init c
  handle Command.spi_read = recv_spi_read c
  handle Command.spi_write = recv_spi_write c
  handle Command.spi_write_read = recv_spi_write_read c
  handle Command.flashfs_remove = recv_flashfs_remove c
  handle Command.flashfs_move = recv_flashfs_move c
  handle Command.flashfs_file_info = pure tt
  handle Command.flashfs_file_open = recv_flashfs_file_open c
  handle Command.flashfs_file_close = recv_flashfs_file_close c
  handle Command.flashfs_file_read = recv_flashfs_file_read c
  handle Command.flashfs_file_write = recv_flashfs_file_write c
  handle Command.flashfs_file_seek = recv_flashfs_file_seek c
  handle Command.flashfs_file_truncate = recv_flashfs_file_truncate c
  handle Command.flashfs_mkdir = recv_flashfs_mkdir c
  handle Command.flashfs_dir_open = recv_flashfs_dir_open c
  handle Command.flashfs_dir_close = recv_flashfs_dir_close c
  handle Command.flashfs_dir_read = recv_flashfs_dir_read c

  -- A code without a case is dropped: `switch` has no `default`.
  unfoldable pub serve : Option Command → Handler S L F D I
  serve none = pure tt
  serve (some command) = handle command

  unfoldable pub get_packet : Handler S L F D I
  get_packet = do code ← recv_u8 c; serve (command_of code)
