-- ===== src/Packet/Commands.antt =====
-- The codes of the requests in User/comms/inc/comms.h.
use not.Prelude.{ℕ, ◌==◌, if◌then◌else◌, List, [], ◌∷◌, Option, none, some}

pub data Command : Type 0 where
  ping identify run out_pp : Command
  out_od in_floating in_pu in_pd : Command
  set_pin clear_pin read_pin pwm_init : Command
  pwm_duty adc_init adc_read adc_tkey_read : Command
  i2c_init i2c_scan i2c_read i2c_write : Command
  i2c_write_read pulseio_in_clear pulseio_in_stop pulseio_in_resume : Command
  pulseio_in_read pulseio_out_send neopixel_write internal_ws2812b : Command
  ow_reset ow_write_0 ow_write_1 ow_read : Command
  spi_init spi_read spi_write spi_write_read : Command
  flashfs_remove flashfs_move flashfs_file_info flashfs_file_open : Command
  flashfs_file_close flashfs_file_read flashfs_file_write flashfs_file_seek : Command
  flashfs_file_truncate flashfs_mkdir flashfs_dir_open flashfs_dir_close : Command
  flashfs_dir_read : Command

-- The `#define`s.
abbrev pub code_of : Command → ℕ
code_of Command.ping = 0
code_of Command.identify = 1
code_of Command.run = 2
code_of Command.out_pp = 20
code_of Command.out_od = 21
code_of Command.in_floating = 22
code_of Command.in_pu = 23
code_of Command.in_pd = 24
code_of Command.set_pin = 30
code_of Command.clear_pin = 31
code_of Command.read_pin = 32
code_of Command.pwm_init = 119
code_of Command.pwm_duty = 120
code_of Command.adc_init = 121
code_of Command.adc_read = 122
code_of Command.adc_tkey_read = 123
code_of Command.i2c_init = 140
code_of Command.i2c_scan = 141
code_of Command.i2c_read = 142
code_of Command.i2c_write = 143
code_of Command.i2c_write_read = 144
code_of Command.pulseio_in_clear = 151
code_of Command.pulseio_in_stop = 152
code_of Command.pulseio_in_resume = 153
code_of Command.pulseio_in_read = 154
code_of Command.pulseio_out_send = 160
code_of Command.neopixel_write = 170
code_of Command.internal_ws2812b = 175
code_of Command.ow_reset = 180
code_of Command.ow_write_0 = 181
code_of Command.ow_write_1 = 182
code_of Command.ow_read = 183
code_of Command.spi_init = 190
code_of Command.spi_read = 191
code_of Command.spi_write = 192
code_of Command.spi_write_read = 193
code_of Command.flashfs_remove = 235
code_of Command.flashfs_move = 236
code_of Command.flashfs_file_info = 237
code_of Command.flashfs_file_open = 238
code_of Command.flashfs_file_close = 239
code_of Command.flashfs_file_read = 240
code_of Command.flashfs_file_write = 241
code_of Command.flashfs_file_seek = 242
code_of Command.flashfs_file_truncate = 243
code_of Command.flashfs_mkdir = 244
code_of Command.flashfs_dir_open = 245
code_of Command.flashfs_dir_close = 246
code_of Command.flashfs_dir_read = 247

-- The cases of the `switch` of `get_packet`.
abbrev pub cases : List Command
cases =
    Command.ping ∷ Command.identify ∷ Command.run ∷ Command.out_pp ∷ Command.out_od
    ∷ Command.in_floating ∷ Command.in_pu ∷ Command.in_pd ∷ Command.set_pin ∷ Command.clear_pin
    ∷ Command.read_pin ∷ Command.pwm_init ∷ Command.pwm_duty ∷ Command.adc_init ∷ Command.adc_read
    ∷ Command.adc_tkey_read ∷ Command.i2c_init ∷ Command.i2c_scan ∷ Command.i2c_read
    ∷ Command.i2c_write ∷ Command.i2c_write_read ∷ Command.pulseio_in_clear
    ∷ Command.pulseio_in_stop ∷ Command.pulseio_in_resume ∷ Command.pulseio_in_read
    ∷ Command.pulseio_out_send ∷ Command.neopixel_write ∷ Command.internal_ws2812b
    ∷ Command.ow_reset ∷ Command.ow_write_0 ∷ Command.ow_write_1 ∷ Command.ow_read
    ∷ Command.spi_init ∷ Command.spi_read ∷ Command.spi_write ∷ Command.spi_write_read
    ∷ Command.flashfs_remove ∷ Command.flashfs_move ∷ Command.flashfs_file_info
    ∷ Command.flashfs_file_open ∷ Command.flashfs_file_close ∷ Command.flashfs_file_read
    ∷ Command.flashfs_file_write ∷ Command.flashfs_file_seek ∷ Command.flashfs_file_truncate
    ∷ Command.flashfs_mkdir ∷ Command.flashfs_dir_open ∷ Command.flashfs_dir_close
    ∷ Command.flashfs_dir_read ∷ []

abbrev pub find_case : List Command → ℕ → Option Command
find_case [] code = none
find_case (c ∷ cs) code = if code == code_of c then some c else find_case cs code

-- The case that the `switch` takes; `none` when no case has that code.
unfoldable pub command_of : ℕ → Option Command
command_of code = find_case cases code
