-- ===== src/Gpio/Tests.antt =====
-- gpio.c run on concrete registers.
use not.Prelude.{◌≡◌, arith, [], true}
use not.Hardware.{Hw, gpio_a}
use not.Gpio.{gpio_base_init_pins, gpio_init_pin, mode_ipu, mode_ipd, mode_out_pp}
use not.Gpio.Pin.{IsConfigured, gpio_base_init_pins-IsConfigured, gpio_init_pin_pull}

abbrev at_reset : Hw
at_reset = record {
  read_indr = λ p t. 0;
  read_outdr = λ p t. 0;
  read_cfglr = λ p t. 0x44444444;
  read_cfghr = λ p t. 0x44444444;
  timed_out = λ t. true;
}

gpio_base_init_pins-IsConfigured_example :
    IsConfigured at_reset gpio_a 9 mode_out_pp []
      (gpio_base_init_pins at_reset gpio_a 9 mode_out_pp [])
gpio_base_init_pins-IsConfigured_example =
    gpio_base_init_pins-IsConfigured at_reset gpio_a 9 mode_out_pp [] (omega arith) (omega arith)

gpio_init_pin_pull_example :
    gpio_init_pin at_reset 5 mode_ipu [] ≡ gpio_init_pin at_reset 5 mode_ipd []
gpio_init_pin_pull_example = gpio_init_pin_pull at_reset 5 []
