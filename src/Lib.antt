-- ===== src/Lib.antt =====
-- Not232: a CH32V203 board that a host drives over USB or I2C. These files model the firmware's own
-- code and what makes it correct.
--
-- The parts and their files (paths from the repository's root):
--   * Hardware: the chip as a history of accesses, newest first (`Trace`), and what a read answers
--     after a history (`Hw`, a parameter). Hardware/Wires says which levels a device on port A sees.
--   * Gpio: User/Features/src/gpio.c. The pin table, the configuration of a pin, the pin calls.
--   * Vm: User/VMIOX/src/execute.c and opcodes.c, User/VMIOX/inc/opcodes.h. `Vm` holds the locals of
--     `run` and the arrays that the caller passes; there is one function for each case of the
--     switch (`exec_call`, `exec_push_up`, ...), `step` for one turn of the loop and `run` for the
--     loop. An access out of bounds is `fault`. Vm/Opcodes has the scans that get_packet makes
--     before a run. Vm/Invariant, Control, Sampling, Scans, Missed, Banks and Waiting are about them.
--   * Usb: User/USB_Serial/src/usb_serial.c. Usb/Ring has the two rings, Usb/Serial the calls. The
--     interrupts that arrive while a call waits are lists: the packets of the host before each look
--     at the ring, and for each delay whether the IN interrupt comes in it.
--     Usb/Driver is User/USB_Serial/src/ch32v20x_usbfs_device.c with the descriptors of usb_desc.c: the
--     registers of the controller and the variables are `Usbfs`, USBHD_IRQHandler is
--     `usbhd_irq_handler`, and the calls that it makes in usb_serial.c are in its result. What a packet
--     brings is put into the buffers from outside. `pUSBFS_Descr` is an object and an offset
--     in it, and a copy from behind the end of the object gives `none`. Usb/Driver/Transfer and
--     Enumerate have the host of a control transfer, Events and Refines the view of usb_serial.c.
--   * Spi, I2c, OneWire, Neopixel, Pwm: User/Features/src/spi.c, i2c.c, one_wire.c, neopixel.c, pwm.c
--     and pulse_out.c. A routine takes a history and gives a longer one. Spi/Slave, I2c/Bus,
--     Neopixel/Line, OneWire/Slots and Pwm/Train are devices that decode such a history.
--   * Adc: User/Features/src/adc.c and touchkey.c, one conversion. What the converter answers is the
--     parameter `Converter`.
--   * Pulse: the ring of captured pulses, User/ch32v20x_it.c and User/Features/src/pulse_in.c.
--     Pulse/Capture has the interrupt handlers, as the pins whose lines each looks at.
--   * Fs: User/Features/src/fs.c. littlefs (User/FAT) is the parameter `Littlefs`; Fs/Flash is the
--     block device under it, with the calls of the flash controller in a log.
--   * Comms: User/comms/src/protocol.c over the two links, which are the parameter `Link`. `IsPipe` in
--     Comms/Pipe is what the code above relies on in a link; Usb/Link is the link that usb_serial.c
--     makes, with the host as a parameter. Comms/Device is User/comms/src/i2c_device.c: the answers of
--     the peripheral that its loops poll are a list, one record for each turn. A list that ends
--     while a call still waits gives `none`. `IsPipe` is not shown for it.
--   * Packet: get_packet of User/comms/src/comms.c. `Chip` holds what the firmware stands on, `Board`
--     its state: the link, the history of the pins, the file system, the captured pulses and the
--     shared buffer. Each case of the switch is a function `recv_...` in the language of Packet
--     (`fault`: out of bounds; `waiting`: it never returns), in Packet/Pins, Program, Analog, Bus,
--     Wires, Trains and Files; Packet/Dispatch chooses. The bytes on the stack that the code does not
--     set are parameters (`junk_...`). Packet/Memory, Served and Chain hold the lemmas, Requests, Transfers,
--     Paths, RunRequest and Oversize are about requests.
--   * Main: the loop of User/main.c; Main/Setups has requests that it serves turn by turn.
--
-- Numbers: a C integer is a natural number, and the wrap-around of its width is written out (`u8`,
-- `u16`, `u32`, `% 2 ^ w`). A negative C `int` is its 32-bit pattern.
--
-- Fuel: `run` takes the number of turns of the loop, and the waits of the interpreter the number of
-- looks at the pin. A program need not end, so there is no bound for `run`; the theorems give the
-- number of turns. A wait ends within `limit + 1` looks when the timer runs out after at most `limit`
-- questions. The lists of interrupts of Usb are finite: a call that still waits at their end
-- gives `none`. A conversion and a program of a request have the bounds `fuel` and `rounds` of `Chip`;
-- what they do not finish in is `waiting`, and no theorem says that a request with a program ends.
--
-- Not modelled: the bit-banged I2C device in User/main.c, which nothing calls; the set-up of the
-- timers, the converter, the clocks and the I2C peripheral, which is calls of the WCH library; the
-- WCH peripheral library, littlefs and the start-up code.
mod Prelude
pub mod Hardware
pub mod Gpio
pub mod Usb
pub mod Vm
pub mod Spi
pub mod I2c
pub mod OneWire
pub mod Neopixel
pub mod Pwm
pub mod Adc
pub mod Pulse
pub mod Fs
pub mod Comms
pub mod Packet
pub mod Main
