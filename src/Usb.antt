-- ===== src/Usb.antt =====
-- The USB serial line, User/USB_Serial/src/usb_serial.c.
pub mod Ring
pub mod Serial
pub mod Driver
pub mod Link
mod Tests
