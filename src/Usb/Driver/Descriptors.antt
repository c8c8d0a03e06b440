-- ===== src/Usb/Driver/Descriptors.antt =====
-- User/USB_Serial/src/usb_desc.c: the descriptors that the device gives to the host.
use not.Prelude.{ℕ, ◌+◌, ◌*◌, ◌/◌, List, [], ◌∷◌, get_or}
use not.Hardware.{u8}
use not.Usb.Driver.{Object, ep0_size}

-- `DEF_USB_VID`, `DEF_USB_PID`.
abbrev usb_vid : ℕ
usb_vid = 0x1A86

abbrev usb_pid : ℕ
usb_pid = 0xFE0C

abbrev pub my_dev_descr : List ℕ
my_dev_descr =
    0x12
    ∷ 0x01
    ∷ 0x10
    ∷ 0x01
    ∷ 0xFF
    ∷ 0xFF
    ∷ 0xFF
    ∷ ep0_size
    ∷ u8 usb_vid
    ∷ u8 (usb_vid / 256)
    ∷ u8 usb_pid
    ∷ u8 (usb_pid / 256)
    ∷ 0x01
    ∷ 0x00
    ∷ 0x01
    ∷ 0x02
    ∷ 0x00
    ∷ 0x01
    ∷ []

abbrev pub my_cfg_descr : List ℕ
my_cfg_descr =
    0x09 ∷ 0x02 ∷ 0x43 ∷ 0x00 ∷ 0x02 ∷ 0x01 ∷ 0x00 ∷ 0x80 ∷ 0x32 ∷ 0x09 ∷ 0x04 ∷ 0x00 ∷ 0x00 ∷ 0x01
    ∷ 0x02 ∷ 0x02 ∷ 0x01 ∷ 0x00 ∷ 0x05 ∷ 0x24 ∷ 0x00 ∷ 0x10 ∷ 0x01 ∷ 0x05 ∷ 0x24 ∷ 0x01 ∷ 0x00
    ∷ 0x01 ∷ 0x04 ∷ 0x24 ∷ 0x02 ∷ 0x02 ∷ 0x05 ∷ 0x24 ∷ 0x06 ∷ 0x00 ∷ 0x01 ∷ 0x07 ∷ 0x05 ∷ 0x81
    ∷ 0x03 ∷ 64 ∷ 0 ∷ 0x01 ∷ 0x09 ∷ 0x04 ∷ 0x01 ∷ 0x00 ∷ 0x02 ∷ 0x0A ∷ 0x00 ∷ 0x00 ∷ 0x00 ∷ 0x07
    ∷ 0x05 ∷ 0x02 ∷ 0x02 ∷ 64 ∷ 0 ∷ 0x00 ∷ 0x07 ∷ 0x05 ∷ 0x83 ∷ 0x02 ∷ 64 ∷ 0 ∷ 0x00 ∷ []

abbrev pub my_lang_descr : List ℕ
my_lang_descr = 0x04 ∷ 0x03 ∷ 0x09 ∷ 0x04 ∷ []

abbrev pub my_manu_info : List ℕ
my_manu_info = 0x0E ∷ 0x03 ∷ b'w' ∷ 0 ∷ b'c' ∷ 0 ∷ b'h' ∷ 0 ∷ b'.' ∷ 0 ∷ b'c' ∷ 0 ∷ b'n' ∷ 0 ∷ []

abbrev pub my_prod_info : List ℕ
my_prod_info =
    0x16 ∷ 0x03 ∷ b'U' ∷ 0 ∷ b'S' ∷ 0 ∷ b'B' ∷ 0 ∷ b' ' ∷ 0 ∷ b'S' ∷ 0 ∷ b'e' ∷ 0 ∷ b'r' ∷ 0 ∷ b'i'
    ∷ 0 ∷ b'a' ∷ 0 ∷ b'l' ∷ 0 ∷ []

abbrev pub my_ser_num_info : List ℕ
my_ser_num_info =
    0x16 ∷ 0x03 ∷ b'0' ∷ 0 ∷ b'1' ∷ 0 ∷ b'2' ∷ 0 ∷ b'3' ∷ 0 ∷ b'4' ∷ 0 ∷ b'5' ∷ 0 ∷ b'6' ∷ 0 ∷ b'7'
    ∷ 0 ∷ b'8' ∷ 0 ∷ b'9' ∷ 0 ∷ []

-- The bytes of an object, `coding` those of `g_line_coding`.
unfoldable pub contents : List ℕ → Object → List ℕ
contents coding Object.nothing = []
contents coding Object.dev_descr = my_dev_descr
contents coding Object.cfg_descr = my_cfg_descr
contents coding Object.lang_descr = my_lang_descr
contents coding Object.manu_info = my_manu_info
contents coding Object.prod_info = my_prod_info
contents coding Object.ser_num_info = my_ser_num_info
contents coding Object.line_coding = coding

-- `DEF_USBD_DEVICE_DESC_LEN` and the like.
unfoldable pub desc_len : List ℕ → ℕ
desc_len d = get_or d 0 0

unfoldable pub config_desc_len : List ℕ → ℕ
config_desc_len d = get_or d 2 0 + get_or d 3 0 * 256
