-- ===== src/Usb/Driver/Names.antt =====
-- The requests for descriptors, and the values that name them.
use not.Prelude.{
  ℕ, ◌^◌, ◌/◌, ◌%◌, ◌<◌, ◌≡◌, ◌≢◌, refl, arith, List, [], ◌∷◌, ◌++◌, Option, none, some, length,
  drop,
}
use not.Usb.Driver.{Usbfs, Object, update}
use not.Usb.Driver.Descriptors.{contents, desc_len, config_desc_len}
use not.Usb.Driver.Setup.{which_descr, string_descr}

-- The eight bytes of GET_DESCRIPTOR on a value, for `n` bytes; `lo` and `hi` are those of `wIndex`.
abbrev pub descriptor_request : ℕ → ℕ → ℕ → ℕ → List ℕ
descriptor_request value lo hi n =
    0x80 ∷ 0x06 ∷ (value % 256) ∷ (value / 256) ∷ lo ∷ hi ∷ (n % 256) ∷ (n / 256) ∷ []

-- The value that names an object.
abbrev pub descr_value : Object → Option ℕ
descr_value Object.nothing = none
descr_value Object.dev_descr = some 0x0100
descr_value Object.cfg_descr = some 0x0200
descr_value Object.lang_descr = some 0x0300
descr_value Object.manu_info = some 0x0301
descr_value Object.prod_info = some 0x0302
descr_value Object.ser_num_info = some 0x0303
descr_value Object.line_coding = none

pub descr_value-lt : (o : Object) (value : ℕ) → descr_value o ≡ some value → value < 2 ^ 16
descr_value-lt Object.nothing value e = cc
descr_value-lt Object.dev_descr value e = ground arith
descr_value-lt Object.cfg_descr value e = ground arith
descr_value-lt Object.lang_descr value e = ground arith
descr_value-lt Object.manu_info value e = ground arith
descr_value-lt Object.prod_info value e = ground arith
descr_value-lt Object.ser_num_info value e = ground arith
descr_value-lt Object.line_coding value e = cc

pub which_descr_lem :
    (coding : List ℕ) (o : Object) (value : ℕ)
    → descr_value o ≡ some value
    → which_descr value ≡ some (o, length (contents coding o))
unfolding which_descr string_descr contents desc_len config_desc_len
which_descr_lem coding Object.nothing value e = cc
which_descr_lem coding Object.dev_descr value e = let v : 0x0100 ≡ value = cc in rw (← v) refl
which_descr_lem coding Object.cfg_descr value e = let v : 0x0200 ≡ value = cc in rw (← v) refl
which_descr_lem coding Object.lang_descr value e = let v : 0x0300 ≡ value = cc in rw (← v) refl
which_descr_lem coding Object.manu_info value e = let v : 0x0301 ≡ value = cc in rw (← v) refl
which_descr_lem coding Object.prod_info value e = let v : 0x0302 ≡ value = cc in rw (← v) refl
which_descr_lem coding Object.ser_num_info value e = let v : 0x0303 ≡ value = cc in rw (← v) refl
which_descr_lem coding Object.line_coding value e = cc

-- No descriptor fills its last packet.
pub size_lem :
    (coding : List ℕ) (o : Object) (value : ℕ)
    → descr_value o ≡ some value
    → (length (contents coding o) < 128) × (length (contents coding o) % 64 ≢ 0)
unfolding contents
size_lem coding Object.nothing value e = cc
size_lem coding Object.dev_descr value e = omega arith
size_lem coding Object.cfg_descr value e = omega arith
size_lem coding Object.lang_descr value e = omega arith
size_lem coding Object.manu_info value e = omega arith
size_lem coding Object.prod_info value e = omega arith
size_lem coding Object.ser_num_info value e = omega arith
size_lem coding Object.line_coding value e = cc

-- The controller puts a setup packet into the buffer of endpoint 0.
abbrev pub receives : List ℕ → Usbfs → Usbfs
receives packet u = record u { ep = update u.ep 0 (packet ++ drop (length packet) (u.ep 0)) }
