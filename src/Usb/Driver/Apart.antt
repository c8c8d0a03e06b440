-- ===== src/Usb/Driver/Apart.antt =====
-- What the transfers of endpoint 0 leave as it is.
use not.Prelude.{ℕ, ◌≡◌, ◌≢◌, refl, ◌∙◌}
use not.Usb.Driver.{Usbfs}

-- What a control transfer leaves alone.
pub record Apart (u u' : Usbfs) : Type 0 where
  pub same_config : u'.dev_config ≡ u.dev_config
  pub same_status : u'.dev_enum_status ≡ u.dev_enum_status
  pub same_address : u'.reg_dev_addr ≡ u.reg_dev_addr
  pub same_coding : u'.g_line_coding ≡ u.g_line_coding
  pub same_endpoints : (n : ℕ) → n ≢ 0 → u'.at n ≡ u.at n

pub Apart-refl : (u : Usbfs) → Apart u u
Apart-refl u = record {
  same_config = refl;
  same_status = refl;
  same_address = refl;
  same_coding = refl;
  same_endpoints = λ n h. refl;
}

pub Apart-trans : {u v w : Usbfs} → Apart u v → Apart v w → Apart u w
Apart-trans a b = record {
  same_config = b.same_config ∙ a.same_config;
  same_status = b.same_status ∙ a.same_status;
  same_address = b.same_address ∙ a.same_address;
  same_coding = b.same_coding ∙ a.same_coding;
  same_endpoints = λ n h. b.same_endpoints n h ∙ a.same_endpoints n h;
}
