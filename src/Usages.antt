-- ===== src/Usages.antt =====
-- The description of one usage in a report, `usage_def_t` of types.h, less the pointers into
-- input_state[] and the flag that `update_their_descriptor_derivates` adds.
use usb_hid_wireless_bridge.Base.{ℕ, Bool}
use usb_hid_wireless_bridge.Base.Int.{ℤ}

pub record UsageDef : Type 0 where
  pub report_id : ℕ
  pub size : ℕ
  pub bitpos : ℕ
  pub is_relative : Bool
  pub is_array : Bool
  pub logical_minimum : ℤ
  pub logical_maximum : ℤ
  pub index : ℕ
  pub count : ℕ
  pub usage_maximum : ℕ
  pub index_mask : ℕ
