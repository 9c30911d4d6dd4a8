-- ===== src/Descriptor/Maximum.antt =====
-- Which items of a descriptor change `unsigned_logical_maximum`, descriptor_parser.cc.
use usb_hid_wireless_bridge.Base.{
  ℕ, zero, suc, ◌/◌, ◌%◌, Bool, true, false, ◌||◌, ◌≡◌, refl, ◌==◌, if◌then◌else◌, arith,
}
use usb_hid_wireless_bridge.Base.Int.{ℤ, signed32}
use usb_hid_wireless_bridge.Descriptor.{
  ReportType, Parser, advance, mark_scalar, mark_range, mark_list, mark_array,
}
use usb_hid_wireless_bridge.Descriptor.Main.{
  has_range, has_usages, scalars, array, malformed_one_bit_array, add_fields_of, main_item,
}
use usb_hid_wireless_bridge.Descriptor.Walk.{do_item}

module _ (report_type : ReportType) (relative : Bool) where
  maximum-mark_range :
      (n usage : ℕ) (s : Parser)
      → (mark_range report_type relative n usage s).unsigned_logical_maximum
        ≡ s.unsigned_logical_maximum
  unfolding mark_range mark_scalar advance
  maximum-mark_range zero usage s = refl
  maximum-mark_range (suc n) usage s =
      maximum-mark_range n _ (mark_scalar report_type relative usage s)

  maximum-mark_list :
      (n usage : ℕ) (s : Parser)
      → (mark_list report_type relative n usage s).unsigned_logical_maximum
        ≡ s.unsigned_logical_maximum
  unfolding mark_list mark_scalar advance
  maximum-mark_list zero usage s = refl
  maximum-mark_list (suc n) usage s = maximum-mark_list n _ _

  maximum-mark_array :
      (n : ℕ) (index : ℤ) (usage : ℕ) (s : Parser)
      → (mark_array report_type relative n index usage s).unsigned_logical_maximum
        ≡ s.unsigned_logical_maximum
  unfolding mark_array
  maximum-mark_array zero index usage s = refl
  maximum-mark_array (suc n) index usage s = maximum-mark_array n _ _ _

  maximum_if :
      (b : Bool) (t u s : Parser)
      → t.unsigned_logical_maximum ≡ s.unsigned_logical_maximum
      → u.unsigned_logical_maximum ≡ s.unsigned_logical_maximum
      → (if b then t else u).unsigned_logical_maximum ≡ s.unsigned_logical_maximum
  maximum_if true t u s p q = p
  maximum_if false t u s p q = q

  maximum-scalars :
      (s : Parser)
      → (scalars report_type relative s).unsigned_logical_maximum ≡ s.unsigned_logical_maximum
  unfolding scalars advance
  maximum-scalars s =
      maximum_if (has_range report_type relative s) _ _ s (maximum-mark_range _ _ s)
        (maximum_if (has_usages report_type relative s) _ _ s (maximum-mark_list _ _ s) refl)

  maximum-array :
      (s : Parser)
      → (array report_type relative s).unsigned_logical_maximum ≡ s.unsigned_logical_maximum
  unfolding array advance
  maximum-array s =
      maximum_if (has_range report_type relative s) _ _ s refl
        (maximum_if (has_usages report_type relative s) _ _ s (maximum-mark_array _ _ _ s) refl)

maximum-main_item :
    (report_type : ReportType) (value : ℕ) (s : Parser)
    → (main_item report_type value s).unsigned_logical_maximum ≡ s.unsigned_logical_maximum
unfolding main_item add_fields_of advance
maximum-main_item report_type value s =
    maximum_if report_type false ((value % 4 == 2) || malformed_one_bit_array report_type value s) _
      _ s (maximum-scalars report_type (value / 4 % 2 == 1) s)
      (maximum_if report_type false (value % 4 == 0) _ _ s
        (maximum-array report_type (value / 4 % 2 == 1) s) refl)

-- Only a Logical Maximum changes it.
pub maximum-do_item :
    (item size value : ℕ) (s : Parser)
    → (do_item item size value s).unsigned_logical_maximum
      ≡ (if item == 0x24 then signed32 value else s.unsigned_logical_maximum)
unfolding do_item
maximum-do_item item size value s = ground (
  arith,
  maximum-main_item ReportType.input value s,
  maximum-main_item ReportType.output value s,
  maximum-main_item ReportType.feature value s,
)
