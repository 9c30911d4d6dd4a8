-- ===== src/Descriptor/Main.antt =====
-- The Main items of a descriptor (Input, Output, Feature), descriptor_parser.cc.
use usb_hid_wireless_bridge.Base.{
  ℕ, ◌+◌, ◌-◌, ◌*◌, ◌/◌, ◌%◌, ◌^◌, min, Bool, true, false, ◌&&◌, ◌||◌, not, List, [], ◌∷◌, ltb, leb,
  ◌==◌, if◌then◌else◌,
}
use usb_hid_wireless_bridge.Base.Int.{pos, ◌+ℤ◌, ◌-ℤ◌, eq_ℤ, uint32, pos_part}
use usb_hid_wireless_bridge.Descriptor.{
  ReportType, input, same_type, Parser, advance, mark_usage, mark_range, mark_list, mark_array,
  array_def,
}

module _ (report_type : ReportType) (relative : Bool) where
  -- `usage_minimum + unsigned_logical_maximum - logical_minimum` is computed as a uint32_t.
  abbrev pub effective_usage_maximum : Parser → ℕ
  effective_usage_maximum s =
      min s.usage_maximum
        (uint32 ((pos s.usage_minimum +ℤ s.unsigned_logical_maximum) -ℤ s.logical_minimum))

  abbrev pub has_range : Parser → Bool
  has_range s = s.has_usage_minimum && s.has_usage_maximum

  abbrev pub has_usages : Parser → Bool
  has_usages s = next [] s.usages
    where
      next : List ℕ → List ℕ → Bool
      next _ [] = false
      next _ (u ∷ us) = true

  abbrev pub all_bits : Parser → ℕ
  all_bits s = s.report_size * s.report_count % 2 ^ 32

  unfoldable pub scalars : Parser → Parser
  scalars s =
      if has_range s
      then mark_range report_type relative s.report_count s.usage_minimum s
      else if has_usages s
      then mark_list report_type relative s.report_count 0 s
      else advance report_type (all_bits s) s

  unfoldable pub array : Parser → Parser
  array s = advance report_type (all_bits s) (
      if has_range s
      then record s {
        usage_map =
            mark_usage report_type s.usage_minimum
              (array_def report_type relative (uint32 s.logical_minimum) (effective_usage_maximum s)
                s)
              s.usage_map;
      }
      else if has_usages s
      then mark_array report_type relative
          (pos_part ((s.unsigned_logical_maximum -ℤ s.logical_minimum) +ℤ pos 1)) s.logical_minimum
          0 s
      else s)

-- One-bit arrays that some keyboards declare for a bitmap of keys.
unfoldable pub malformed_one_bit_array : ReportType → ℕ → Parser → Bool
malformed_one_bit_array report_type value s =
    same_type report_type input
    && (value % 4 == 0)
    && (s.report_size == 1)
    && eq_ℤ s.logical_minimum (pos 0)
    && eq_ℤ s.unsigned_logical_maximum (pos 1)
    && s.has_usage_minimum
    && s.has_usage_maximum
    && leb s.usage_minimum s.usage_maximum
    && (s.usage_maximum - s.usage_minimum + 1 == s.report_count)
    && ltb 2 s.report_count

-- The loop over the values of an array, `for (int index = ...; index <= unsigned_logical_maximum; ...)`,
-- is entered and never left: every `int` is at most 2^31 - 1.
unfoldable pub never_ends : ReportType → ℕ → Parser → Bool
never_ends report_type value s =
    (value % 4 == 0)
    && not (malformed_one_bit_array report_type value s)
    && not (s.has_usage_minimum && s.has_usage_maximum)
    && has_usages report_type false s
    && eq_ℤ s.unsigned_logical_maximum (pos (2 ^ 31 - 1))

-- The local items are forgotten.
abbrev pub forget_usages : Parser → Parser
forget_usages s = record s {
  usages = [];
  usage_minimum = 0;
  usage_maximum = 0;
  has_usage_minimum = false;
  has_usage_maximum = false;
}

-- An Input, Output or Feature item that ends (`never_ends` is false), before the local items are
-- forgotten.
unfoldable pub add_fields_of : ReportType → ℕ → Parser → Parser
add_fields_of report_type value s =
    if (value % 4 == 2) || malformed_one_bit_array report_type value s
    then scalars report_type (value / 4 % 2 == 1) s
    else if value % 4 == 0
    then array report_type (value / 4 % 2 == 1) s
    else advance report_type (all_bits report_type (value / 4 % 2 == 1) s) s

unfoldable pub main_item : ReportType → ℕ → Parser → Parser
main_item report_type value s = forget_usages (add_fields_of report_type value s)
