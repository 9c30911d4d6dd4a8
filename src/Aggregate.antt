-- ===== src/Aggregate.antt =====
-- `aggregate_relative` of remapper.cc: the relative fields of a report are added to those of the
-- report before it, while that one is still queued.
use usb_hid_wireless_bridge.Base.{
  ℕ, ◌%◌, Bool, true, false, ◌||◌, not, List, [], ◌∷◌, if◌then◌else◌,
}
use usb_hid_wireless_bridge.Base.Int.{ℤ, pos, ◌+ℤ◌, ltb_ℤ, eq_ℤ, signed32, uint32, int32}
use usb_hid_wireless_bridge.Bits.{get_bits, put_bits, sign_extend_hid_value}
use usb_hid_wireless_bridge.Usages.{UsageDef}
pub mod Field
pub mod Sums
pub mod Tests

-- `val1` and `val2`: a field as an int32_t, with its sign if the usage has negative values.
unfoldable pub field_of : List ℕ → UsageDef → ℤ
field_of report u =
    let raw = get_bits report u.bitpos u.size in
    if ltb_ℤ u.logical_minimum (pos 0) then sign_extend_hid_value raw u.size else signed32 raw

-- The sum is an int64_t, which it cannot overflow.
abbrev pub in_range : List ℕ → List ℕ → UsageDef → Bool
in_range prev_report report u =
    let sum = field_of report u +ℤ field_of prev_report u in
    not (ltb_ℤ sum u.logical_minimum || ltb_ℤ u.logical_maximum sum)

-- The first loop, over the relative usages of the report.
unfoldable pub all_in_range : List UsageDef → List ℕ → List ℕ → Bool
all_in_range [] prev_report report = true
all_in_range (u ∷ us) prev_report report =
    if u.is_relative
    then if in_range prev_report report u then all_in_range us prev_report report else false
    else all_in_range us prev_report report

unfoldable pub add_field : UsageDef → List ℕ → List ℕ → List ℕ
add_field u prev_report report =
    if eq_ℤ (field_of report u) (pos 0)
    then prev_report
    else put_bits prev_report u.bitpos u.size (uint32 (field_of report u +ℤ field_of prev_report u))

-- The second loop.
unfoldable pub add_fields : List UsageDef → List ℕ → List ℕ → List ℕ
add_fields [] prev_report report = prev_report
add_fields (u ∷ us) prev_report report =
    if u.is_relative
    then add_fields us (add_field u prev_report report) report
    else add_fields us prev_report report

-- The answer, and the earlier report as it is then.
unfoldable pub aggregate_relative : List UsageDef → List ℕ → List ℕ → Bool × List ℕ
aggregate_relative usages prev_report report =
    if all_in_range usages prev_report report
    then (true, add_fields usages prev_report report)
    else (false, prev_report)
