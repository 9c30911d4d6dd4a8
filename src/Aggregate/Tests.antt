-- ===== src/Aggregate/Tests.antt =====
-- The report of a mouse with three buttons, added to one that waits.
use usb_hid_wireless_bridge.Base.{
  ℕ, true, false, List, [], ◌∷◌, length, ◌≡◌, ◌≤◌, refl, inl, inr, arith,
}
use usb_hid_wireless_bridge.Base.Int.{pos, negsuc, ◌+ℤ◌, uint32}
use usb_hid_wireless_bridge.Bits.Fields.{IsBytes, all_bytes-IsBytes}
use usb_hid_wireless_bridge.Bits.{
  get_bit, get_bits, put_into, put_bit, put_bits, sign_extend_hid_value,
}
use usb_hid_wireless_bridge.Base.Each.{Each, none_left, and_then}
use usb_hid_wireless_bridge.Usages.{UsageDef}
use usb_hid_wireless_bridge.Aggregate.{
  field_of, all_in_range, add_field, add_fields, aggregate_relative,
}
use usb_hid_wireless_bridge.Aggregate.Field.{Separate, no_fields, apart_from, Proper}
use usb_hid_wireless_bridge.Aggregate.Sums.{Sum, aggregate_sums}

abbrev pub axis : ℕ → UsageDef
axis bitpos = record {
  report_id = 1;
  size = 8;
  bitpos = bitpos;
  is_relative = true;
  is_array = false;
  logical_minimum = negsuc 126;
  logical_maximum = pos 127;
  index = 0;
  count = 0;
  usage_maximum = 0;
  index_mask = 0;
}

abbrev pub buttons : UsageDef
buttons = record (axis 0) {
  size = 3;
  is_relative = false;
  logical_minimum = pos 0;
  logical_maximum = pos 1;
}

abbrev pub usages : List UsageDef
usages = buttons ∷ axis 8 ∷ axis 16 ∷ []

abbrev pub waiting : List ℕ
waiting = 1 ∷ 100 ∷ 250 ∷ []

abbrev pub moved : List ℕ
moved = 1 ∷ 20 ∷ 5 ∷ []

test_added : aggregate_relative usages waiting moved ≡ (true, 1 ∷ 120 ∷ 255 ∷ [])
unfolding aggregate_relative all_in_range add_fields add_field field_of get_bits get_bit put_bits
    put_bit put_into sign_extend_hid_value ◌+ℤ◌ uint32
test_added = refl

test_refused : aggregate_relative usages waiting waiting ≡ (false, waiting)
unfolding aggregate_relative all_in_range add_fields add_field field_of get_bits get_bit put_bits
    put_bit put_into sign_extend_hid_value ◌+ℤ◌
test_refused = refl

pub waiting-IsBytes : IsBytes waiting
waiting-IsBytes = all_bytes-IsBytes waiting refl

axis-Proper : (bitpos : ℕ) → bitpos ≤ 16 → Proper 3 (axis bitpos)
axis-Proper bitpos h = record {
  inside = omega arith;
  addressed = omega arith;
  some_bits = omega arith;
  few_bits = omega arith;
  signed_least = λ e. omega arith;
  signed_greatest = λ e. omega arith;
  unsigned_greatest = λ e. ground arith;
}

pub usages-Proper : Each (Proper (length waiting)) usages
usages-Proper =
    and_then
      record {
        inside = omega arith;
        addressed = omega arith;
        some_bits = omega arith;
        few_bits = omega arith;
        signed_least = λ e. ground arith;
        signed_greatest = λ e. ground arith;
        unsigned_greatest = λ e. omega arith;
      }
      (and_then (axis-Proper 8 (omega arith)) (and_then (axis-Proper 16 (omega arith)) none_left))

pub usages-Separate : Separate usages
usages-Separate =
    apart_from (and_then (λ e. inl (omega arith)) (and_then (λ e. inl (omega arith)) none_left))
      (and_then (λ e. inr (omega arith)) (and_then (λ e. inr (omega arith)) none_left))
      (apart_from (and_then (λ e. inl (omega arith)) none_left)
        (and_then (λ e. inr (omega arith)) none_left) (apart_from none_left none_left no_fields))

aggregate_sums_example :
    let result = aggregate_relative usages waiting moved in
    Each (Sum result.0 waiting moved result.1) usages
aggregate_sums_example =
    aggregate_sums usages waiting moved waiting-IsBytes usages-Proper usages-Separate
