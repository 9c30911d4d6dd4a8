-- ===== src/Descriptor/Tests.antt =====
-- The descriptor of a mouse with 16-bit axes, the one of tools/descriptor-parser-g700s-test.cc, and
-- one that ends in a byte of 0.
use usb_hid_wireless_bridge.Base.{
  ℕ, ◌+◌, ◌*◌, true, false, List, [], ◌∷◌, get_or, ltb, if◌then◌else◌, Option, none, some, ◌≡◌,
  refl, arith,
}
use usb_hid_wireless_bridge.Base.Int.{pos, negsuc}
use usb_hid_wireless_bridge.Usages.{UsageDef}
use usb_hid_wireless_bridge.Descriptor.{
  input, Parser, mark_usage, find_usage, advance, mark_scalar, mark_range, mark_list, mark_array,
}
use usb_hid_wireless_bridge.Descriptor.Main.{
  scalars, array, malformed_one_bit_array, never_ends, add_fields_of, main_item,
}
use usb_hid_wireless_bridge.Descriptor.Walk.{
  item_value, with_sign, do_item, parse_item, parse_items, parse_descriptor, report_bytes, initial,
}
use usb_hid_wireless_bridge.Descriptor.Walk.Ends.{
  at_item, over_item, trailing_zero_hangs, Ended, no_endless_maximum, parse_items-Ended, Agree,
  parse_items-Agree,
}
use usb_hid_wireless_bridge.Descriptor.Positions.{moved, bitpos-main_item}
use usb_hid_wireless_bridge.Descriptor.Marks.{find_usage-main_item, scalar_at}

abbrev mouse : List ℕ
mouse =
    0x05 ∷ 0x01 ∷ 0x09 ∷ 0x02 ∷ 0xa1 ∷ 0x01 ∷ 0x09 ∷ 0x01 ∷ 0xa1 ∷ 0x00 ∷ 0x05 ∷ 0x09 ∷ 0x19 ∷ 0x01
    ∷ 0x29 ∷ 0x10 ∷ 0x15 ∷ 0x00 ∷ 0x25 ∷ 0x01 ∷ 0x75 ∷ 0x01 ∷ 0x95 ∷ 0x10 ∷ 0x81 ∷ 0x02 ∷ 0x05
    ∷ 0x01 ∷ 0x16 ∷ 0x01 ∷ 0x80 ∷ 0x26 ∷ 0xff ∷ 0x7f ∷ 0x75 ∷ 0x10 ∷ 0x95 ∷ 0x02 ∷ 0x09 ∷ 0x30
    ∷ 0x09 ∷ 0x31 ∷ 0x81 ∷ 0x06 ∷ 0x15 ∷ 0x81 ∷ 0x25 ∷ 0x7f ∷ 0x75 ∷ 0x08 ∷ 0x95 ∷ 0x01 ∷ 0x09
    ∷ 0x38 ∷ 0x81 ∷ 0x06 ∷ 0x05 ∷ 0x0c ∷ 0x0a ∷ 0x38 ∷ 0x02 ∷ 0x95 ∷ 0x01 ∷ 0x81 ∷ 0x06 ∷ 0xc0
    ∷ 0xc0 ∷ []

abbrev memory : List ℕ → ℕ → ℕ
memory bytes i = get_or bytes i 0xff

abbrev bytes_found : Option Parser → ℕ
bytes_found none = 0
bytes_found (some s) = report_bytes s input 0

abbrev axis_found : Option Parser → ℕ → Option UsageDef
axis_found none u = none
axis_found (some s) u = find_usage input 0 u s.usage_map

test_size : bytes_found (parse_descriptor (memory mouse) 67 [] false) ≡ 8
unfolding parse_descriptor parse_items parse_item item_value with_sign do_item main_item
    add_fields_of malformed_one_bit_array never_ends scalars array mark_range mark_list mark_array
    mark_scalar mark_usage find_usage advance
test_size = refl

test_axis :
    axis_found (parse_descriptor (memory mouse) 67 [] false) 0x00010031
    ≡ some record {
      report_id = 0;
      size = 16;
      bitpos = 32;
      is_relative = true;
      is_array = false;
      logical_minimum = negsuc 32766;
      logical_maximum = pos 32767;
      index = 0;
      count = 0;
      usage_maximum = 0;
      index_mask = 0;
    }
unfolding parse_descriptor parse_items parse_item item_value with_sign do_item main_item
    add_fields_of malformed_one_bit_array never_ends scalars array mark_range mark_list mark_array
    mark_scalar mark_usage find_usage advance
test_axis = refl

abbrev start : Parser
start = initial [] false

-- Usage Page, and a byte of 0 behind it.
abbrev short : List ℕ
short = 0x05 ∷ 0x01 ∷ 0x00 ∷ []

trailing_zero_hangs_example : (parse_items (memory short) 1000 3 0 start ≡ none)
trailing_zero_hangs_example =
    trailing_zero_hangs (memory short) 3 0 start 1000 (over_item (omega arith) at_item)
      (omega arith) refl

parse_items-Ended_example : Ended (parse_items (memory mouse) 68 67 0 start)
parse_items-Ended_example =
    parse_items-Ended (memory mouse) 67 0 start 68 (λ e. ground arith)
      (unfold no_endless_maximum item_value in refl) refl (omega arith)

abbrev keyboard : Parser
keyboard = record start {
  report_id = 2;
  report_size = 1;
  report_count = 104;
  usage_minimum = 0x70000;
  usage_maximum = 0x70067;
  has_usage_minimum = true;
  has_usage_maximum = true;
  unsigned_logical_maximum = pos 1;
}

bitpos-main_item_example :
    (main_item input 0 keyboard).bitpos input 2 ≡ moved input (1 * 104) keyboard input 2
bitpos-main_item_example =
    bitpos-main_item input 0 keyboard input 2 (unfold never_ends malformed_one_bit_array in refl)
      (omega arith)

test_malformed : malformed_one_bit_array input 0 keyboard ≡ true
unfolding malformed_one_bit_array
test_malformed = refl

find_usage-main_item_example :
    find_usage input 2 (0x70000 + 5) (main_item input 0 keyboard).usage_map
    ≡ some (scalar_at input false keyboard (0 + 1 * 5))
unfolding find_usage malformed_one_bit_array
find_usage-main_item_example =
    find_usage-main_item input 0 5 keyboard refl refl (omega arith) (omega arith) (omega arith) refl

-- A memory that differs from the first behind the bytes that an item can reach.
abbrev elsewhere : ℕ → ℕ
elsewhere i = if ltb i 71 then memory mouse i else 0

elsewhere-Agree : Agree 71 (memory mouse) elsewhere
elsewhere-Agree k h = ground arith

parse_items-Agree_example :
    parse_items (memory mouse) 68 67 0 start ≡ parse_items elsewhere 68 67 0 start
parse_items-Agree_example = parse_items-Agree (memory mouse) elsewhere 68 67 0 start elsewhere-Agree

-- A Usage, a Logical Maximum of 2^31 - 1 and an Input: the loop over the values never ends.
abbrev endless : List ℕ
endless = 0x09 ∷ 0x01 ∷ 0x27 ∷ 0xff ∷ 0xff ∷ 0xff ∷ 0x7f ∷ 0x81 ∷ 0x00 ∷ 0xc0 ∷ []

test_endless : parse_items (memory endless) 50 10 0 start ≡ none
unfolding parse_items parse_item item_value with_sign do_item never_ends malformed_one_bit_array
test_endless = refl
