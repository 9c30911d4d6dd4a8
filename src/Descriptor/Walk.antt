-- ===== src/Descriptor/Walk.antt =====
-- The loop of `parse_descriptor` over the items of a descriptor. `descriptor` is the memory from the
-- start of the descriptor on, since an item at its end is read beyond `len`.
use usb_hid_wireless_bridge.Base.{
  ℕ, zero, suc, ◌+◌, ◌-◌, ◌*◌, ◌/◌, ◌%◌, ◌^◌, Bool, true, false, ◌&&◌, ◌||◌, List, [], ◌∷◌, ◌++◌,
  Option, none, some, bit_and, bit_or, ltb, leb, ◌==◌, if◌then◌else◌,
}
use usb_hid_wireless_bridge.Base.Int.{ℤ, pos, signed32}
use usb_hid_wireless_bridge.Descriptor.{Entry, ReportType, input, output, feature, Parser}
use usb_hid_wireless_bridge.Descriptor.Main.{forget_usages, never_ends, main_item}
pub mod Ends

abbrev pub data_size : ℕ → ℕ
data_size prefix = if prefix % 4 == 3 then 4 else prefix % 4

-- `value |= report_descriptor[idx++] << (i * 8)`, for the `n` bytes from `idx` on.
unfoldable pub item_value : (ℕ → ℕ) → ℕ → ℕ → ℕ
item_value descriptor idx zero = 0
item_value descriptor idx (suc i) =
    bit_or (item_value descriptor idx i) (descriptor (idx + i) * 2 ^ (8 * i))

-- `item_size <= 2 ? usage_page << 16 | value : value`
abbrev pub full_usage : ℕ → ℕ → ℕ → ℕ
full_usage usage_page size value =
    if leb size 2 then bit_or (usage_page * 2 ^ 16 % 2 ^ 32) value else value

-- The sign of a Logical Minimum or Maximum of one or two bytes; without data the value is 0, and with
-- four bytes it has its sign already.
unfoldable pub with_sign : ℕ → ℕ → ℤ
with_sign size value =
    if (size == 1) || (size == 2)
    then if bit_and value (2 ^ (size * 8 - 1)) == 0
      then signed32 value
      else signed32 (bit_or value (2 ^ 32 - 2 ^ (size * 8)))
    else signed32 value

-- The `switch` on the item's type and tag.
unfoldable pub do_item : ℕ → ℕ → ℕ → Parser → Parser
do_item item size value s =
    if item == 0x80
    then main_item input value s
    else if item == 0x90
    then main_item output value s
    else if item == 0xb0
    then main_item feature value s
    else if item == 0xa0
    then forget_usages s
    else if item == 0x04
    then record s { usage_page = value }
    else if item == 0x74
    then record s { report_size = value }
    else if item == 0x84
    then record s { report_id = value % 2 ^ 8; has_report_id = true }
    else if item == 0x94
    then record s { report_count = value }
    else if item == 0x08
    then record s { usages = s.usages ++ (full_usage s.usage_page size value ∷ []) }
    else if item == 0x18
    then record s { usage_minimum = full_usage s.usage_page size value; has_usage_minimum = true }
    else if item == 0x28
    then record s { usage_maximum = full_usage s.usage_page size value; has_usage_maximum = true }
    else if item == 0x14
    then record s { logical_minimum = with_sign size value }
    else if item == 0x24
    then record s {
      logical_maximum = with_sign size value;
      unsigned_logical_maximum = signed32 value;
    }
    else s

-- An item whose loop over the values of an array never ends.
abbrev pub stuck_item : ℕ → ℕ → Parser → Bool
stuck_item item value s =
    if item == 0x80
    then never_ends input value s
    else if item == 0x90
    then never_ends output value s
    else if item == 0xb0
    then never_ends feature value s
    else false

abbrev pub initial : List Entry → Bool → Parser
initial usage_map has_report_id = record {
  report_id = 0;
  bitpos = λ t id. 0;
  report_size = 0;
  report_count = 0;
  usage_page = 0;
  usages = [];
  usage_minimum = 0;
  usage_maximum = 0;
  has_usage_minimum = false;
  has_usage_maximum = false;
  logical_minimum = pos 0;
  logical_maximum = pos 0;
  unsigned_logical_maximum = pos 0;
  has_report_id = has_report_id;
  usage_map = usage_map;
}

module _ (descriptor : ℕ → ℕ) where
  -- `item = report_descriptor[idx] & 0xFC`, its data, and what they do.
  unfoldable pub parse_item : ℕ → Parser → Parser
  parse_item idx s =
      let size = data_size (descriptor idx) in
      do_item (descriptor idx / 4 * 4) size (item_value descriptor (idx + 1) size) s

  abbrev pub next_item : ℕ → ℕ
  next_item idx = idx + 1 + data_size (descriptor idx)

  abbrev pub stuck_at : ℕ → Parser → Bool
  stuck_at idx s =
      stuck_item (descriptor idx / 4 * 4)
        (item_value descriptor (idx + 1) (data_size (descriptor idx))) s

  -- At most `fuel` rounds of the loop; nothing if they are not enough. A last byte of 0 is not passed
  -- over: `continue` leaves `idx` as it is. An item that never ends is not passed over either.
  unfoldable pub parse_items : ℕ → ℕ → ℕ → Parser → Option Parser
  parse_items zero len idx s = none
  parse_items (suc fuel) len idx s =
      let stay = parse_items fuel len idx s in
      let next = parse_items fuel len (next_item idx) (parse_item idx s) in
      if ltb idx len
      then if ((descriptor idx == 0) && (idx == len - 1)) || stuck_at idx s then stay else next
      else some s

-- The final bit positions become sizes in bytes.
abbrev pub report_bytes : Parser → ReportType → ℕ → ℕ
report_bytes s report_type report_id = s.bitpos report_type report_id / 8

-- `parse_descriptor`, for a descriptor of `len` bytes. Each round passes a byte at least, so that
-- `len + 1` rounds are enough if the loop ends at all.
unfoldable pub parse_descriptor : (ℕ → ℕ) → ℕ → List Entry → Bool → Option Parser
parse_descriptor descriptor len usage_map has_report_id =
    parse_items descriptor (len + 1) len 0 (initial usage_map has_report_id)
