-- ===== src/HostUtils.antt =====
-- `hid_report_descriptor_has_input` of hid_host_utils.h: whether a report descriptor has an Input
-- item, on the bytes from `offset` on.
use usb_hid_wireless_bridge.Base.{
  ℕ, zero, suc, ◌*◌, ◌/◌, ◌%◌, Bool, true, false, Option, none, some, List, [], ◌∷◌, length, drop,
  ltb, ◌==◌, if◌then◌else◌,
}
pub mod Items
pub mod Tests

-- `prefix & 0x03`, where 3 means 4
abbrev pub item_size : ℕ → ℕ
item_size prefix = if prefix % 4 == 3 then 4 else prefix % 4

-- `(prefix & 0xFC) == 0x80`
abbrev pub is_main_input : ℕ → Bool
is_main_input prefix = prefix / 4 * 4 == 0x80

-- A long item, at its size and tag bytes: the bytes behind it, if it ends within the descriptor.
abbrev pub skip_long : List ℕ → Option (List ℕ)
skip_long [] = none
skip_long (size ∷ []) = none
skip_long (size ∷ tag ∷ rest) = if ltb (length rest) size then none else some (drop size rest)

-- The loop, at most `fuel` rounds of it.
unfoldable pub has_input_from : ℕ → List ℕ → Bool
has_input_from fuel [] = false
has_input_from zero (prefix ∷ rest) = false
has_input_from (suc fuel) (prefix ∷ rest) =
    let behind_long = continue_at (has_input_from fuel) (skip_long rest) in
    let behind_short = has_input_from fuel (drop (item_size prefix) rest) in
    if prefix == 0xfe
    then behind_long
    else if ltb (length rest) (item_size prefix)
    then false
    else if is_main_input prefix
    then true
    else behind_short
  where
    continue_at : (List ℕ → Bool) → Option (List ℕ) → Bool
    continue_at f none = false
    continue_at f (some bs) = f bs

-- Each round takes a byte at least.
unfoldable pub hid_report_descriptor_has_input : List ℕ → Bool
hid_report_descriptor_has_input descriptor = has_input_from (length descriptor) descriptor
