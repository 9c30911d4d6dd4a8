-- ===== src/Monitor.antt =====
-- The packet of monitored usages, `monitor_usage` of remapper.cc.
use usb_hid_wireless_bridge.Base.{
  ℕ, zero, suc, ◌+◌, ◌≤◌, ◌≡◌, Bool, true, false, ◌&&◌, ◌||◌, List, [], ◌∷◌, ◌++◌, length, Option,
  none, some, ltb, ◌==◌, if◌then◌else◌,
}
use usb_hid_wireless_bridge.Base.Int.{ℤ, ◌+ℤ◌, int32}
pub mod Packet
pub mod Send
pub mod Tests

pub record Item : Type 0 where
  pub usage : ℕ
  pub value : ℤ
  pub hub_port : ℕ

-- The items of the packet that is being filled; `monitor_usages_queued` is their number.
abbrev pub max_items : ℕ
max_items = 7

abbrev pub is_cursor : ℕ → Bool
is_cursor usage = (usage == 0x10030) || (usage == 0x10031)

abbrev pub is_item : ℕ → ℕ → Item → Bool
is_item usage hub_port i = (i.usage == usage) && (i.hub_port == hub_port)

abbrev pub behind : Item → Option (List Item) → Option (List Item)
behind i none = none
behind i (some items) = some (i ∷ items)

-- `item.value += value` at the first item of the usage and the port, if there is one.
unfoldable pub coalesce : ℕ → ℤ → ℕ → List Item → Option (List Item)
coalesce usage value hub_port [] = none
coalesce usage value hub_port (i ∷ items) =
    if is_item usage hub_port i
    then some (record i { value = int32 (i.value +ℤ value) } ∷ items)
    else behind i (coalesce usage value hub_port items)

abbrev pub append_item : ℕ → ℤ → ℕ → List Item → List Item
append_item usage value hub_port items =
    if length items == max_items
    then items
    else items ++ (record { usage = usage; value = value; hub_port = hub_port } ∷ [])

abbrev pub unless_coalesced : Option (List Item) → List Item → List Item
unless_coalesced none items = items
unless_coalesced (some items') items = items'

unfoldable pub monitor_usage : ℕ → ℤ → ℕ → List Item → List Item
monitor_usage usage value hub_port items =
    let appended = append_item usage value hub_port items in
    if is_cursor usage
    then unless_coalesced (coalesce usage value hub_port items) appended
    else appended
