-- ===== src/HostUtils/Tests.antt =====
-- A mouse's descriptor in short, with a long item that holds the byte of an Input item.
use usb_hid_wireless_bridge.Base.{◌≡◌, List, [], ◌∷◌, arith}
use usb_hid_wireless_bridge.HostUtils.Items.{
  Item, short, long, AreItems, print_items, any_input, has_input-print_items,
}
use usb_hid_wireless_bridge.HostUtils.{hid_report_descriptor_has_input}

abbrev mouse : List Item
mouse = short 1 (1 ∷ []) ∷ long 9 (0x81 ∷ 2 ∷ []) ∷ short 32 (2 ∷ []) ∷ short 48 [] ∷ []

mouse-AreItems : AreItems mouse
mouse-AreItems = ground arith

has_input-print_items_example :
    hid_report_descriptor_has_input (print_items mouse) ≡ any_input mouse
has_input-print_items_example = has_input-print_items mouse mouse-AreItems
