-- ===== src/Interfaces/Tests.antt =====
-- Three interfaces of two devices, of which one goes away.
use usb_hid_wireless_bridge.Base.{[], ◌∷◌, some, ◌≡◌, refl}
use usb_hid_wireless_bridge.Interfaces.{
  Interfaces, find_index, first_free, assign_interface_index, erase, release_interface_index,
  clear_indices,
}
use usb_hid_wireless_bridge.Interfaces.InUse.{IsValid}
use usb_hid_wireless_bridge.Interfaces.Indices.{none_yet, assigned, released, interfaces-IsValid}

abbrev nothing : Interfaces
nothing = record { index = []; in_use = 0 }

abbrev two : Interfaces
two = assign_interface_index 0x201 (assign_interface_index 0x100 nothing)

test_reused :
    assign_interface_index 0x300 (clear_indices 1 (0x100 ∷ 0x201 ∷ []) two)
    ≡ record { index = (0x300, 0) ∷ (0x201, 1) ∷ []; in_use = 3 }
unfolding clear_indices assign_interface_index release_interface_index first_free find_index erase
test_reused = refl

found : find_index 0x100 two.index ≡ some 0
unfolding assign_interface_index first_free find_index
found = refl

interfaces-IsValid_example : IsValid (release_interface_index 0x100 two)
interfaces-IsValid_example =
    interfaces-IsValid (release_interface_index 0x100 two)
      (released 0x100 0 found (assigned 0x201 (assigned 0x100 none_yet)))
