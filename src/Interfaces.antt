-- ===== src/Interfaces.antt =====
-- The index of 0 to 31 that each interface of a device gets, descriptor_parser.cc: the bits of
-- input_state[] that stand for buttons are kept by interface.
use usb_hid_wireless_bridge.Base.{
  ℕ, zero, suc, ◌+◌, ◌-◌, ◌/◌, ◌^◌, Bool, Option, none, some, List, [], ◌∷◌, bit_and, bit_or, ◌==◌,
  if◌then◌else◌,
}
pub mod InUse
pub mod Indices
pub mod Tests

-- `interface_index` and `interface_index_in_use`.
pub record Interfaces : Type 0 where
  pub index : List (ℕ × ℕ)
  pub in_use : ℕ

unfoldable pub find_index : ℕ → List (ℕ × ℕ) → Option ℕ
find_index interface [] = none
find_index interface (e ∷ es) = if e.0 == interface then some e.1 else find_index interface es

-- `while (i < 31 && ((1 << i) & interface_index_in_use)) i++;`, with `n` indices left to 31.
unfoldable pub first_free : ℕ → ℕ → ℕ → ℕ
first_free in_use zero i = i
first_free in_use (suc n) i =
    let next = first_free in_use n (i + 1) in if bit_and (2 ^ i) in_use == 0 then i else next

abbrev pub add_index : ℕ → ℕ → Interfaces → Interfaces
add_index interface i s = record {
  index = (interface, i) ∷ s.index;
  in_use = bit_or s.in_use (2 ^ i);
}

abbrev pub assign_unless : Option ℕ → ℕ → Interfaces → Interfaces
assign_unless (some i) interface s = s
assign_unless none interface s = add_index interface (first_free s.in_use 31 0) s

unfoldable pub assign_interface_index : ℕ → Interfaces → Interfaces
assign_interface_index interface s = assign_unless (find_index interface s.index) interface s

unfoldable pub erase : ℕ → List (ℕ × ℕ) → List (ℕ × ℕ)
erase interface [] = []
erase interface (e ∷ es) = if e.0 == interface then erase interface es else e ∷ erase interface es

-- `interface_index[dev_addr_interface]`, which is 0 for an interface without an index.
abbrev pub index_or_zero : Option ℕ → ℕ
index_or_zero none = 0
index_or_zero (some i) = i

-- An interface in `clear_descriptor_data`.
unfoldable pub release_interface_index : ℕ → Interfaces → Interfaces
release_interface_index interface s = record {
  index = erase interface s.index;
  in_use = bit_and s.in_use (2 ^ 32 - 1 - 2 ^ index_or_zero (find_index interface s.index));
}

-- The loop over `their_usages`, whose interfaces are `interfaces`.
unfoldable pub clear_indices : ℕ → List ℕ → Interfaces → Interfaces
clear_indices dev_addr [] s = s
clear_indices dev_addr (interface ∷ interfaces) s =
    let gone = clear_indices dev_addr interfaces (release_interface_index interface s) in
    let kept = clear_indices dev_addr interfaces s in
    if interface / 2 ^ 8 == dev_addr then gone else kept
