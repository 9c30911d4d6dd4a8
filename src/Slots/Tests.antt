-- ===== src/Slots/Tests.antt =====
-- The slot table on concrete usages.
use usb_hid_wireless_bridge.Base.{
  ℕ, ◌+◌, ◌*◌, ◌<◌, ◌≡◌, refl, true, false, [], ◌∷◌, none, some, arith,
}
use usb_hid_wireless_bridge.Slots.Table.{assign_slot, get_ptr, run_calls, slots_separate}
use usb_hid_wireless_bridge.Slots.{
  Slots, max_input_states, prev_state_offset, state_key, find, assign_state_slot, get_state_ptr,
}

abbrev empty : Slots
empty = record { usage_state_ptr = []; used_state_slots = 0; their_descriptor_updated = false }

-- Num Lock on any port, mapped, and the same usage on port 3.
abbrev two : Slots
two = (assign_state_slot 0x70053 3 false (assign_state_slot 0x70053 0 false empty).1).1

two_slots :
    (find (state_key 0x70053 0 false) two.usage_state_ptr ≡ some 0)
    × (find (state_key 0x70053 3 false) two.usage_state_ptr ≡ some 1)
    × (find (state_key 0x70053 3 true) two.usage_state_ptr ≡ none)
unfolding assign_state_slot
two_slots = (refl, refl, refl)

slots_separate_example :
    (1 + prev_state_offset < 2 * max_input_states)
    × (◌≡◌ {A = ℕ} 0x70053 0x70053)
    × (◌≡◌ {A = ℕ} 3 3)
    × (false ≡ false)
unfolding assign_state_slot get_state_ptr run_calls
slots_separate_example =
    slots_separate (assign_slot 0x70053 0 false ∷ get_ptr 0x70053 3 true false ∷ []) false
      {u = 0x70053} {p = 3} {v = 0x70053} {q = 3} {a = false} {b = false} 1 (omega arith)
      (omega arith) (omega arith) (omega arith) refl refl
