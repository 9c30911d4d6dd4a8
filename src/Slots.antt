-- ===== src/Slots.antt =====
-- firmware/hid-remapper/firmware/src/remapper.cc: the table that gives each input usage a slot of
-- input_state[], with `assign_state_slot`, `get_state_ptr` and the writers of the slots.
-- A pointer into input_state[] is the index of its slot; the previous frame's values stand
-- `prev_state_offset` further on.
pub mod Table
mod Tests
use usb_hid_wireless_bridge.Base.{
  update, ℕ, ◌+◌, ◌*◌, ◌%◌, ◌^◌, Bool, true, false, List, [], ◌∷◌, Option, none, some, ltb, ◌==◌,
  if◌then◌else◌,
}
use usb_hid_wireless_bridge.Base.Int.{ℤ}

abbrev pub max_input_states : ℕ
max_input_states = 1024

abbrev pub prev_state_offset : ℕ
prev_state_offset = max_input_states

-- `usage_state_ptr` (an association list, the newest entry first), `used_state_slots`, and the
-- flag that asks the main loop for `update_their_descriptor_derivates`.
pub record Slots : Type 0 where
  pub usage_state_ptr : List (ℕ × ℕ)
  pub used_state_slots : ℕ
  pub their_descriptor_updated : Bool

-- `(raw ? 1 << 40 : 0) | (hub_port << 32) | usage`: the three parts share no bit, since `usage`
-- is a uint32_t and `hub_port` a uint8_t.
abbrev pub state_key : ℕ → ℕ → Bool → ℕ
state_key usage hub_port raw = (if raw then 2 ^ 40 else 0) + hub_port * 2 ^ 32 + usage

abbrev pub find : ℕ → List (ℕ × ℕ) → Option ℕ
find k [] = none
find k ((j, v) ∷ m) = if j == k then some v else find k m

abbrev pub assign_at : Option ℕ → ℕ → Slots → Bool × Slots
assign_at (some slot) key s = (true, s)
assign_at none key s =
    if ltb s.used_state_slots max_input_states
    then (
      true,
      record s {
        usage_state_ptr = (key, s.used_state_slots) ∷ s.usage_state_ptr;
        used_state_slots = s.used_state_slots + 1;
      },
    )
    else (false, s)

unfoldable pub assign_state_slot : ℕ → ℕ → Bool → Slots → Bool × Slots
assign_state_slot usage hub_port raw s =
    let key = state_key usage hub_port raw in assign_at (find key s.usage_state_ptr) key s

-- `get_state_ptr` on a missing key: assign a slot if asked to, and ask for the derivates.
abbrev pub get_absent : Bool → ℕ → Bool × Slots → Slots → Option ℕ × Slots
get_absent false key assigned s = (none, s)
get_absent true key (false, s') s = (none, s')
get_absent true key (true, s') s =
    (find key s'.usage_state_ptr, record s' { their_descriptor_updated = true })

abbrev pub get_at : Option ℕ → Bool → ℕ → Bool × Slots → Slots → Option ℕ × Slots
get_at (some slot) assign key assigned s = (some slot, s)
get_at none assign key assigned s = get_absent assign key assigned s

unfoldable pub get_state_ptr : ℕ → ℕ → Bool → Bool → Slots → Option ℕ × Slots
unfolding assign_state_slot
get_state_ptr usage hub_port assign_if_absent raw s =
    let key = state_key usage hub_port raw in
    get_at (find key s.usage_state_ptr) assign_if_absent key
      (assign_state_slot usage hub_port raw s) s

abbrev pub write_slot : Option ℕ → ℤ → (ℕ → ℤ) → ℕ → ℤ
write_slot none v input_state = input_state
write_slot (some slot) v input_state = update input_state slot v

-- `set_input_state`: the raw and the scaled slot of a usage, where they exist.
unfoldable pub set_input_state : ℕ → ℤ → ℤ → ℕ → Slots → (ℕ → ℤ) → ℕ → ℤ
set_input_state usage state_raw state_scaled hub_port s input_state =
    write_slot (find (state_key usage hub_port false) s.usage_state_ptr) state_scaled
      (write_slot (find (state_key usage hub_port true) s.usage_state_ptr) state_raw input_state)
