-- ===== src/TapHold.antt =====
-- Tap and hold of one key at the start of each frame of `process_mapping`, remapper.cc: the state of
-- the key in this frame and the one before (`PREV_STATE_OFFSET`) decide when it is tapped and held.
-- The key is one of a device: its slot is the same from the start of a frame to the copy of the slots
-- into those of the frame before. The slots of expressions and registers are written in between, and
-- the model is not one of their usages.
use usb_hid_wireless_bridge.Base.{
  ℕ, ◌+◌, ◌-◌, ◌%◌, ◌^◌, Bool, true, false, ◌&&◌, not, List, [], ◌∷◌, ltb, leb, if◌then◌else◌,
}
use usb_hid_wireless_bridge.Base.Int.{ℤ, pos, eq_ℤ}
pub mod Press
pub mod Tests

-- `tap_hold_usage_t` with its `tap_hold_state_t`, and the key's state in the frame before.
pub record Key : Type 0 where
  pub pressed_at : ℕ
  pub tap : Bool
  pub hold : Bool
  pub prev_hold : Bool
  pub prev_input : ℤ

-- A frame: its time and the key's state in it.
pub record Frame : Type 0 where
  pub now : ℕ
  pub input : ℤ

abbrev pub is_down : ℤ → Bool
is_down input = not (eq_ℤ input (pos 0))

abbrev pub pressed_since : Frame → Key → ℕ
pressed_since f k = if is_down f.input && not (is_down k.prev_input) then f.now else k.pressed_at

-- `now - tap_hold.pressed_at`, of a uint64_t
abbrev pub time_down : Frame → Key → ℕ
time_down f k = (f.now + 2 ^ 64 - pressed_since f k) % 2 ^ 64

-- The round of the first loop for this key, and the copy of the state at the end of the frame.
unfoldable pub update_tap_hold : ℕ → Frame → Key → Key
update_tap_hold tap_hold_threshold f k = record {
  pressed_at = pressed_since f k;
  tap = (not (is_down f.input) && is_down k.prev_input) && ltb (time_down f k) tap_hold_threshold;
  prev_hold = k.hold;
  hold = is_down f.input && leb tap_hold_threshold (time_down f k);
  prev_input = f.input;
}

-- What each frame of a sequence makes of the key: tapped, and held.
unfoldable pub tap_hold_frames : ℕ → List Frame → Key → List (Bool × Bool)
tap_hold_frames threshold [] k = []
tap_hold_frames threshold (f ∷ fs) k =
    let next = update_tap_hold threshold f k in
    (next.tap, next.hold) ∷ tap_hold_frames threshold fs next
