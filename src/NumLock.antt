-- ===== src/NumLock.antt =====
-- firmware/hid-remapper/firmware/src/remapper.cc, the NumLock synchronisation filter
-- (num_lock_sync_filter_t and the functions over it), as built with WBT2_BOOT_INTERFACES and
-- without STABLE_NUM_LOCK_INFERENCE. A receiver wraps each keypad key in two NumLock taps; the
-- filter withholds a tap until it knows whether it belongs to such a wrapper.
pub mod Pending
pub mod Frame
pub mod Invariant
pub mod Wrapper
pub mod Runs
mod Tests
use usb_hid_wireless_bridge.Base.{
  ℕ, ◌+◌, ◌%◌, ◌^◌, Bool, true, false, not, ◌&&◌, ◌||◌, List, [], ◌∷◌, ltb, ◌==◌, if◌then◌else◌,
}
use Pending.{enqueue}

pub data Stage : Type 0 where
  idle first_down wait_keypad keypad_active wait_trailing_down : Stage
  trailing_down passthrough_down : Stage

-- The two maps from report id to state are association lists.
pub record Filter : Type 0 where
  pub stage : Stage
  pub num_lock_by_report : List (ℕ × Bool)
  pub keypad_by_report : List (ℕ × Bool)
  pub pending_output_states : List Bool
  pub previous_num_lock : Bool
  pub previous_keypad : Bool
  pub output_num_lock : Bool
  pub has_num_lock_usage : Bool
  pub inferred_num_lock_state : Bool
  pub inferred_num_lock_valid : Bool
  pub inferred_num_lock_timestamp : ℕ
  pub deadline : ℕ

abbrev pub edge_us : ℕ
edge_us = 20000

-- `now + NUM_LOCK_SYNC_EDGE_US` in uint64_t
abbrev pub edge_after : ℕ → ℕ
edge_after now = (now + edge_us) % 2 ^ 64

abbrev pub set_inferred_num_lock_state : Filter → Bool → ℕ → Filter
set_inferred_num_lock_state f state timestamp = record f {
  inferred_num_lock_state = state;
  inferred_num_lock_valid = true;
  inferred_num_lock_timestamp = timestamp;
}

abbrev pub toggle_inferred_num_lock_state : Filter → ℕ → Filter
toggle_inferred_num_lock_state f timestamp =
    set_inferred_num_lock_state f
      (if f.inferred_num_lock_valid then not f.inferred_num_lock_state else true) timestamp

abbrev pub queue_num_lock_state : Filter → Bool → Filter
queue_num_lock_state f state = record f {
  pending_output_states = enqueue f.output_num_lock f.pending_output_states state;
}

abbrev pub replay_first_num_lock_tap : Filter → Filter
replay_first_num_lock_tap f = queue_num_lock_state (queue_num_lock_state f true) false

-- The switch of `advance_num_lock_sync_timeout`, for a deadline that has passed.
abbrev pub expire : Stage → Filter → ℕ → Filter
expire first_down f now = record (queue_num_lock_state f true) { stage = passthrough_down }
expire wait_keypad f now =
    record (toggle_inferred_num_lock_state (replay_first_num_lock_tap f) now) { stage = idle }
expire wait_trailing_down f now =
    record (toggle_inferred_num_lock_state (replay_first_num_lock_tap f) now) { stage = idle }
expire trailing_down f now = record (queue_num_lock_state (replay_first_num_lock_tap f) true) {
  stage = passthrough_down;
}
expire _ f now = f

unfoldable pub advance_num_lock_sync_timeout : Filter → ℕ → Filter
advance_num_lock_sync_timeout f now =
    if f.deadline == 0 || ltb now f.deadline
    then f
    else record (expire f.stage f now) { deadline = 0 }

-- What one report says: `num_lock` and `keypad` down or not, and the edges against the last one.
pub record Edges : Type 0 where
  pub keypad : Bool
  pub num_lock_down : Bool
  pub num_lock_up : Bool
  pub keypad_down : Bool
  pub keypad_up : Bool

abbrev pub edges : Filter → Bool → Bool → Edges
edges f num_lock keypad = record {
  keypad = keypad;
  num_lock_down = num_lock && not f.previous_num_lock;
  num_lock_up = not num_lock && f.previous_num_lock;
  keypad_down = keypad && not f.previous_keypad;
  keypad_up = not keypad && f.previous_keypad;
}

-- The withheld first tap, then the press that is still held, both go to the host.
abbrev pub replay_and_hold : Filter → Filter
replay_and_hold f = record (queue_num_lock_state (replay_first_num_lock_tap f) true) {
  stage = passthrough_down;
}

-- The switch of `observe_num_lock_sync_state`.
abbrev pub observe_in : Stage → Filter → Edges → ℕ → Filter
observe_in idle f e now =
    if e.num_lock_down
    then record f { stage = first_down; deadline = edge_after now }
    else if e.keypad_down
    then set_inferred_num_lock_state f false now
    else f
observe_in first_down f e now =
    if e.num_lock_up
    then record f {
      stage = if e.keypad then keypad_active else wait_keypad;
      deadline = if e.keypad then 0 else edge_after now;
    }
    else if e.keypad_down
    then record (queue_num_lock_state f true) { stage = passthrough_down; deadline = 0 }
    else f
observe_in wait_keypad f e now =
    if e.keypad_down
    then record f { stage = keypad_active; deadline = 0 }
    else if e.num_lock_down
    then record (replay_and_hold f) { deadline = 0 }
    else f
observe_in keypad_active f e now =
    if e.num_lock_down
    then replay_and_hold f
    else if e.keypad_up
    then record f { stage = wait_trailing_down; deadline = edge_after now }
    else f
observe_in wait_trailing_down f e now =
    if e.num_lock_down
    then record f { stage = trailing_down; deadline = edge_after now }
    else if e.keypad_down
    then record f { stage = keypad_active; deadline = 0 }
    else f
observe_in trailing_down f e now =
    if e.num_lock_up
    then record (set_inferred_num_lock_state f true now) { stage = idle; deadline = 0 }
    else f
observe_in passthrough_down f e now =
    if e.num_lock_up then record (queue_num_lock_state f false) { stage = idle } else f

-- The state behind the switch, with the two inputs remembered.
abbrev pub remember : Filter → Bool → Bool → Filter
remember f num_lock keypad = record f { previous_num_lock = num_lock; previous_keypad = keypad }

-- `observe_num_lock_sync_state` behind its call of `advance_num_lock_sync_timeout`.
unfoldable pub observe_advanced : Filter → Bool → Bool → ℕ → Filter
observe_advanced f num_lock keypad now =
    remember (observe_in f.stage f (edges f num_lock keypad) now) num_lock keypad

unfoldable pub observe_num_lock_sync_state : Filter → Bool → Bool → ℕ → Filter
unfolding advance_num_lock_sync_timeout observe_advanced
observe_num_lock_sync_state f num_lock keypad now =
    observe_advanced (advance_num_lock_sync_timeout f now) num_lock keypad now
