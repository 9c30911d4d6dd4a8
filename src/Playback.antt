-- ===== src/Playback.antt =====
-- The macros in a frame of `process_mapping`, remapper.cc: the ones that are triggered are queued, and
-- the first entry of the queue is pressed. A key is what Layers makes of it.
pub mod Frames
pub mod Pressed
mod Tests
use usb_hid_wireless_bridge.Base.{
  ℕ, zero, suc, ◌+◌, ◌-◌, ◌*◌, ◌%◌, ◌^◌, Bool, true, false, ◌&&◌, ◌||◌, not, List, [], ◌∷◌, ◌++◌,
  map, Option, none, some, length, get_or, ltb, leb, ◌==◌, if◌then◌else◌, update, bit_and,
}
use usb_hid_wireless_bridge.Base.Int.{uint32}
use usb_hid_wireless_bridge.Bits.{get_bits, put_bits}
use usb_hid_wireless_bridge.Layers.{KeyState, overlaps, is_pressed, hold_begins}
use usb_hid_wireless_bridge.Usages.{UsageDef}

-- `macro_entry_t`
pub record MacroEntry : Type 0 where
  pub duration_left : ℕ
  pub items : List ℕ

-- A `map_source_t` of a mapping to a macro; the key stands for its two pointers.
pub record MacroSource : Type 0 where
  pub key : ℕ
  pub layer_mask : ℕ
  pub tap : Bool
  pub hold : Bool

-- An element of `reverse_mapping_macros`.
pub record MacroMapping : Type 0 where
  pub target : ℕ
  pub sources : List MacroSource

abbrev pub is_triggered : ℕ → MacroSource → KeyState → Bool
is_triggered layer_state_mask s k =
    overlaps layer_state_mask s.layer_mask
    && ((not s.tap && (not s.hold && is_pressed k))
        || ((s.hold && hold_begins k) || (s.tap && k.tap)))

unfoldable pub queue_macro : ℕ → List (List ℕ) → List MacroEntry → List MacroEntry
queue_macro duration entries queue =
    queue ++ map (λ usages. record { duration_left = duration; items = usages }) entries

unfoldable pub queue_sources :
    ℕ → (ℕ → KeyState) → ℕ → List (List ℕ) → List MacroSource → List MacroEntry → List MacroEntry
unfolding queue_macro
queue_sources layer_state_mask keys duration entries [] queue = queue
queue_sources layer_state_mask keys duration entries (s ∷ sources) queue =
    queue_sources layer_state_mask keys duration entries sources (
      if is_triggered layer_state_mask s (keys s.key)
      then queue_macro duration entries queue
      else queue)

-- `(rev_map.target & 0xFFFF) - 1`, as a uint16_t
abbrev pub macro_number : ℕ → ℕ
macro_number target = (target % 2 ^ 16 + 2 ^ 16 - 1) % 2 ^ 16

unfoldable pub queue_triggered :
    ℕ
    → (ℕ → KeyState)
    → ℕ
    → List (List (List ℕ))
    → List MacroMapping
    → List MacroEntry
    → List MacroEntry
unfolding queue_sources
queue_triggered layer_state_mask keys duration macros [] queue = queue
queue_triggered layer_state_mask keys duration macros (m ∷ mappings) queue =
    let macro = macro_number m.target in
    queue_triggered layer_state_mask keys duration macros mappings (
      if leb 32 macro
      then queue
      else queue_sources layer_state_mask keys duration (get_or macros macro []) m.sources queue)

abbrev pub num_lock_usage : ℕ
num_lock_usage = 0x00070053

-- The four entries that `queue_startup_numlock_sync` pushes.
unfoldable pub queue_startup : List MacroEntry → List MacroEntry
queue_startup queue =
    queue
    ++ (record { duration_left = 199; items = num_lock_usage ∷ [] }
        ∷ record { duration_left = 199; items = [] }
        ∷ record { duration_left = 199; items = num_lock_usage ∷ [] }
        ∷ record { duration_left = 199; items = [] }
        ∷ [])

-- What is pressed in a frame, and the queue after it; `sent` says that no report waits to be sent
-- (`or_items == 0`).
unfoldable pub play_frame : Bool → List MacroEntry → List ℕ × List MacroEntry
play_frame sent [] = ([], [])
play_frame sent (e ∷ queue) = (
  e.items,
  (if ltb 0 e.duration_left
      then record e { duration_left = e.duration_left - 1 } ∷ queue
      else if sent
      then queue
      else e ∷ queue),
)

-- One frame after the other.
unfoldable pub play_frames : List Bool → List MacroEntry → List (List ℕ) × List MacroEntry
unfolding play_frame
play_frames [] queue = ([], queue)
play_frames (sent ∷ frames) queue =
    let (pressed, after_it) = play_frame sent queue in
    let (rest, left) = play_frames frames after_it in (pressed ∷ rest, left)
