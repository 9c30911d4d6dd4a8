-- ===== src/Scroll.antt =====
-- `handle_scroll` of remapper.cc: the movement of a wheel, in thousandths of a hi-res step, of which
-- a host without hi-res scrolling gets whole notches.
use usb_hid_wireless_bridge.Base.{
  ℕ, ◌+◌, ◌-◌, ◌*◌, ◌%◌, ◌^◌, Bool, ◌&&◌, not, ltb, ◌==◌, if◌then◌else◌,
}
use usb_hid_wireless_bridge.Base.Int.{ℤ, pos, ◌+ℤ◌, ◌-ℤ◌, ◌*ℤ◌, tdiv, int32, eq_ℤ}
pub mod Notches
pub mod Tests

-- The two fields of `map_source_t` that are used.
pub record Source : Type 0 where
  pub accumulated_scroll : ℤ
  pub last_scroll_timestamp : ℕ

-- `1000 * RESOLUTION_MULTIPLIER`
abbrev pub notch : ℕ
notch = 120000

-- `now - map_source.last_scroll_timestamp > partial_scroll_timeout`, of a uint64_t.
abbrev pub is_late : ℕ → ℕ → Source → Bool
is_late partial_scroll_timeout now s =
    ltb partial_scroll_timeout ((now + 2 ^ 64 - s.last_scroll_timestamp) % 2 ^ 64)

-- What is left of the movements before.
unfoldable pub left_over : ℕ → ℕ → Source → ℤ
left_over partial_scroll_timeout now s =
    if not (eq_ℤ s.accumulated_scroll (pos 0)) && is_late partial_scroll_timeout now s
    then pos 0
    else s.accumulated_scroll

-- `ticks`
unfoldable pub ticks : ℤ → ℤ
ticks accumulated = tdiv accumulated (pos notch)

-- `hi_res`: the host has set the bit of this axis in `resolution_multiplier`.
unfoldable pub handle_scroll : Bool → ℕ → ℕ → ℤ → Source → ℤ × Source
handle_scroll hi_res partial_scroll_timeout now movement s = if hi_res then (movement, s) else (
  int32 (ticks (int32 (left_over partial_scroll_timeout now s +ℤ movement)) *ℤ pos 1000),
  record {
    accumulated_scroll = int32 (
        int32 (left_over partial_scroll_timeout now s +ℤ movement)
        -ℤ int32 (ticks (int32 (left_over partial_scroll_timeout now s +ℤ movement)) *ℤ pos notch));
    last_scroll_timestamp = now;
  },
)
