-- ===== src/Layers.antt =====
-- Sticky usages and layers in a frame of `process_mapping`, remapper.cc, behind tap and hold.
use usb_hid_wireless_bridge.Base.{
  ℕ, ◌+◌, ◌-◌, ◌%◌, ◌^◌, Bool, true, false, ◌&&◌, ◌||◌, not, List, [], ◌∷◌, bit_and, bit_or,
  bit_xor, ◌==◌, if◌then◌else◌,
}
pub mod Sticky
pub mod Tests

-- A key in this frame, with its `tap_hold_state_t`.
pub record KeyState : Type 0 where
  pub down : Bool
  pub was_down : Bool
  pub tap : Bool
  pub hold : Bool
  pub prev_hold : Bool

-- `sticky_usage_t`, and the like for tap and hold: pointers are numbers of a key and of a
-- `sticky_state`.
pub record StickyUsage : Type 0 where
  pub key : ℕ
  pub slot : ℕ
  pub layer_mask : ℕ

-- `map_source_t` of a mapping to a layer.
pub record LayerSource : Type 0 where
  pub key : ℕ
  pub slot : ℕ
  pub layer_mask : ℕ
  pub sticky : Bool
  pub tap : Bool
  pub hold : Bool

-- An element of `reverse_mapping_layers`.
pub record LayerMapping : Type 0 where
  pub layer : ℕ
  pub sources : List LayerSource

pub record Mappings : Type 0 where
  pub sticky_usages : List StickyUsage
  pub tap_sticky_usages : List StickyUsage
  pub hold_sticky_usages : List StickyUsage
  pub layer_mappings : List LayerMapping

pub record Layers : Type 0 where
  pub layer_state_mask : ℕ
  pub sticky_state : ℕ → ℕ

abbrev pub overlaps : ℕ → ℕ → Bool
overlaps a b = not (bit_and a b == 0)

abbrev pub is_pressed : KeyState → Bool
is_pressed k = not k.was_down && k.down

abbrev pub hold_begins : KeyState → Bool
hold_begins k = k.hold && not k.prev_hold

-- `if (c) f[i] = v;`
abbrev pub update_if : Bool → (ℕ → ℕ) → ℕ → ℕ → ℕ → ℕ
update_if c f i v j = if c && (j == i) then v else f j

module _ (keys : ℕ → KeyState) (mask : ℕ) where
  -- The three loops over sticky usages differ in what sets them off.
  unfoldable pub toggle_sticky : (KeyState → Bool) → List StickyUsage → (ℕ → ℕ) → ℕ → ℕ
  toggle_sticky sets_off [] sticky_state = sticky_state
  toggle_sticky sets_off (u ∷ us) sticky_state = toggle_sticky sets_off us (
      update_if (overlaps mask u.layer_mask && sets_off (keys u.key)) sticky_state u.slot
        (bit_xor (sticky_state u.slot) (bit_and mask u.layer_mask)))

  -- `new_layer_state_mask |= 1 << i`, of a uint8_t.
  abbrev pub with_layer : ℕ → ℕ → ℕ
  with_layer i new_mask = bit_or new_mask (2 ^ i) % 2 ^ 8

  abbrev pub is_active : LayerSource → Bool
  is_active s =
      overlaps s.layer_mask mask && (if s.hold then (keys s.key).hold else (keys s.key).down)

  -- The key of a source was used again.
  abbrev pub is_used_again : LayerSource → Bool
  is_used_again s =
      (not s.tap && (not s.hold && is_pressed (keys s.key)))
      || (s.tap && (keys s.key).tap)
      || (s.hold && hold_begins (keys s.key))

  abbrev pub switched_off : ℕ → LayerSource → (ℕ → ℕ) → ℕ → ℕ
  switched_off i s sticky_state =
      update_if
        (s.sticky
          && (is_used_again s
              && (overlaps (sticky_state s.slot) s.layer_mask && overlaps mask (2 ^ i))))
        sticky_state s.slot (bit_and (sticky_state s.slot) (2 ^ 8 - 1 - s.layer_mask))

  unfoldable pub add_sources : ℕ → List LayerSource → ℕ → (ℕ → ℕ) → ℕ × (ℕ → ℕ)
  add_sources i [] new_mask sticky_state = (new_mask, sticky_state)
  add_sources i (s ∷ ss) new_mask sticky_state =
      let left = switched_off i s sticky_state in
      let active = if s.sticky then overlaps (left s.slot) s.layer_mask else is_active s in
      add_sources i ss (if active then with_layer i new_mask else new_mask) left

  unfoldable pub add_layers : List LayerMapping → ℕ → (ℕ → ℕ) → ℕ × (ℕ → ℕ)
  add_layers [] new_mask sticky_state = (new_mask, sticky_state)
  add_layers (m ∷ ms) new_mask sticky_state =
      let r = add_sources (m.layer % 2 ^ 16) m.sources new_mask sticky_state in
      add_layers ms r.0 r.1

-- The frame: sticky usages, then the layers; without any layer, layer 0 is active.
unfoldable pub update_layers : Mappings → (ℕ → KeyState) → Layers → Layers
update_layers c keys s =
    let mask = s.layer_state_mask in
    let toggled = toggle_sticky keys mask hold_begins c.hold_sticky_usages (
      toggle_sticky keys mask (λ k. k.tap) c.tap_sticky_usages
        (toggle_sticky keys mask is_pressed c.sticky_usages s.sticky_state)) in
    let r = add_layers keys mask c.layer_mappings 0 toggled in
    record { layer_state_mask = if r.0 == 0 then 1 else r.0; sticky_state = r.1 }
