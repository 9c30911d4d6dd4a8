-- ===== src/Layers/Tests.antt =====
-- A sticky key to layer 3, pressed, held for a frame, let go and pressed again.
use usb_hid_wireless_bridge.Base.{◌^◌, Bool, true, false, [], ◌∷◌, ◌≡◌, refl, arith}
use usb_hid_wireless_bridge.Base.Each.{none_left, and_then}
use usb_hid_wireless_bridge.Layers.{
  KeyState, Mappings, Layers, toggle_sticky, add_sources, add_layers, update_layers,
}
use usb_hid_wireless_bridge.Layers.Sticky.{Shows, frame, frames, sticky_layer_there_and_back}

abbrev key : Bool → Bool → KeyState
key down was_down = record {
  down = down;
  was_down = was_down;
  tap = false;
  hold = false;
  prev_hold = false;
}

abbrev start : Layers
start = record { layer_state_mask = 1; sticky_state = λ i. 0 }

-- A key that is no sticky one changes the layer while it is down.
abbrev momentary : Mappings
momentary = record {
  sticky_usages = [];
  tap_sticky_usages = [];
  hold_sticky_usages = [];
  layer_mappings =
      record {
        layer = 2;
        sources =
            record {
              key = 0;
              slot = 0;
              layer_mask = 255;
              sticky = false;
              tap = false;
              hold = false;
            }
            ∷ [];
      }
      ∷ [];
}

test_momentary : (update_layers momentary (λ i. key true true) start).layer_state_mask ≡ 4
unfolding update_layers toggle_sticky add_layers add_sources
test_momentary = refl

test_let_go : (update_layers momentary (λ i. key false true) start).layer_state_mask ≡ 1
unfolding update_layers toggle_sticky add_layers add_sources
test_let_go = refl

sticky_layer_there_and_back_example :
    let there = frames 3 (key true true ∷ key false true ∷ []) (frame 3 (key true false) start) in
    Shows there (2 ^ 3) 1 × Shows (frame 3 (key true false) there) 1 0
sticky_layer_there_and_back_example =
    sticky_layer_there_and_back 2 (key true false) (key true false)
      (key true true ∷ key false true ∷ []) start (omega arith) refl
      (and_then refl (and_then refl none_left)) refl record { mask_is = refl; sticky_is = refl }
