-- ===== src/Layers/Sticky.antt =====
-- A sticky mapping from layer 0 to another layer.
use usb_hid_wireless_bridge.Base.{
  ℕ, suc, ◌^◌, ◌<◌, Bool, true, false, ◌&&◌, List, [], ◌∷◌, ◌==◌, ==_iff, ◌≡◌, refl, ap, ap₂, subst,
  ◌∙◌, arith,
}
use usb_hid_wireless_bridge.Base.Below.{all_below, all_below_holds}
use usb_hid_wireless_bridge.Base.Each.{Each, Each-head, Each-tail}
use usb_hid_wireless_bridge.Layers.{
  KeyState, Mappings, Layers, is_pressed, toggle_sticky, add_sources, add_layers, update_layers,
}

abbrev pub sticky_to : ℕ → Mappings
sticky_to layer = record {
  sticky_usages = record { key = 0; slot = 0; layer_mask = 1 } ∷ [];
  tap_sticky_usages = [];
  hold_sticky_usages = [];
  layer_mappings =
      record {
        layer = layer;
        sources =
            record { key = 0; slot = 0; layer_mask = 1; sticky = true; tap = false; hold = false }
            ∷ [];
      }
      ∷ [];
}

-- The active layers and the state of the sticky mapping.
pub record Shows (s : Layers) (mask sticky : ℕ) : Type 0 where
  pub mask_is : s.layer_state_mask ≡ mask
  pub sticky_is : s.sticky_state 0 ≡ sticky

abbrev pub frame : ℕ → KeyState → Layers → Layers
frame layer k s = update_layers (sticky_to layer) (λ i. k) s

abbrev at_rest : ℕ → ℕ → Layers
at_rest mask sticky = record { layer_state_mask = mask; sticky_state = λ i. sticky }

-- A frame depends on these two alone.
frame_shown :
    (layer : ℕ) (k : KeyState) (s : Layers) (mask sticky : ℕ)
    → Shows s mask sticky
    → Shows
        (frame layer k s)
        (frame layer k (at_rest mask sticky)).layer_state_mask
        ((frame layer k (at_rest mask sticky)).sticky_state 0)
unfolding update_layers toggle_sticky add_layers add_sources
frame_shown layer k s mask sticky h =
    subst
      (λ (v : ℕ).
        Shows (frame layer k s) (frame layer k (at_rest mask v)).layer_state_mask
          ((frame layer k (at_rest mask v)).sticky_state 0))
      h.sticky_is
      (subst
        (λ (m : ℕ).
          Shows (frame layer k s) (frame layer k (at_rest m (s.sticky_state 0))).layer_state_mask
            ((frame layer k (at_rest m (s.sticky_state 0))).sticky_state 0))
        h.mask_is record { mask_is = refl; sticky_is = refl })

-- Every layer from 1 to 7, and every state of a key: a press from layer 0, a press in the layer, and
-- a frame without a press in the layer.
abbrev gives : ℕ → KeyState → Layers → ℕ → ℕ → Bool
gives layer k s mask sticky =
    ((frame (suc layer) k s).layer_state_mask == mask)
    && ((frame (suc layer) k s).sticky_state 0 == sticky)

abbrev key : Bool → Bool → KeyState → KeyState
key down was_down k = record k { down = down; was_down = was_down }

press_on_table :
    (k : KeyState)
    → all_below 7 (λ i. gives i (key true false k) (at_rest 1 0) (2 ^ suc i) 1) ≡ true
unfolding all_below update_layers toggle_sticky add_layers add_sources
press_on_table k = refl

press_off_table :
    (k : KeyState)
    → all_below 7 (λ i. gives i (key true false k) (at_rest (2 ^ suc i) 1) 1 0) ≡ true
unfolding all_below update_layers toggle_sticky add_layers add_sources
press_off_table k = refl

released_table :
    (w : Bool) (k : KeyState)
    → all_below 7 (λ i. gives i (key false w k) (at_rest (2 ^ suc i) 1) (2 ^ suc i) 1) ≡ true
unfolding all_below update_layers toggle_sticky add_layers add_sources
released_table true k = refl
released_table false k = refl

kept_down_table :
    (k : KeyState)
    → all_below 7 (λ i. gives i (key true true k) (at_rest (2 ^ suc i) 1) (2 ^ suc i) 1) ≡ true
unfolding all_below update_layers toggle_sticky add_layers add_sources
kept_down_table k = refl

-- From a table to a state that shows the same.
from_table :
    (i : ℕ) (down was_down : Bool) (k : KeyState) (s : Layers) (mask sticky mask' sticky' : ℕ)
    → k.down ≡ down
    → k.was_down ≡ was_down
    → gives i (key down was_down k) (at_rest mask sticky) mask' sticky' ≡ true
    → Shows s mask sticky
    → Shows (frame (suc i) k s) mask' sticky'
from_table i down was_down k s mask sticky mask' sticky' d w g h =
    let same = ap₂ (λ (x y : Bool). frame (suc i) (key x y k) (at_rest mask sticky)) d w in
    let shown = frame_shown (suc i) k s mask sticky h in
    record {
      mask_is =
          shown.mask_is ∙ ap (λ (l : Layers). l.layer_state_mask) same ∙ (==_iff _ _).0 parts.0;
      sticky_is =
          shown.sticky_is ∙ ap (λ (l : Layers). l.sticky_state 0) same ∙ (==_iff _ _).0 parts.1;
    }
  where
    result : Layers
    result = frame (suc i) (key down was_down k) (at_rest mask sticky)

    both : (a b : Bool) → (a && b) ≡ true → (a ≡ true) × (b ≡ true)
    both a b e = (ground arith, ground arith)

    parts :
        ((result.layer_state_mask == mask') ≡ true) × ((result.sticky_state 0 == sticky') ≡ true)
    parts = both (result.layer_state_mask == mask') (result.sticky_state 0 == sticky') g

press :
    (i : ℕ) (k : KeyState) (s : Layers) (mask sticky mask' sticky' : ℕ)
    → is_pressed k ≡ true
    → gives i (key true false k) (at_rest mask sticky) mask' sticky' ≡ true
    → Shows s mask sticky
    → Shows (frame (suc i) k s) mask' sticky'
press i k s mask sticky mask' sticky' p g h =
    from_table i true false k s mask sticky mask' sticky' (ground arith) (ground arith) g h

no_press :
    (i : ℕ) (k : KeyState) (s : Layers)
    → i < 7
    → is_pressed k ≡ false
    → Shows s (2 ^ suc i) 1
    → Shows (frame (suc i) k s) (2 ^ suc i) 1
no_press i k s l p h = by_case k.down k.was_down refl refl
  where
    by_case : (d w : Bool) → k.down ≡ d → k.was_down ≡ w → Shows (frame (suc i) k s) (2 ^ suc i) 1
    by_case false w e f =
        from_table i false w k s (2 ^ suc i) 1 (2 ^ suc i) 1 e f
          (all_below_holds 7 _ (released_table w k) i l) h
    by_case true true e f =
        from_table i true true k s (2 ^ suc i) 1 (2 ^ suc i) 1 e f
          (all_below_holds 7 _ (kept_down_table k) i l) h
    by_case true false e f = absurd (ground arith)

-- Frames in which the key is not pressed anew.
abbrev pub NoPress : List KeyState → Type 0
NoPress = Each (λ k. is_pressed k ≡ false)

unfoldable pub frames : ℕ → List KeyState → Layers → Layers
frames layer [] s = s
frames layer (k ∷ ks) s = frames layer ks (frame layer k s)

no_presses :
    (i : ℕ) (ks : List KeyState) (s : Layers)
    → i < 7
    → NoPress ks
    → Shows s (2 ^ suc i) 1
    → Shows (frames (suc i) ks s) (2 ^ suc i) 1
unfolding frames
no_presses i [] s l n h = h
no_presses i (k ∷ ks) s l n h =
    no_presses i ks (frame (suc i) k s) l (Each-tail n) (no_press i k s l (Each-head n) h)

-- A key with a sticky mapping from layer 0 to a layer from 1 to 7: when it is pressed in layer 0,
-- that layer alone is active, it stays so as long as the key is not pressed again, and the next press
-- leads back to layer 0 with the mapping switched off, as at the start.
pub sticky_layer_there_and_back :
    (i : ℕ) (on off : KeyState) (between : List KeyState) (s : Layers)
    → i < 7
    → is_pressed on ≡ true
    → NoPress between
    → is_pressed off ≡ true
    → Shows s 1 0
    → let there = frames (suc i) between (frame (suc i) on s) in
      Shows there (2 ^ suc i) 1 × Shows (frame (suc i) off there) 1 0
sticky_layer_there_and_back i on off between s l p n q h =
    let on_shown =
      press i on s 1 0 (2 ^ suc i) 1 p (all_below_holds 7 _ (press_on_table on) i l) h in
    let there = frames (suc i) between (frame (suc i) on s) in
    let there_shown = no_presses i between (frame (suc i) on s) l n on_shown in
    (
      there_shown,
      press i off there (2 ^ suc i) 1 1 0 q (all_below_holds 7 _ (press_off_table off) i l)
          there_shown,
    )
