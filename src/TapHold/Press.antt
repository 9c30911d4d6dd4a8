-- ===== src/TapHold/Press.antt =====
-- One press of a key, from the first frame that it is down to the first that it is up.
use usb_hid_wireless_bridge.Base.{
  ℕ, ◌-◌, ◌^◌, ◌≤◌, ◌<◌, Bool, true, false, List, [], ◌∷◌, ◌++◌, ltb, leb, ◌≡◌, ap₂, arith,
}
use usb_hid_wireless_bridge.TapHold.{Key, Frame, is_down, update_tap_hold, tap_hold_frames}

-- Frames with the key down, none of them before `start`.
pub data AllDown (start : ℕ) : List Frame → Type 0 where
  no_frames : AllDown start []
  one_down :
      {f : Frame} {fs : List Frame}
      → is_down f.input ≡ true
      → start ≤ f.now
      → f.now < 2 ^ 64
      → AllDown start fs
      → AllDown start (f ∷ fs)

-- What the frames of a press that began at `start` should show, and then the frame of its release.
abbrev pub shown : ℕ → ℕ → List Frame → Frame → List (Bool × Bool)
shown threshold start [] release = (ltb (release.now - start) threshold, false) ∷ []
shown threshold start (f ∷ fs) release =
    (false, leb threshold (f.now - start)) ∷ shown threshold start fs release

-- While the key is down.
while_down :
    (threshold start : ℕ) (fs : List Frame) (release : Frame) (k : Key)
    → AllDown start fs
    → is_down release.input ≡ false
    → start ≤ release.now
    → release.now < 2 ^ 64
    → k.pressed_at ≡ start
    → is_down k.prev_input ≡ true
    → tap_hold_frames threshold (fs ++ (release ∷ [])) k ≡ shown threshold start fs release
unfolding tap_hold_frames update_tap_hold
while_down threshold start [] release k no_frames u l m p d =
    ap₂ (λ (a b : Bool). (a, b) ∷ []) (ground (arith, u, d, p)) (ground (arith, u))
while_down threshold start (f ∷ fs) release k (one_down fd fl fm a) u l m p d =
    ap₂ ◌∷◌ (ap₂ (λ (x y : Bool). (x, y)) (ground (arith, fd)) (ground (arith, fd, d, p))) (
      while_down threshold start fs release (update_tap_hold threshold f k) a u l m
        (ground (arith, fd, d, p)) fd)

-- From a key that was up: in the frames in which it is down it is not tapped, and held exactly from
-- the threshold on; in the frame of its release it is not held, and tapped exactly if the threshold
-- has not passed. No frame may come before the first one.
pub tap_hold_frames_press :
    (threshold : ℕ) (first : Frame) (fs : List Frame) (release : Frame) (k : Key)
    → is_down k.prev_input ≡ false
    → AllDown first.now (first ∷ fs)
    → is_down release.input ≡ false
    → first.now ≤ release.now
    → release.now < 2 ^ 64
    → tap_hold_frames threshold (first ∷ (fs ++ (release ∷ []))) k
      ≡ shown threshold first.now (first ∷ fs) release
unfolding tap_hold_frames update_tap_hold
tap_hold_frames_press threshold first fs release k up (one_down fd fl fm a) u l m =
    ap₂ ◌∷◌ (ap₂ (λ (x y : Bool). (x, y)) (ground (arith, fd)) (ground (arith, fd, up))) (
      while_down threshold first.now fs release (update_tap_hold threshold first k) a u l m
        (ground (arith, fd, up)) fd)
