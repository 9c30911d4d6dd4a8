-- ===== src/TapHold/Tests.antt =====
-- A press of 150 ms and one of 250 ms, in frames of 50 ms, for a threshold of 200 ms.
use usb_hid_wireless_bridge.Base.{ℕ, true, false, [], ◌∷◌, ◌++◌, ◌≡◌, refl, arith}
use usb_hid_wireless_bridge.Base.Int.{pos}
use usb_hid_wireless_bridge.TapHold.{Key, Frame, update_tap_hold, tap_hold_frames}
use usb_hid_wireless_bridge.TapHold.Press.{no_frames, one_down, shown, tap_hold_frames_press}

abbrev up : Key
up = record { pressed_at = 0; tap = false; hold = false; prev_hold = false; prev_input = pos 0 }

abbrev at_time : ℕ → ℕ → Frame
at_time now input = record { now = now; input = pos input }

abbrev threshold : ℕ
threshold = 200000

test_tap :
    tap_hold_frames threshold (at_time 1000000 1 ∷ at_time 1050000 1 ∷ at_time 1150000 0 ∷ []) up
    ≡ (false, false) ∷ (false, false) ∷ (true, false) ∷ []
unfolding tap_hold_frames update_tap_hold
test_tap = refl

test_hold :
    tap_hold_frames threshold (at_time 1000000 1 ∷ at_time 1200000 1 ∷ at_time 1250000 0 ∷ []) up
    ≡ (false, false) ∷ (false, true) ∷ (false, false) ∷ []
unfolding tap_hold_frames update_tap_hold
test_hold = refl

tap_hold_frames_press_example :
    tap_hold_frames threshold
      (at_time 1000000 1 ∷ ((at_time 1200000 1 ∷ []) ++ (at_time 1250000 0 ∷ [])))
      up
    ≡ shown threshold 1000000 (at_time 1000000 1 ∷ at_time 1200000 1 ∷ []) (at_time 1250000 0)
tap_hold_frames_press_example =
    tap_hold_frames_press threshold (at_time 1000000 1) (at_time 1200000 1 ∷ []) (at_time 1250000 0)
      up refl
      (one_down refl (omega arith) (omega arith)
        (one_down refl (omega arith) (omega arith) no_frames))
      refl (omega arith) (omega arith)
