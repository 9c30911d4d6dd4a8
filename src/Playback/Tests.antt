-- ===== src/Playback/Tests.antt =====
-- A macro of two steps, and the sequence of the first boot.
use usb_hid_wireless_bridge.Base.{◌≡◌, refl, true, false, [], ◌∷◌, ◌++◌, replicate}
use usb_hid_wireless_bridge.Base.Each.{none_left, and_then}
use usb_hid_wireless_bridge.Playback.{num_lock_usage, queue_macro, queue_startup, play_frames}
use usb_hid_wireless_bridge.Playback.Frames.{play_frames-queue_macro}

-- A report waits in the first frame of each step, and in one more at the end of the second.
play_frames-queue_macro_example :
    play_frames
      (false ∷ true ∷ false ∷ false ∷ true ∷ [])
      (queue_macro 1 ((4 ∷ 5 ∷ []) ∷ (6 ∷ []) ∷ []) [])
    ≡ ((4 ∷ 5 ∷ []) ∷ (4 ∷ 5 ∷ []) ∷ (6 ∷ []) ∷ (6 ∷ []) ∷ (6 ∷ []) ∷ [], [])
play_frames-queue_macro_example =
    play_frames-queue_macro 1
      (record { usages = 4 ∷ 5 ∷ []; during = false ∷ []; busy = 0 }
        ∷ record { usages = 6 ∷ []; during = false ∷ []; busy = 1 }
        ∷ [])
      (and_then refl (and_then refl none_left))

startup_test : play_frames (replicate 800 true) (queue_startup []) ≡ (
  replicate 200 (num_lock_usage ∷ [])
      ++ (replicate 200 [] ++ (replicate 200 (num_lock_usage ∷ []) ++ replicate 200 [])),
  [],
)
unfolding play_frames queue_startup
startup_test = refl
