-- ===== src/NumLock/Tests.antt =====
-- The filter on concrete reports.
use usb_hid_wireless_bridge.Base.{true, false, [], ◌∷◌, ◌≡◌, refl, arith}
use usb_hid_wireless_bridge.NumLock.Frame.{frames}
use usb_hid_wireless_bridge.NumLock.Invariant.{IsValid}
use usb_hid_wireless_bridge.NumLock.Runs.{fresh, start, next, report, Reach-IsValid}
use usb_hid_wireless_bridge.NumLock.Wrapper.{wrapper, observe_all, wrapper_discarded}
use usb_hid_wireless_bridge.NumLock.{
  Filter, first_down, observe_num_lock_sync_state, set_inferred_num_lock_state,
}

fresh-IsValid : IsValid fresh
fresh-IsValid = ground arith

wrapper_discarded_example :
    observe_all fresh (wrapper 100 5100 6000 900000 901000 905000)
    ≡ set_inferred_num_lock_state fresh true 905000
wrapper_discarded_example =
    wrapper_discarded fresh 100 5100 6000 900000 901000 905000 (refl, refl, refl, refl)
      (omega arith) (omega arith) (omega arith) (omega arith) (omega arith) (omega arith)
      (omega arith) (omega arith)

abbrev tapping : Filter
tapping = record fresh { stage = first_down; previous_num_lock = true; deadline = 20100 }

abbrev queued : Filter
queued = record fresh { pending_output_states = true ∷ false ∷ [] }

frames_run : frames 2 queued ≡ (true ∷ false ∷ [], fresh)
unfolding frames
frames_run = refl

abbrev sure : Filter
sure = record fresh {
  inferred_num_lock_valid = true;
  inferred_num_lock_state = true;
  inferred_num_lock_timestamp = 5;
}

Reach-IsValid_example : IsValid (observe_num_lock_sync_state fresh true false 3)
Reach-IsValid_example =
    Reach-IsValid false {f = observe_num_lock_sync_state fresh true false 3}
      (next start (report fresh true false 3 (omega arith)))
