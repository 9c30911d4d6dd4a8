-- ===== src/Startup/Tests.antt =====
-- Runs of the startup synchronisation.
use usb_hid_wireless_bridge.Base.{ℕ, ◌≡◌, ◌≤◌, refl, true, false, [], ◌∷◌}
use usb_hid_wireless_bridge.Startup.{Poll, initial, should_start, run, ready_us, idle_us, elapsed}
use usb_hid_wireless_bridge.Startup.Timing.{
  after, HeldSince, is_ready, is_quiet, should_start_needs,
}

abbrev quiet : ℕ → Poll
quiet t = record {
  now = t;
  host_ready = true;
  keypad_present = true;
  keyboard_idle = true;
  queues_idle = true;
}

abbrev typing : ℕ → Poll
typing t = record (quiet t) { keyboard_idle = false }

boot :
    (run initial (quiet 5 ∷ quiet 2000004 ∷ quiet 2000005 ∷ quiet 9000000 ∷ [])).1
    ≡ false ∷ false ∷ true ∷ false ∷ []
unfolding run should_start
boot = refl

typing_postpones :
    (run initial (quiet 5 ∷ typing 2000005 ∷ quiet 2000006 ∷ quiet 2200006 ∷ [])).1
    ≡ false ∷ false ∷ false ∷ true ∷ []
unfolding run should_start
typing_postpones = refl

should_start_needs_example :
    (t u : ℕ) × HeldSince is_ready (quiet 2000005 ∷ quiet 5 ∷ []) t
    × (ready_us ≤ elapsed 2000005 t)
    × HeldSince is_quiet (quiet 2000005 ∷ quiet 5 ∷ []) u
    × (idle_us ≤ elapsed 2000005 u)
    × (◌≡◌ (quiet 2000005).queues_idle true)
should_start_needs_example =
    should_start_needs (quiet 2000005) (quiet 5 ∷ []) (unfold should_start after in refl)
