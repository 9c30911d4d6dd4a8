-- ===== src/Startup.antt =====
-- firmware/hid-remapper/firmware/src/startup_numlock_sync.h: the class StartupNumLockSync, which
-- decides the one moment after boot at which the NumLock synchronisation macro is queued.
pub mod Timing
mod Tests
use usb_hid_wireless_bridge.Base.{
  ℕ, ◌+◌, ◌-◌, ◌%◌, ◌^◌, Bool, true, false, not, ◌||◌, List, [], ◌∷◌, ltb, if◌then◌else◌,
}

-- The private fields of the class; times are uint64_t microseconds.
pub record Sync : Type 0 where
  pub started : Bool
  pub ready_observed : Bool
  pub idle_observed : Bool
  pub ready_since : ℕ
  pub idle_since : ℕ

-- The arguments of one call of `should_start`.
pub record Poll : Type 0 where
  pub now : ℕ
  pub host_ready : Bool
  pub keypad_present : Bool
  pub keyboard_idle : Bool
  pub queues_idle : Bool

abbrev pub initial : Sync
initial = record {
  started = false;
  ready_observed = false;
  idle_observed = false;
  ready_since = 0;
  idle_since = 0;
}

abbrev pub ready_us : ℕ
ready_us = 2000000

abbrev pub idle_us : ℕ
idle_us = 200000

-- uint64_t subtraction
abbrev pub elapsed : ℕ → ℕ → ℕ
elapsed now since = (now + 2 ^ 64 - since) % 2 ^ 64

-- `if (!ready_observed_) { ready_observed_ = true; ready_since_ = now; }`
abbrev pub observe_ready : Sync → ℕ → Sync
observe_ready s now =
    if s.ready_observed then s else record s { ready_observed = true; ready_since = now }

abbrev pub observe_idle : Sync → ℕ → Sync
observe_idle s now =
    if s.idle_observed then s else record s { idle_observed = true; idle_since = now }

-- the last test of the function, on the state that the two observations left
abbrev pub settle : Sync → Poll → Sync × Bool
settle s p =
    if not p.queues_idle
      || ltb (elapsed p.now s.ready_since) ready_us
      || ltb (elapsed p.now s.idle_since) idle_us
    then (s, false)
    else (record s { started = true }, true)

unfoldable pub should_start : Sync → Poll → Sync × Bool
should_start s p =
    if s.started
    then (s, false)
    else if not p.host_ready || not p.keypad_present
    then (record s { ready_observed = false; idle_observed = false }, false)
    else if not p.keyboard_idle
    then (record (observe_ready s p.now) { idle_observed = false }, false)
    else settle (observe_idle (observe_ready s p.now) p.now) p

-- The calls of one boot, one per mapping frame, and the answer of each.
unfoldable pub run : Sync → List Poll → Sync × List Bool
run s [] = (s, [])
run s (p ∷ ps) =
    let (s', fire) = should_start s p in let (t, fires) = run s' ps in (t, fire ∷ fires)
