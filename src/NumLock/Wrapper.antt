-- ===== src/NumLock/Wrapper.antt =====
-- What whole gestures do: a complete wrapper, a lone tap, a held key.
use usb_hid_wireless_bridge.Base.{
  ℕ, ◌+◌, ◌<◌, ◌≤◌, ◌^◌, Bool, true, false, not, List, [], ◌∷◌, ◌++◌, ◌≡◌, arith, if◌then◌else◌,
}
use usb_hid_wireless_bridge.NumLock.Pending.{enqueue, enqueue_append, last_or, last_or-concat}
use usb_hid_wireless_bridge.NumLock.Invariant.{IsValid}
use usb_hid_wireless_bridge.NumLock.{
  idle, Filter, advance_num_lock_sync_timeout, observe_num_lock_sync_state,
  set_inferred_num_lock_state,
}

-- One report and when it came.
pub record Report : Type 0 where
  pub num_lock : Bool
  pub keypad : Bool
  pub at : ℕ

unfoldable pub observe_all : Filter → List Report → Filter
observe_all f [] = f
observe_all f (r ∷ rs) = observe_all (observe_num_lock_sync_state f r.num_lock r.keypad r.at) rs

abbrev pub report : Bool → Bool → ℕ → Report
report n k t = record { num_lock = n; keypad = k; at = t }

-- At rest, with both keys up in the last report.
abbrev pub IsResting : Filter → Type 0
IsResting f =
    (f.stage ≡ idle)
    × (f.deadline ≡ 0)
    × (f.previous_num_lock ≡ false)
    × (f.previous_keypad ≡ false)

-- The six reports of a wrapped keypad key.
abbrev pub wrapper : ℕ → ℕ → ℕ → ℕ → ℕ → ℕ → List Report
wrapper t0 t1 t2 t3 t4 t5 =
    report true false t0
    ∷ report false false t1
    ∷ report false true t2
    ∷ report false false t3
    ∷ report true false t4
    ∷ report false false t5
    ∷ []

-- A keypad key inside a complete wrapper (NumLock tap, key, NumLock tap, each gap of a tap below
-- 20 ms) queues nothing for the host: from rest the filter comes back to rest with everything as it
-- was, save that the physical NumLock state is now inferred to be on. The key itself may be held
-- for any time.
pub wrapper_discarded :
    (f : Filter) (t0 t1 t2 t3 t4 t5 : ℕ)
    → IsResting f
    → t1 < t0 + 20000
    → t2 < t1 + 20000
    → t4 < t3 + 20000
    → t5 < t4 + 20000
    → t0 + 20000 < 2 ^ 64
    → t1 + 20000 < 2 ^ 64
    → t3 + 20000 < 2 ^ 64
    → t4 + 20000 < 2 ^ 64
    → observe_all f (wrapper t0 t1 t2 t3 t4 t5) ≡ set_inferred_num_lock_state f true t5
unfolding observe_all observe_num_lock_sync_state
wrapper_discarded f t0 t1 t2 t3 t4 t5 r a b c d e g h i = ground arith

enqueue_up_down :
    (d : Bool) (xs : List Bool)
    → last_or d xs ≡ false
    → (enqueue d xs true ≡ xs ++ true ∷ [])
      × (enqueue d (enqueue d xs true) false ≡ (xs ++ true ∷ []) ++ false ∷ [])
enqueue_up_down d xs h =
    (up, rw up (enqueue_append d (xs ++ true ∷ []) false (last_or-concat d xs true)))
  where
    up : enqueue d xs true ≡ xs ++ true ∷ []
    up = enqueue_append d xs true h

-- A short NumLock tap with no keypad key behind it: once 20 ms have passed since its release, the
-- tap is replayed to the host as one down state and one up state behind what is queued, the
-- inferred state is toggled (to on, if there was none), and the filter is at rest.
pub lone_tap_replayed :
    (f : Filter) (t0 t1 now : ℕ)
    → IsResting f
    → IsValid f
    → t1 < t0 + 20000
    → t0 + 20000 < 2 ^ 64
    → t1 + 20000 < 2 ^ 64
    → t1 + 20000 ≤ now
    → let g =
        advance_num_lock_sync_timeout
          (observe_all f (report true false t0 ∷ report false false t1 ∷ []))
          now in
      (g.pending_output_states ≡ (f.pending_output_states ++ true ∷ []) ++ false ∷ [])
      × (g.inferred_num_lock_state
          ≡ (if f.inferred_num_lock_valid then not f.inferred_num_lock_state else true))
      × (g.inferred_num_lock_valid ≡ true)
      × IsResting g
unfolding observe_all observe_num_lock_sync_state
lone_tap_replayed f t0 t1 now r v a b c d =
    ground (arith, enqueue_up_down f.output_num_lock f.pending_output_states)

-- A NumLock key held past 20 ms is passed through: its press is queued when the deadline passes,
-- its release when it comes, with nothing inferred, and the filter is at rest.
pub held_key_passed_through :
    (f : Filter) (t0 now t1 : ℕ)
    → IsResting f
    → IsValid f
    → t0 + 20000 < 2 ^ 64
    → t0 + 20000 ≤ now
    → let pressed = advance_num_lock_sync_timeout (observe_all f (report true false t0 ∷ [])) now in
      let g = observe_all pressed (report false false t1 ∷ []) in
      (pressed.pending_output_states ≡ f.pending_output_states ++ true ∷ [])
      × (g.pending_output_states ≡ (f.pending_output_states ++ true ∷ []) ++ false ∷ [])
      × (g.inferred_num_lock_valid ≡ f.inferred_num_lock_valid)
      × (g.inferred_num_lock_state ≡ f.inferred_num_lock_state)
      × IsResting g
unfolding observe_all observe_num_lock_sync_state
held_key_passed_through f t0 now t1 r v b d =
    ground (arith, enqueue_up_down f.output_num_lock f.pending_output_states)
