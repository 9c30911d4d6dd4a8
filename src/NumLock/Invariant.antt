-- ===== src/NumLock/Invariant.antt =====
-- What holds of a filter between reports and frames.
use usb_hid_wireless_bridge.Base.{
  ℕ, ◌+◌, ◌<◌, ◌≤◌, ◌^◌, List, Bool, true, false, ◌≡◌, ◌≢◌, refl, arith,
}
use usb_hid_wireless_bridge.NumLock.Pending.{
  last_or, enqueue, Alternates, last_or-enqueue, Alternates-enqueue,
}
use usb_hid_wireless_bridge.NumLock.{
  Stage, first_down, wait_keypad, wait_trailing_down, trailing_down, passthrough_down, Filter,
  advance_num_lock_sync_timeout, observe_advanced, observe_num_lock_sync_state,
}

-- The state that the host will have seen once the queue is empty.
abbrev pub last_state : Filter → Bool
last_state f = last_or f.output_num_lock f.pending_output_states

abbrev pub is_passthrough : Stage → Bool
is_passthrough passthrough_down = true
is_passthrough _ = false

-- The stages which a held NumLock key keeps the filter in.
abbrev pub is_held : Stage → Bool
is_held first_down = true
is_held trailing_down = true
is_held passthrough_down = true
is_held _ = false

-- The stages that withhold a tap and so must come with a deadline.
abbrev pub is_waiting : Stage → Bool
is_waiting first_down = true
is_waiting wait_keypad = true
is_waiting wait_trailing_down = true
is_waiting trailing_down = true
is_waiting _ = false

pub record IsValid (f : Filter) : Type 0 where
  pub alternates : Alternates f.output_num_lock f.pending_output_states
  pub pressed : last_state f ≡ is_passthrough f.stage
  pub held : is_held f.stage ≡ true → f.previous_num_lock ≡ true
  pub waiting : is_waiting f.stage ≡ true → f.deadline ≢ 0
  pub settled : is_waiting f.stage ≡ false → f.deadline ≡ 0

-- The queue after a replayed tap, and after one with a held press behind it.
module _ (d : Bool) (xs : List Bool) where
  abbrev tap : List Bool
  tap = enqueue d (enqueue d xs true) false

  pub tap-facts :
      Alternates d xs
      → Alternates d (enqueue d xs true)
        × Alternates d tap
        × Alternates d (enqueue d tap true)
        × (last_or d (enqueue d xs true) ≡ true)
        × (last_or d tap ≡ false)
        × (last_or d (enqueue d tap true) ≡ true)
  tap-facts h = (
    Alternates-enqueue d xs true h,
    Alternates-enqueue d (enqueue d xs true) false (Alternates-enqueue d xs true h),
    Alternates-enqueue d tap true
        (Alternates-enqueue d (enqueue d xs true) false (Alternates-enqueue d xs true h)),
    last_or-enqueue d xs true,
    last_or-enqueue d (enqueue d xs true) false,
    last_or-enqueue d tap true,
  )

-- A passed deadline keeps the invariant, and leaves no stage that withholds a tap.
pub advance-IsValid :
    (f : Filter) (now : ℕ) → IsValid f → IsValid (advance_num_lock_sync_timeout f now)
unfolding advance_num_lock_sync_timeout
advance-IsValid f now v =
    ground (arith, tap-facts f.output_num_lock f.pending_output_states v.alternates)

-- Once the deadline is reached no tap is withheld any longer.
pub advance_resolves :
    (f : Filter) (now : ℕ)
    → IsValid f
    → f.deadline ≤ now
    → is_waiting (advance_num_lock_sync_timeout f now).stage ≡ false
unfolding advance_num_lock_sync_timeout
advance_resolves f now v h = ground arith

observe_advanced-IsValid :
    (f : Filter) (num_lock keypad : Bool) (now : ℕ)
    → now + 20000 < 2 ^ 64
    → IsValid f
    → IsValid (observe_advanced f num_lock keypad now)
unfolding observe_advanced
observe_advanced-IsValid f num_lock keypad now h v = ground (
  arith,
  tap-facts f.output_num_lock f.pending_output_states v.alternates,
  Alternates-enqueue f.output_num_lock f.pending_output_states false v.alternates,
  last_or-enqueue f.output_num_lock f.pending_output_states false,
)

-- A report keeps the invariant: the queued states alternate, a NumLock press is in the queue's last
-- place exactly in the pass-through stage, that stage is left when the key is released, and a
-- withheld tap always has a deadline. (The clock is below 2^64 - 20000.)
pub observe-IsValid :
    (f : Filter) (num_lock keypad : Bool) (now : ℕ)
    → now + 20000 < 2 ^ 64
    → IsValid f
    → IsValid (observe_num_lock_sync_state f num_lock keypad now)
unfolding observe_num_lock_sync_state
observe-IsValid f num_lock keypad now h v =
    observe_advanced-IsValid (advance_num_lock_sync_timeout f now) num_lock keypad now h
      (advance-IsValid f now v)

previous-observe :
    (f : Filter) (num_lock keypad : Bool) (now : ℕ)
    → (observe_num_lock_sync_state f num_lock keypad now).previous_num_lock ≡ num_lock
unfolding observe_num_lock_sync_state
previous-observe f num_lock keypad now = refl

-- After a report in which NumLock is up, the last state queued for the host is up, whatever came
-- before: the host is never left with NumLock pressed.
pub observe_up_releases :
    (f : Filter) (keypad : Bool) (now : ℕ)
    → now + 20000 < 2 ^ 64
    → IsValid f
    → last_state (observe_num_lock_sync_state f false keypad now) ≡ false
observe_up_releases f keypad now h v =
    released (observe_num_lock_sync_state f false keypad now)
      (observe-IsValid f false keypad now h v) (previous-observe f false keypad now)
  where
    released : (g : Filter) → IsValid g → g.previous_num_lock ≡ false → last_state g ≡ false
    released g w e = ground arith
