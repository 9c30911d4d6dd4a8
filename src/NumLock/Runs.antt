-- ===== src/NumLock/Runs.antt =====
-- Every filter that reports and frames can lead to, from the one a device is first given.
use usb_hid_wireless_bridge.Base.{
  ℕ, ◌+◌, ◌<◌, ◌^◌, Bool, true, false, ◌≢◌, List, [], ◌∷◌, ◌≡◌, refl, arith,
}
use usb_hid_wireless_bridge.NumLock.Frame.{pop_from, pop_pending, suppress}
use usb_hid_wireless_bridge.NumLock.Pending.{Alternates, Alternates-enqueue}
use usb_hid_wireless_bridge.NumLock.Invariant.{
  IsValid, is_held, is_waiting, tap-facts, advance-IsValid, observe-IsValid,
}
use usb_hid_wireless_bridge.NumLock.{
  idle, Filter, advance_num_lock_sync_timeout, observe_advanced, observe_num_lock_sync_state,
}

-- The member initialisers of num_lock_sync_filter_t.
abbrev pub fresh : Filter
fresh = record {
  stage = idle;
  num_lock_by_report = [];
  keypad_by_report = [];
  pending_output_states = [];
  previous_num_lock = false;
  previous_keypad = false;
  output_num_lock = false;
  has_num_lock_usage = false;
  inferred_num_lock_state = false;
  inferred_num_lock_valid = false;
  inferred_num_lock_timestamp = 0;
  deadline = 0;
}

-- A report of the device, or a mapping frame, at some time; the pending states of a 23UB are dropped in
-- each frame.
pub data Step (is_23ub : Bool) : Filter → Filter → Type 0 where
  report :
      (f : Filter) (num_lock keypad : Bool) (now : ℕ)
      → now + 20000 < 2 ^ 64
      → Step is_23ub f (observe_num_lock_sync_state f num_lock keypad now)
  frame :
      (f : Filter) (now : ℕ)
      → Step is_23ub f (pop_pending (suppress is_23ub (advance_num_lock_sync_timeout f now)))

pub data Reach (is_23ub : Bool) : Filter → Type 0 where
  start : Reach is_23ub fresh
  next : {f g : Filter} → Reach is_23ub f → Step is_23ub f g → Reach is_23ub g

pop_from-IsValid :
    (xs : List Bool) (f : Filter)
    → f.pending_output_states ≡ xs
    → IsValid f
    → IsValid (pop_from xs f)
pop_from-IsValid [] f e v = v
pop_from-IsValid (x ∷ xs) f e v = ground arith

pop_pending-IsValid : (f : Filter) → IsValid f → IsValid (pop_pending f)
unfolding pop_pending
pop_pending-IsValid f v = pop_from-IsValid f.pending_output_states f refl v

-- What holds of the filter of a 23UB: the host is shown no pressed NumLock.
pub record IsSuppressed (f : Filter) : Type 0 where
  pub shown : f.output_num_lock ≡ false
  pub alternates : Alternates f.output_num_lock f.pending_output_states
  pub held : is_held f.stage ≡ true → f.previous_num_lock ≡ true
  pub waiting : is_waiting f.stage ≡ true → f.deadline ≢ 0
  pub settled : is_waiting f.stage ≡ false → f.deadline ≡ 0

advance-IsSuppressed :
    (f : Filter) (now : ℕ) → IsSuppressed f → IsSuppressed (advance_num_lock_sync_timeout f now)
unfolding advance_num_lock_sync_timeout
advance-IsSuppressed f now v =
    ground (arith, tap-facts f.output_num_lock f.pending_output_states v.alternates)

observe_advanced-IsSuppressed :
    (f : Filter) (num_lock keypad : Bool) (now : ℕ)
    → now + 20000 < 2 ^ 64
    → IsSuppressed f
    → IsSuppressed (observe_advanced f num_lock keypad now)
unfolding observe_advanced
observe_advanced-IsSuppressed f num_lock keypad now h v = ground (
  arith,
  tap-facts f.output_num_lock f.pending_output_states v.alternates,
  Alternates-enqueue f.output_num_lock f.pending_output_states false v.alternates,
)

observe-IsSuppressed :
    (f : Filter) (num_lock keypad : Bool) (now : ℕ)
    → now + 20000 < 2 ^ 64
    → IsSuppressed f
    → IsSuppressed (observe_num_lock_sync_state f num_lock keypad now)
unfolding observe_num_lock_sync_state
observe-IsSuppressed f num_lock keypad now h v =
    observe_advanced-IsSuppressed (advance_num_lock_sync_timeout f now) num_lock keypad now h
      (advance-IsSuppressed f now v)

frame-IsSuppressed : (f : Filter) → IsSuppressed f → IsSuppressed (pop_pending (suppress true f))
unfolding pop_pending
frame-IsSuppressed f v = ground arith

-- What holds of a filter, by whether its device is a 23UB.
abbrev pub IsValidFor : Bool → Filter → Type 0
IsValidFor false f = IsValid f
IsValidFor true f = IsSuppressed f

Step-IsValidFor :
    (is_23ub : Bool) {f g : Filter} → Step is_23ub f g → IsValidFor is_23ub f → IsValidFor is_23ub g
Step-IsValidFor false (report f num_lock keypad now h) v = observe-IsValid f num_lock keypad now h v
Step-IsValidFor false (frame f now) v =
    pop_pending-IsValid (advance_num_lock_sync_timeout f now) (advance-IsValid f now v)
Step-IsValidFor true (report f num_lock keypad now h) v =
    observe-IsSuppressed f num_lock keypad now h v
Step-IsValidFor true (frame f now) v =
    frame-IsSuppressed (advance_num_lock_sync_timeout f now) (advance-IsSuppressed f now v)

-- Every filter that reports and frames lead to, in any order and at any times before 2^64 - 20000, is
-- valid: what the host has still to see alternates and ends pressed only while a press is being passed
-- through, and a withheld tap has a deadline. Of a 23UB, whose states are dropped in each frame, the
-- host is never shown a pressed NumLock instead.
pub Reach-IsValid : (is_23ub : Bool) {f : Filter} → Reach is_23ub f → IsValidFor is_23ub f
Reach-IsValid false start = ground arith
Reach-IsValid true start = ground arith
Reach-IsValid is_23ub (next r s) = Step-IsValidFor is_23ub s (Reach-IsValid is_23ub r)
