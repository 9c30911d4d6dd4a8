-- ===== src/Startup/Timing.antt =====
-- When `should_start` answers true, over every sequence of calls since boot.
use usb_hid_wireless_bridge.Base.{
  ℕ, suc, ◌≤◌, ◌≡◌, refl, Bool, true, false, ◌&&◌, ◌⊎◌, List, [], ◌∷◌, ◌++◌, arith,
}
use usb_hid_wireless_bridge.Startup.{
  Sync, Poll, initial, ready_us, idle_us, elapsed, should_start, run,
}

abbrev pub count_true : List Bool → ℕ
count_true [] = 0
count_true (true ∷ bs) = suc (count_true bs)
count_true (false ∷ bs) = count_true bs

run_after_start : (s : Sync) (ps : List Poll) → s.started ≡ true → count_true (run s ps).1 ≡ 0
unfolding run should_start
run_after_start s [] h = refl
run_after_start s (p ∷ ps) h = ground (arith, run_after_start s ps h)

started_of_fire :
    (s : Sync) (p : Poll) → (should_start s p).1 ≡ true → (should_start s p).0.started ≡ true
unfolding should_start
started_of_fire s p h = ground arith

-- Over any sequence of calls, from any state, at most one call answers true.
pub run_fires_once : (s : Sync) (ps : List Poll) → count_true (run s ps).1 ≤ 1
unfolding run
run_fires_once s [] = omega arith
run_fires_once s (p ∷ ps) = ground (
  arith,
  started_of_fire s p,
  run_after_start (should_start s p).0 ps,
  run_fires_once (should_start s p).0 ps,
)

abbrev pub is_ready : Poll → Bool
is_ready p = p.host_ready && p.keypad_present

abbrev pub is_quiet : Poll → Bool
is_quiet p = is_ready p && p.keyboard_idle

-- Polls are listed newest first: one of them was at time `t`, and it and all since pass the test.
abbrev pub HeldSince : (Poll → Bool) → List Poll → ℕ → Type 0
HeldSince test [] t = ⊥
HeldSince test (p ∷ ps) t = (test p ≡ true) × ((p.now ≡ t) ⊎ HeldSince test ps t)

-- The state that the polls of a history, newest first, leave.
unfoldable pub after : List Poll → Sync
after [] = initial
after (p ∷ ps) = (should_start (after ps) p).0

-- What the two observed times mean until the one true answer.
record IsFaithful (s : Sync) (history : List Poll) : Type 0 where
  ready : s.started ≡ false → s.ready_observed ≡ true → HeldSince is_ready history s.ready_since
  idle : s.started ≡ false → s.idle_observed ≡ true → HeldSince is_quiet history s.idle_since

should_start-IsFaithful :
    (s : Sync) (p : Poll) (ps : List Poll)
    → IsFaithful s ps
    → IsFaithful (should_start s p).0 (p ∷ ps)
unfolding should_start
should_start-IsFaithful s p ps v = record { ready = ground arith; idle = ground arith }

after-IsFaithful : (ps : List Poll) → IsFaithful (after ps) ps
unfolding after
after-IsFaithful [] = ground arith
after-IsFaithful (p ∷ ps) = should_start-IsFaithful (after ps) p ps (after-IsFaithful ps)

fire_needs :
    (s : Sync) (p : Poll) (ps : List Poll)
    → IsFaithful s ps
    → (should_start s p).1 ≡ true
    → (t u : ℕ) × HeldSince is_ready (p ∷ ps) t
      × (ready_us ≤ elapsed p.now t)
      × HeldSince is_quiet (p ∷ ps) u
      × (idle_us ≤ elapsed p.now u)
      × (p.queues_idle ≡ true)
unfolding should_start
fire_needs s p ps v h = (
  (should_start s p).0.ready_since,
  (should_start s p).0.idle_since,
  ground arith,
  ground arith,
  ground arith,
  ground arith,
  ground arith,
)

-- Whatever was polled since boot (newest first in `ps`), an answer of true at poll `p` means that
-- the queues are idle, that the host was ready and the keypad present at every poll of a stretch
-- ending in `p` which began at least 2 s earlier, and that the keyboard was idle too at every poll
-- of a stretch ending in `p` which began at least 0.2 s earlier.
pub should_start_needs :
    (p : Poll) (ps : List Poll)
    → (should_start (after ps) p).1 ≡ true
    → (t u : ℕ) × HeldSince is_ready (p ∷ ps) t
      × (ready_us ≤ elapsed p.now t)
      × HeldSince is_quiet (p ∷ ps) u
      × (idle_us ≤ elapsed p.now u)
      × (p.queues_idle ≡ true)
should_start_needs p ps = fire_needs (after ps) p ps (after-IsFaithful ps)

abbrev pub AllQuiet : List Poll → Type 0
AllQuiet [] = Unit
AllQuiet (p ∷ ps) = (is_quiet p ≡ true) × AllQuiet ps

-- Once the two stretches have begun they go on while every poll is quiet.
fires_by_then :
    (s : Sync) (ps : List Poll) (q : Poll)
    → (s.started ≡ true) ⊎ ((s.ready_observed ≡ true) × (s.idle_observed ≡ true))
    → AllQuiet (ps ++ (q ∷ []))
    → q.queues_idle ≡ true
    → ready_us ≤ elapsed q.now s.ready_since
    → idle_us ≤ elapsed q.now s.idle_since
    → (run s (ps ++ (q ∷ []))).0.started ≡ true
unfolding run should_start
fires_by_then s [] q c h i r d = ground arith
fires_by_then s (p ∷ ps) q c h i r d = ground (arith, fires_by_then (should_start s p).0 ps q)

-- From boot, if the host is ready, the keypad present and the keyboard idle at every poll, then
-- the sequence has been started by the first poll with idle queues that comes 2 s or more after
-- the first poll.
pub quiet_boot_starts :
    (p : Poll) (ps : List Poll) (q : Poll)
    → AllQuiet (p ∷ (ps ++ (q ∷ [])))
    → q.queues_idle ≡ true
    → ready_us ≤ elapsed q.now p.now
    → (run initial (p ∷ (ps ++ (q ∷ [])))).0.started ≡ true
unfolding run should_start
quiet_boot_starts p ps q h i r = ground (arith, fires_by_then (should_start initial p).0 ps q)
