-- ===== src/NumLock/Frame.antt =====
-- What a mapping frame does with the filters: `apply_filtered_num_lock_states`, and the reading of
-- the inferred NumLock state over all interfaces.
use usb_hid_wireless_bridge.Base.{
  Bool-cases, inr, ℕ, zero, suc, ◌⊎◌, inl, ◌-◌, ◌/◌, ◌≤◌, ◌^◌, Bool, true, false, not, ◌&&◌, ◌||◌,
  List, [], ◌∷◌, ◌++◌, ◌≡◌, refl, arith, if◌then◌else◌, ◌==◌, leb, Option, none, some, bit_and,
  bit_or, length,
}
use usb_hid_wireless_bridge.NumLock.Pending.{last_or}
use usb_hid_wireless_bridge.NumLock.{Filter, advance_num_lock_sync_timeout}

-- The int32_t words of the NumLock usage, by hub port and raw flag; `none` where
-- `get_state_ptr` finds no slot.
abbrev pub Words : Type 0
Words = ℕ → Bool → Option ℕ

-- The globals that the function reads; a device is the upper byte of an interface.
pub record Wiring : Type 0 where
  pub monitor_enabled : Bool
  pub hub_port : ℕ → ℕ  -- by device; 0 for a missing key
  pub interface_index : ℕ → ℕ  -- by interface; below 32
  pub realforce_23ub : ℕ → Bool  -- by device

-- `monitor_usage(NUM_LOCK_USAGE, value, hub_port)` calls, in order.
pub record World : Type 0 where
  pub words : Words
  pub monitored : List (Bool × ℕ)

abbrev pub hub_port_none : ℕ
hub_port_none = 255

-- `on ? (*state | interface_bit) : (*state & ~interface_bit)`
abbrev pub put_interface_bit : Bool → ℕ → ℕ → ℕ
put_interface_bit on bit word = if on then bit_or word bit else bit_and word (2 ^ 32 - 1 - bit)

abbrev pub write_word : Bool → ℕ → ℕ → Bool → Words → Words
write_word on bit port raw w p r = elim (w p r) [
  | none ↦ none
  | some v ↦
      if p == port && (if r then raw else not raw)
      then some (put_interface_bit on bit v)
      else some v
]

-- The body of the loop `for (bool raw : { false, true })`.
abbrev pub write_words : Bool → ℕ → ℕ → Bool → Words → Words
write_words on bit hub_port raw w =
    let w0 = write_word on bit 0 raw w in
    if hub_port == hub_port_none then w0 else write_word on bit hub_port raw w0

-- `pending_output_states.clear(); output_num_lock = false;` for a 23UB
abbrev pub suppress : Bool → Filter → Filter
suppress is_23ub f =
    if is_23ub then record f { pending_output_states = []; output_num_lock = false } else f

abbrev pub pop_from : List Bool → Filter → Filter
pop_from [] f = f
pop_from (b ∷ bs) f = record f { output_num_lock = b; pending_output_states = bs }

-- One state goes to the host in each frame.
unfoldable pub pop_pending : Filter → Filter
pop_pending f = pop_from f.pending_output_states f

abbrev pub monitored_by : List Bool → Bool → ℕ → List (Bool × ℕ)
monitored_by [] enabled port = []
monitored_by (b ∷ bs) enabled port = if enabled then (b, port) ∷ [] else []

-- The body of the loop over `num_lock_sync_filters`.
unfoldable pub apply_filter : Wiring → ℕ → World → ℕ → Filter → World × Filter
unfolding pop_pending
apply_filter k now w interface f =
    let device = interface / 256 in
    let f' = suppress (k.realforce_23ub device) (advance_num_lock_sync_timeout f now) in
    let g = pop_pending f' in
    let port = k.hub_port device in
    let bit = 2 ^ k.interface_index interface in
    (
      record {
        words =
            write_words g.output_num_lock bit port true
              (write_words g.output_num_lock bit port false w.words);
        monitored = w.monitored ++ monitored_by f'.pending_output_states k.monitor_enabled port;
      },
      g,
    )

unfoldable pub apply_filtered_num_lock_states :
    Wiring → ℕ → World → List (ℕ × Filter) → World × List (ℕ × Filter)
unfolding apply_filter
apply_filtered_num_lock_states k now w [] = (w, [])
apply_filtered_num_lock_states k now w ((interface, f) ∷ fs) =
    let (w', f') = apply_filter k now w interface f in
    let (w'', fs') = apply_filtered_num_lock_states k now w' fs in (w'', (interface, f') ∷ fs')

-- `get_inferred_num_lock_state`: `found`, `state` and `latest_timestamp`.
pub record Inferred : Type 0 where
  pub found : Bool
  pub state : Bool
  pub latest : ℕ

abbrev pub consider : Inferred → Filter → Inferred
consider i f =
    if f.inferred_num_lock_valid && leb i.latest f.inferred_num_lock_timestamp
    then record {
      found = true;
      state = f.inferred_num_lock_state;
      latest = f.inferred_num_lock_timestamp;
    }
    else i

unfoldable pub get_inferred_from : Inferred → List (ℕ × Filter) → Inferred
get_inferred_from i [] = i
get_inferred_from i ((_, f) ∷ fs) = get_inferred_from (consider i f) fs

abbrev pub get_inferred_num_lock_state : Bool → List (ℕ × Filter) → Inferred
get_inferred_num_lock_state state =
    get_inferred_from (record { found = false; state = state; latest = 0 })

abbrev pub any_active : List (ℕ × Bool) → Bool
any_active [] = false
any_active ((_, b) ∷ bs) = b || any_active bs

unfoldable pub physical_keypad_is_active : List (ℕ × Filter) → Bool
physical_keypad_is_active [] = false
physical_keypad_is_active ((_, f) ∷ fs) =
    any_active f.keypad_by_report || physical_keypad_is_active fs

-- `n` frames in a row with nothing new queued: the states that the host sees, and the filter.
unfoldable pub frames : ℕ → Filter → List Bool × Filter
unfolding pop_pending
frames zero f = ([], f)
frames (suc n) f =
    let g = pop_pending f in let (seen, h) = frames n g in (g.output_num_lock ∷ seen, h)

drain :
    (xs : List Bool) (f : Filter)
    → f.pending_output_states ≡ xs
    → frames (length xs) f ≡ (
      xs,
      record f { output_num_lock = last_or f.output_num_lock xs; pending_output_states = [] },
    )
unfolding frames
drain [] f e = ground arith
drain (x ∷ xs) f e =
    ground (arith, drain xs (record f { output_num_lock = x; pending_output_states = xs }) refl)

-- As many frames as states are queued show the host exactly the queued states, in order and one
-- in each frame, and leave the queue empty, the last of them shown and all else unchanged.
pub frames_drain :
    (f : Filter)
    → frames (length f.pending_output_states) f ≡ (
      f.pending_output_states,
      record f {
        output_num_lock = last_or f.output_num_lock f.pending_output_states;
        pending_output_states = [];
      },
    )
frames_drain f = drain f.pending_output_states f refl

-- The latest of the readings so far, whatever the order in which the map yields the filters.
abbrev pub IsLatest : Inferred → List (ℕ × Filter) → Type 0
IsLatest i [] = Unit
IsLatest i ((_, f) ∷ fs) =
    ((f.inferred_num_lock_valid ≡ false)
      ⊎ ((i.found ≡ true) × (f.inferred_num_lock_timestamp ≤ i.latest)))
    × IsLatest i fs

abbrev pub ComesFrom : Inferred → List (ℕ × Filter) → Type 0
ComesFrom i [] = ⊥
ComesFrom i ((_, f) ∷ fs) =
    ((f.inferred_num_lock_valid ≡ true)
      × (i.state ≡ f.inferred_num_lock_state)
      × (i.latest ≡ f.inferred_num_lock_timestamp))
    ⊎ ComesFrom i fs

inferred_grows :
    (i : Inferred) (fs : List (ℕ × Filter))
    → (i.latest ≤ (get_inferred_from i fs).latest)
      × (i.found ≡ true → (get_inferred_from i fs).found ≡ true)
unfolding get_inferred_from
inferred_grows i [] = ground arith
inferred_grows i ((_, f) ∷ fs) = ground (arith, inferred_grows (consider i f) fs)

inferred-IsLatest :
    (i : Inferred) (fs : List (ℕ × Filter))
    → (i.found ≡ false → i.latest ≡ 0)
    → IsLatest (get_inferred_from i fs) fs
unfolding get_inferred_from
inferred-IsLatest i [] fresh = tt
inferred-IsLatest i ((_, f) ∷ fs) fresh =
    ground (arith, inferred_grows (consider i f) fs, inferred-IsLatest (consider i f) fs)

inferred_none :
    (i : Inferred) (fs : List (ℕ × Filter))
    → (get_inferred_from i fs).found ≡ false
    → (get_inferred_from i fs).state ≡ i.state
unfolding get_inferred_from
inferred_none i [] h = refl
inferred_none i ((_, f) ∷ fs) h =
    ground (arith, inferred_grows (consider i f) fs, inferred_none (consider i f) fs)

inferred-ComesFrom :
    (i : Inferred) (fs : List (ℕ × Filter))
    → (get_inferred_from i fs ≡ i) ⊎ ComesFrom (get_inferred_from i fs) fs
unfolding get_inferred_from
inferred-ComesFrom i [] = inl refl
inferred-ComesFrom i ((_, f) ∷ fs) = ground (arith, inferred-ComesFrom (consider i f) fs)

found_or_not :
    (i : Inferred) (fs : List (ℕ × Filter))
    → i.found ≡ false
    → let j = get_inferred_from i fs in
      ((j.found ≡ true) × ComesFrom j fs) ⊎ ((j.found ≡ false) × (j.state ≡ i.state))
found_or_not i fs h = elim (Bool-cases (get_inferred_from i fs).found) [
  | inl e ↦ inl (e, ground (arith, inferred-ComesFrom i fs))
  | inr e ↦ inr (e, inferred_none i fs e)
]

-- The inferred NumLock state is found exactly if some interface has a valid one, and then it is
-- the state of an interface whose timestamp no valid interface's exceeds; if none is found the
-- caller's state is left as it was.
pub get_inferred_lem :
    (state : Bool) (fs : List (ℕ × Filter))
    → let i = get_inferred_num_lock_state state fs in
      IsLatest i fs
      × (((i.found ≡ true) × ComesFrom i fs) ⊎ ((i.found ≡ false) × (i.state ≡ state)))
get_inferred_lem state fs = (inferred-IsLatest _ fs (λ _. refl), found_or_not _ fs refl)
