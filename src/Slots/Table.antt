-- ===== src/Slots/Table.antt =====
-- The invariant of the slot table of remapper.cc.
use usb_hid_wireless_bridge.Base.{
  ◌⊎◌, inl, inr, ltb, Bool-cases, ℕ, ◌+◌, ◌*◌, ◌^◌, ◌≤◌, ◌<◌, ◌≡◌, refl, Bool, true, false, List,
  [], ◌∷◌, Option, none, some, arith, some,
}
use usb_hid_wireless_bridge.Slots.{
  Slots, max_input_states, prev_state_offset, state_key, find, assign_at, assign_state_slot, get_at,
  get_state_ptr,
}

-- The keys differ, and the slots come in order, the newest highest.
abbrev pub Descends : ℕ → List (ℕ × ℕ) → Type 0
Descends n [] = n ≡ 0
Descends n ((k, v) ∷ m) = (n ≡ v + 1) × (find k m ≡ none) × Descends v m

pub record IsValid (s : Slots) : Type 0 where
  pub bounded : s.used_state_slots ≤ max_input_states
  pub descends : Descends s.used_state_slots s.usage_state_ptr

pub find-lt : (k n v : ℕ) (m : List (ℕ × ℕ)) → Descends n m → find k m ≡ some v → v < n
find-lt k n v [] d e = cc
find-lt k n v ((j, w) ∷ m) d e = ground (arith, find-lt k w v m)

-- Two keys never share a slot.
find-injective :
    (k j n v : ℕ) (m : List (ℕ × ℕ)) → Descends n m → find k m ≡ some v → find j m ≡ some v → k ≡ j
find-injective k j n v [] d e f = cc
find-injective k j n v ((i, w) ∷ m) d e f =
    ground (arith, find-injective k j w v m, find-lt k w v m, find-lt j w v m)

-- Distinct usages, ports and raw flags have distinct keys.
pub state_key-injective :
    {u p v q : ℕ} {a b : Bool}
    → u < 2 ^ 32
    → p < 2 ^ 8
    → v < 2 ^ 32
    → q < 2 ^ 8
    → state_key u p a ≡ state_key v q b
    → (u ≡ v) × (p ≡ q) × (a ≡ b)
state_key-injective h i j k e = ground arith

assign_at-IsValid :
    (o : Option ℕ) (key : ℕ) (s : Slots)
    → find key s.usage_state_ptr ≡ o
    → IsValid s
    → IsValid (assign_at o key s).1
assign_at-IsValid o key s e v = ground arith

-- Assigning a slot keeps the table valid.
pub assign-IsValid :
    (usage hub_port : ℕ) (raw : Bool) (s : Slots)
    → IsValid s
    → IsValid (assign_state_slot usage hub_port raw s).1
unfolding assign_state_slot
assign-IsValid usage hub_port raw s v =
    assign_at-IsValid (find (state_key usage hub_port raw) s.usage_state_ptr)
      (state_key usage hub_port raw) s refl v

-- `assign_state_slot` either answers true and the key has a slot, or answers false, and then the
-- table is unchanged, full and without the key.
pub assign_lem :
    (usage hub_port : ℕ) (raw : Bool) (s : Slots)
    → let key = state_key usage hub_port raw in
      let (done, t) = assign_state_slot usage hub_port raw s in
      ((done ≡ true) × (v : ℕ) × (find key t.usage_state_ptr ≡ some v))
      ⊎ ((done ≡ false)
          × (t ≡ s)
          × (find key s.usage_state_ptr ≡ none)
          × (max_input_states ≤ s.used_state_slots))
unfolding assign_state_slot
assign_lem usage hub_port raw s =
    case (state_key usage hub_port raw) (find (state_key usage hub_port raw) s.usage_state_ptr) refl
  where
    case :
        (key : ℕ) (o : Option ℕ)
        → find key s.usage_state_ptr ≡ o
        → let (done, t) = assign_at o key s in
          ((done ≡ true) × (v : ℕ) × (find key t.usage_state_ptr ≡ some v))
          ⊎ ((done ≡ false)
              × (t ≡ s)
              × (find key s.usage_state_ptr ≡ none)
              × (max_input_states ≤ s.used_state_slots))
    case key (some v) e = inl (refl, v, e)
    case key none e = elim (Bool-cases (ltb s.used_state_slots max_input_states)) [
      | inl h ↦ inl (ground arith, s.used_state_slots, ground arith)
      | inr h ↦ inr (ground arith)
    ]

-- The pointer of a usage, with a table that holds it.
abbrev pub Holds : ℕ → ℕ → Bool → Slots → ℕ → Type 0
Holds usage hub_port raw s slot = find (state_key usage hub_port raw) s.usage_state_ptr ≡ some slot

get_at-facts :
    (o : Option ℕ) (assign : Bool) (key : ℕ) (s : Slots)
    → find key s.usage_state_ptr ≡ o
    → IsValid s
    → let (ptr, t) = get_at o assign key (assign_at o key s) s in
      IsValid t
      × ((get_at o false key (assign_at o key s) s).1 ≡ s)
      × (ptr ≡ find key t.usage_state_ptr)
get_at-facts (some v) assign key s e w = ground arith
get_at-facts none false key s e w = ground arith
get_at-facts none true key s e w = ground (arith, assign_at-IsValid none key s e w)

-- `get_state_ptr` keeps the table valid, changes nothing unless it may assign, and returns the
-- slot that the table then holds for the key.
pub get_state_ptr-facts :
    (usage hub_port : ℕ) (assign raw : Bool) (s : Slots)
    → IsValid s
    → let (ptr, t) = get_state_ptr usage hub_port assign raw s in
      IsValid t
      × ((get_state_ptr usage hub_port false raw s).1 ≡ s)
      × (ptr ≡ find (state_key usage hub_port raw) t.usage_state_ptr)
unfolding get_state_ptr
get_state_ptr-facts usage hub_port assign raw s w =
    get_at-facts (find (state_key usage hub_port raw) s.usage_state_ptr) assign
      (state_key usage hub_port raw) s refl w

-- Calls that assign slots: `assign_state_slot`, and `get_state_ptr` that may assign.
pub data Call : Type 0 where
  assign_slot : ℕ → ℕ → Bool → Call
  get_ptr : ℕ → ℕ → Bool → Bool → Call

abbrev pub run_call : Call → Slots → Slots
run_call (assign_slot usage hub_port raw) s = (assign_state_slot usage hub_port raw s).1
run_call (get_ptr usage hub_port assign_if_absent raw) s =
    (get_state_ptr usage hub_port assign_if_absent raw s).1

unfoldable pub run_calls : List Call → Slots → Slots
run_calls [] s = s
run_calls (c ∷ cs) s = run_calls cs (run_call c s)

-- The table at the start of the program, and when `set_mapping_from_config` has cleared it.
abbrev pub no_slots : Bool → Slots
no_slots updated = record {
  usage_state_ptr = [];
  used_state_slots = 0;
  their_descriptor_updated = updated;
}

run_call-IsValid : (c : Call) (s : Slots) → IsValid s → IsValid (run_call c s)
run_call-IsValid (assign_slot usage hub_port raw) s w = assign-IsValid usage hub_port raw s w
run_call-IsValid (get_ptr usage hub_port assign raw) s w =
    (get_state_ptr-facts usage hub_port assign raw s w).0

run_calls-IsValid : (cs : List Call) (s : Slots) → IsValid s → IsValid (run_calls cs s)
unfolding run_calls
run_calls-IsValid [] s w = w
run_calls-IsValid (c ∷ cs) s w = run_calls-IsValid cs (run_call c s) (run_call-IsValid c s w)

-- Whatever slots are assigned from an empty table on, for usages of 32 bits and ports of 8 bits: a
-- slot lies inside input_state[], and so does the slot of its previous value; and two usages have the
-- same slot only if usage, hub port and raw flag are the same.
pub slots_separate :
    (cs : List Call) (updated : Bool) {u p v q : ℕ} {a b : Bool} (slot : ℕ)
    → u < 2 ^ 32
    → p < 2 ^ 8
    → v < 2 ^ 32
    → q < 2 ^ 8
    → Holds u p a (run_calls cs (no_slots updated)) slot
    → Holds v q b (run_calls cs (no_slots updated)) slot
    → (slot + prev_state_offset < 2 * max_input_states) × (u ≡ v) × (p ≡ q) × (a ≡ b)
slots_separate cs updated {u} {p} {v} {q} {a} {b} slot h i j k e f =
    let s = run_calls cs (no_slots updated) in
    let w = run_calls-IsValid cs (no_slots updated) (ground arith) in
    let same =
      find-injective (state_key u p a) (state_key v q b) s.used_state_slots slot s.usage_state_ptr
        w.descends e f in
    let (x, y, z) = state_key-injective h i j k same in
    (
      omega (
        arith,
        find-lt (state_key u p a) s.used_state_slots slot s.usage_state_ptr w.descends e,
        w.bounded,
      ),
      x,
      y,
      z,
    )
