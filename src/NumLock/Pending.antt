-- ===== src/NumLock/Pending.antt =====
-- The deque pending_output_states: what is queued behind the state the host last saw.
use usb_hid_wireless_bridge.Base.{
  Bool, true, false, not, List, [], ◌∷◌, ◌++◌, ◌≡◌, refl, arith, if◌then◌else◌,
}

-- `back()` of a non-empty deque, `d` of an empty one.
abbrev pub last_or : Bool → List Bool → Bool
last_or d [] = d
last_or d (x ∷ xs) = last_or x xs

abbrev pub same : Bool → Bool → Bool
same true b = b
same false b = not b

-- `queue_num_lock_state` on the deque: nothing is queued twice in a row.
unfoldable pub enqueue : Bool → List Bool → Bool → List Bool
enqueue output pending state =
    if same (last_or output pending) state then pending else pending ++ state ∷ []

-- Each queued state differs from the one before it.
abbrev pub Alternates : Bool → List Bool → Type 0
Alternates d [] = Unit
Alternates d (x ∷ xs) = (x ≡ not d) × Alternates x xs

pub last_or-concat : (d : Bool) (xs : List Bool) (b : Bool) → last_or d (xs ++ b ∷ []) ≡ b
last_or-concat d [] b = refl
last_or-concat d (x ∷ xs) b = last_or-concat x xs b

Alternates-concat :
    (d : Bool) (xs : List Bool) (b : Bool)
    → Alternates d xs
    → b ≡ not (last_or d xs)
    → Alternates d (xs ++ b ∷ [])
Alternates-concat d [] b h e = (e, tt)
Alternates-concat d (x ∷ xs) b h e = (h.0, Alternates-concat x xs b h.1 e)

same-not : (a b : Bool) → same a b ≡ false → b ≡ not a
same-not true b h = ground arith
same-not false b h = ground arith

same-eq : (a b : Bool) → same a b ≡ true → a ≡ b
same-eq true b h = ground arith
same-eq false b h = ground arith

pub last_or-enqueue : (d : Bool) (xs : List Bool) (b : Bool) → last_or d (enqueue d xs b) ≡ b
unfolding enqueue
last_or-enqueue d xs b = ground (arith, last_or-concat d xs b, same-eq (last_or d xs) b)

pub Alternates-enqueue :
    (d : Bool) (xs : List Bool) (b : Bool) → Alternates d xs → Alternates d (enqueue d xs b)
unfolding enqueue
Alternates-enqueue d xs b h = ground (arith, Alternates-concat d xs b h, same-not (last_or d xs) b)

-- Where the last state differs, queueing appends.
pub enqueue_append :
    (d : Bool) (xs : List Bool) (b : Bool) → last_or d xs ≡ not b → enqueue d xs b ≡ xs ++ b ∷ []
unfolding enqueue
enqueue_append d xs true h = ground arith
enqueue_append d xs false h = ground arith
