-- ===== src/Relay/Table.antt =====
-- The invariant of the table of HID inputs of remapper_dual_b.cc.
use usb_hid_wireless_bridge.Base.{
  ℕ, zero, suc, ◌<◌, ◌≡◌, refl, ◌∙◌, Bool, true, false, not, List, [], ◌∷◌, length, Option, some,
  none, arith, get_elem?, set, get_elem?-set_self, subst, ◌⊎◌, inl, inr, Option-cases, Bool-cases,
}
use usb_hid_wireless_bridge.Relay.{
  Input, registered, is_input, find_first, find_hid_input_state, register_at, register_unless,
  register_hid_input,
}

abbrev pub Absent : ℕ → ℕ → List Input → Type 0
Absent d e [] = Unit
Absent d e (s ∷ ss) = (is_input d e s ≡ false) × Absent d e ss

abbrev pub AtMostOne : ℕ → ℕ → List Input → Type 0
AtMostOne d e [] = Unit
AtMostOne d e (s ∷ ss) =
    ((is_input d e s ≡ true) × Absent d e ss) ⊎ ((is_input d e s ≡ false) × AtMostOne d e ss)

-- No interface of a device is in the table twice.
abbrev pub Distinct : List Input → Type 0
Distinct ss = (d e : ℕ) → AtMostOne d e ss

-- The interface is at place i and nowhere else.
abbrev pub OnlyAt : ℕ → ℕ → ℕ → List Input → Type 0
OnlyAt d e i [] = ⊥
OnlyAt d e zero (s ∷ ss) = (is_input d e s ≡ true) × Absent d e ss
OnlyAt d e (suc i) (s ∷ ss) = (is_input d e s ≡ false) × OnlyAt d e i ss

Absent-AtMostOne : (d e : ℕ) (ss : List Input) → Absent d e ss → AtMostOne d e ss
Absent-AtMostOne d e [] a = tt
Absent-AtMostOne d e (s ∷ ss) a = inr (a.0, Absent-AtMostOne d e ss a.1)

Absent-get :
    (d e i : ℕ) (ss : List Input) (s : Input)
    → Absent d e ss
    → get_elem? ss i ≡ some s
    → is_input d e s ≡ false
Absent-get d e i [] s a g = ground arith
Absent-get d e zero (t ∷ ss) s a g = ground arith
Absent-get d e (suc i) (t ∷ ss) s a g = Absent-get d e i ss s a.1 g

-- Writes that keep an interface where it is, or take it out.
Absent-set :
    (d e i : ℕ) (ss : List Input) (s : Input)
    → Absent d e ss
    → is_input d e s ≡ false
    → Absent d e (set ss i s)
Absent-set d e i [] s a h = tt
Absent-set d e zero (t ∷ ss) s a h = (h, a.1)
Absent-set d e (suc i) (t ∷ ss) s a h = (a.0, Absent-set d e i ss s a.1 h)

pub AtMostOne-set_absent :
    (d e i : ℕ) (ss : List Input) (s : Input)
    → AtMostOne d e ss
    → is_input d e s ≡ false
    → AtMostOne d e (set ss i s)
AtMostOne-set_absent d e i [] s a h = tt
AtMostOne-set_absent d e zero (t ∷ ss) s (inl (y, a)) h = inr (h, Absent-AtMostOne d e ss a)
AtMostOne-set_absent d e zero (t ∷ ss) s (inr (y, a)) h = inr (h, a)
AtMostOne-set_absent d e (suc i) (t ∷ ss) s (inl (y, a)) h = inl (y, Absent-set d e i ss s a h)
AtMostOne-set_absent d e (suc i) (t ∷ ss) s (inr (y, a)) h =
    inr (y, AtMostOne-set_absent d e i ss s a h)

AtMostOne-set_new :
    (d e i : ℕ) (ss : List Input) (s : Input) → Absent d e ss → AtMostOne d e (set ss i s)
AtMostOne-set_new d e i [] s a = tt
AtMostOne-set_new d e zero (t ∷ ss) s a = elim (Bool-cases (is_input d e s)) [
  | inl h ↦ inl (h, a.1)
  | inr h ↦ inr (h, Absent-AtMostOne d e ss a.1)
]
AtMostOne-set_new d e (suc i) (t ∷ ss) s a = inr (a.0, AtMostOne-set_new d e i ss s a.1)

pub AtMostOne-set_same :
    (d e i : ℕ) (ss : List Input) (s t : Input)
    → AtMostOne d e ss
    → get_elem? ss i ≡ some s
    → is_input d e t ≡ is_input d e s
    → AtMostOne d e (set ss i t)
AtMostOne-set_same d e i [] s t a g h = tt
AtMostOne-set_same d e zero (u ∷ ss) s t a g h = ground arith
AtMostOne-set_same d e (suc i) (u ∷ ss) s t (inl (y, a)) g h =
    inl (y, Absent-set d e i ss t a (h ∙ Absent-get d e i ss s a g))
AtMostOne-set_same d e (suc i) (u ∷ ss) s t (inr (y, a)) g h =
    inr (y, AtMostOne-set_same d e i ss s t a g h)

find_first-none : (d e : ℕ) (ss : List Input) → find_first (is_input d e) ss ≡ none → Absent d e ss
unfolding find_first
find_first-none d e [] h = tt
find_first-none d e (s ∷ ss) h = ground (arith, find_first-none d e ss)

pub find_first-some :
    (p : Input → Bool) (ss : List Input) (i : ℕ)
    → find_first p ss ≡ some i
    → (s : Input) × (get_elem? ss i ≡ some s) × (p s ≡ true)
unfolding find_first
find_first-some p [] i h = ground arith
find_first-some p (s ∷ ss) zero h = (s, refl, ground (arith, Option-cases (find_first p ss)))
find_first-some p (s ∷ ss) (suc i) h =
    find_first-some p ss i (ground (arith, Option-cases (find_first p ss)))

pub OnlyAt-get :
    (d e i : ℕ) (ss : List Input) (s : Input)
    → AtMostOne d e ss
    → get_elem? ss i ≡ some s
    → is_input d e s ≡ true
    → OnlyAt d e i ss
OnlyAt-get d e i [] s a g h = ground arith
OnlyAt-get d e zero (t ∷ ss) s a g h = ground arith
OnlyAt-get d e (suc i) (t ∷ ss) s (inl (y, a)) g h = ground (arith, Absent-get d e i ss s a g)
OnlyAt-get d e (suc i) (t ∷ ss) s (inr (y, a)) g h = (y, OnlyAt-get d e i ss s a g h)

get-lt : (i : ℕ) (ss : List Input) (s : Input) → get_elem? ss i ≡ some s → i < length ss
get-lt i [] s h = ground arith
get-lt zero (t ∷ ss) s h = omega arith
get-lt (suc i) (t ∷ ss) s h = omega (arith, get-lt i ss s h)

-- The place that `register_hid_input` returns, and the table after it.
pub register-facts :
    (d e : ℕ) (ss : List Input)
    → Distinct ss
    → let (place, ts) = register_hid_input d e ss in
      Distinct ts
      × ((place ≡ none)
          ⊎ ((i : ℕ) × (s : Input) × (place ≡ some i)
              × (get_elem? ts i ≡ some s)
              × (is_input d e s ≡ true)))
unfolding register_hid_input find_hid_input_state
register-facts d e ss v = by_find (find_first (is_input d e) ss) refl
  where
    new_Distinct : (i : ℕ) → Absent d e ss → Distinct (set ss i (registered d e))
    new_Distinct i a d' e' = elim (Bool-cases (is_input d' e' (registered d e))) [
      | inl h ↦ AtMostOne-set_new d' e' i ss (registered d e) (moved (ground arith) (ground arith))
      | inr h ↦ AtMostOne-set_absent d' e' i ss (registered d e) (v d' e') h
    ]
      where
        moved : d ≡ d' → e ≡ e' → Absent d' e' ss
        moved p q = subst (λ x. Absent x e' ss) p (subst (λ y. Absent d y ss) q a)

    written :
        (i : ℕ)
        → find_first (λ s. not s.active) ss ≡ some i
        → get_elem? (set ss i (registered d e)) i ≡ some (registered d e)
    written i g =
        let (s, h, y) = find_first-some (λ s. not s.active) ss i g in
        get_elem?-set_self ss i (registered d e) (get-lt i ss s h)

    by_free :
        (o : Option ℕ)
        → find_first (λ s. not s.active) ss ≡ o
        → Absent d e ss
        → let (place, ts) = register_at o d e ss in
          Distinct ts
          × ((place ≡ none)
              ⊎ ((i : ℕ) × (s : Input) × (place ≡ some i)
                  × (get_elem? ts i ≡ some s)
                  × (is_input d e s ≡ true)))
    by_free none g a = (v, inl refl)
    by_free (some i) g a =
        (new_Distinct i a, inr (i, registered d e, refl, written i g, ground arith))

    by_find :
        (o : Option ℕ)
        → find_first (is_input d e) ss ≡ o
        → let (place, ts) = register_unless o d e ss in
          Distinct ts
          × ((place ≡ none)
              ⊎ ((i : ℕ) × (s : Input) × (place ≡ some i)
                  × (get_elem? ts i ≡ some s)
                  × (is_input d e s ≡ true)))
    by_find none g = by_free (find_first (λ s. not s.active) ss) refl (find_first-none d e ss g)
    by_find (some i) g =
        let (s, h, y) = find_first-some (is_input d e) ss i g in (v, inr (i, s, refl, h, y))
