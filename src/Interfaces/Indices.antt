-- ===== src/Interfaces/Indices.antt =====
-- Which interfaces share an index.
use usb_hid_wireless_bridge.Base.{
  ℕ, ◌-◌, ◌^◌, ◌≤◌, ◌≢◌, ◌⊎◌, inl, inr, Bool, true, false, Option, none, some, List, [], ◌∷◌,
  bit_and, ◌==◌, ◌≡◌, refl, sym, subst, if◌then◌else◌, arith,
}
use usb_hid_wireless_bridge.Interfaces.InUse.{
  in_use_bit, Marked, Differ, Distinct, no_entry, one_entry, IsValid, first_free_lem, bit_after_set,
  Marked-set, free_differs, Marked-clear,
}
use usb_hid_wireless_bridge.Base.Each.{Each, none_left, and_then, Each-map, Each-zip}
use usb_hid_wireless_bridge.Interfaces.{
  Interfaces, find_index, first_free, assign_unless, assign_interface_index, erase, index_or_zero,
  release_interface_index,
}

assign-IsValid :
    (interface : ℕ) (s : Interfaces) → IsValid s → IsValid (assign_interface_index interface s)
unfolding assign_interface_index
assign-IsValid interface s v = by_case (find_index interface s.index)
  where
    i : ℕ
    i = first_free s.in_use 31 0

    free : (i ≤ 31) × ((i ≡ 31) ⊎ (in_use_bit s.in_use i ≡ 0))
    free = first_free_lem s.in_use 31 0 (omega arith)

    by_case : (o : Option ℕ) → IsValid (assign_unless o interface s)
    by_case (some j) = v
    by_case none = record {
      marked =
          and_then
            record {
              at_most = free.0;
              marked = inr (
                  bit_after_set s.in_use i i (omega (arith, free.0)) (omega (arith, free.0))
                    (inl refl));
            }
            (Each-map (λ e m. Marked-set s.in_use i e free.0 m) v.marked);
      distinct =
          one_entry (Each-map (λ e m. free_differs s.in_use interface i e free.1 m) v.marked)
            v.distinct;
    }

Each-erase :
    {P : ℕ × ℕ → Type 0} (interface : ℕ) (es : List (ℕ × ℕ))
    → Each P es
    → Each P (erase interface es)
unfolding erase
Each-erase interface [] none_left = none_left
Each-erase {P} interface (e ∷ es) (and_then p ps) =
    by_case (e.0 == interface) (Each-erase interface es ps)
  where
    by_case :
        (c : Bool)
        → Each P (erase interface es)
        → Each P (if c then erase interface es else e ∷ erase interface es)
    by_case true ih = ih
    by_case false ih = and_then p ih

Distinct-erase : (interface : ℕ) (es : List (ℕ × ℕ)) → Distinct es → Distinct (erase interface es)
unfolding erase
Distinct-erase interface [] no_entry = no_entry
Distinct-erase interface (e ∷ es) (one_entry p ps) =
    by_case (e.0 == interface) (Distinct-erase interface es ps)
  where
    by_case :
        (c : Bool)
        → Distinct (erase interface es)
        → Distinct (if c then erase interface es else e ∷ erase interface es)
    by_case true ih = ih
    by_case false ih = one_entry (Each-erase interface es p) ih

-- An index at most 31 that the other entries do not have, unless theirs is 31.
abbrev Others : ℕ → List (ℕ × ℕ) → Type 0
Others i es = Each (λ e. (e.1 ≡ 31) ⊎ (e.1 ≢ i)) es

passed_on : (a b i : ℕ) → a ≡ i → (a ≡ 31) ⊎ (a ≢ b) → (b ≡ 31) ⊎ (b ≢ i)
passed_on a b i e (inl p) = ground arith
passed_on a b i e (inr n) = inr (λ h. n (omega arith))

found_differs :
    (interface i : ℕ) (e : ℕ × ℕ) (es : List (ℕ × ℕ))
    → Each (Differ e) es
    → find_index interface es ≡ some i
    → (e.1 ≡ 31) ⊎ (e.1 ≢ i)
unfolding find_index
found_differs interface i e [] none_left h = absurd (ground arith)
found_differs interface i e (f ∷ fs) (and_then d ds) h =
    by_case (f.0 == interface) h (found_differs interface i e fs ds)
  where
    by_case :
        (c : Bool)
        → (if c then some f.1 else find_index interface fs) ≡ some i
        → (find_index interface fs ≡ some i → (e.1 ≡ 31) ⊎ (e.1 ≢ i))
        → (e.1 ≡ 31) ⊎ (e.1 ≢ i)
    by_case true h ih = subst (λ (k : ℕ). (e.1 ≡ 31) ⊎ (e.1 ≢ k)) (ground (arith, h)) d
    by_case false h ih = ih h

Others-of_found :
    (interface i : ℕ) (es : List (ℕ × ℕ))
    → Distinct es
    → find_index interface es ≡ some i
    → Others i (erase interface es)
unfolding find_index erase
Others-of_found interface i [] no_entry h = none_left
Others-of_found interface i (e ∷ es) (one_entry p ps) h =
    by_case (e.0 == interface) h (Others-of_found interface i es ps)
  where
    by_case :
        (c : Bool)
        → (if c then some e.1 else find_index interface es) ≡ some i
        → (find_index interface es ≡ some i → Others i (erase interface es))
        → Others i (if c then erase interface es else e ∷ erase interface es)
    by_case true h ih =
        Each-map (λ f d. passed_on e.1 f.1 i (ground (arith, h)) d) (Each-erase interface es p)
    by_case false h ih = and_then (found_differs interface i e es p h) (ih h)

found_at_most :
    (interface i in_use : ℕ) (es : List (ℕ × ℕ))
    → Each (Marked in_use) es
    → find_index interface es ≡ some i
    → i ≤ 31
unfolding find_index
found_at_most interface i in_use [] none_left h = absurd (ground arith)
found_at_most interface i in_use (f ∷ fs) (and_then m ms) h =
    by_case (f.0 == interface) h (found_at_most interface i in_use fs ms)
  where
    by_case :
        (c : Bool)
        → (if c then some f.1 else find_index interface fs) ≡ some i
        → (find_index interface fs ≡ some i → i ≤ 31)
        → i ≤ 31
    by_case true h ih = ground (arith, h, m.at_most)
    by_case false h ih = ih h

release-IsValid :
    (interface i : ℕ) (s : Interfaces)
    → IsValid s
    → find_index interface s.index ≡ some i
    → IsValid (release_interface_index interface s)
unfolding release_interface_index
release-IsValid interface i s v h = record {
  marked =
      subst
        (λ (o : Option ℕ).
          Each (Marked (bit_and s.in_use (2 ^ 32 - 1 - 2 ^ index_or_zero o)))
            (erase interface s.index))
        (sym h)
        (Each-zip
          (λ e o m.
            Marked-clear s.in_use i e
              (omega (arith, found_at_most interface i s.in_use s.index v.marked h)) o m)
          (Others-of_found interface i s.index v.distinct h)
          (Each-erase interface s.index v.marked));
  distinct = Distinct-erase interface s.index v.distinct;
}

-- The states that connecting interfaces and taking away known ones lead to.
pub data Reach : Interfaces → Type 0 where
  none_yet : Reach record { index = []; in_use = 0 }
  assigned :
      {s : Interfaces} → (interface : ℕ) → Reach s → Reach (assign_interface_index interface s)
  released :
      {s : Interfaces}
      → (interface i : ℕ) → find_index interface s.index ≡ some i
      → Reach s
      → Reach (release_interface_index interface s)

-- However interfaces come and go, every index is at most 31, all below 31 are marked as in use, and
-- two interfaces have the same index only if it is 31.
pub interfaces-IsValid : (s : Interfaces) → Reach s → IsValid s
interfaces-IsValid s none_yet = record { marked = none_left; distinct = no_entry }
interfaces-IsValid s (assigned {s = t} interface r) =
    assign-IsValid interface t (interfaces-IsValid t r)
interfaces-IsValid s (released {s = t} interface i h r) =
    release-IsValid interface i t (interfaces-IsValid t r) h
