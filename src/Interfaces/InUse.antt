-- ===== src/Interfaces/InUse.antt =====
-- The mask of the indices in use, digit by digit.
use native.Mathlib.Nat.{zero-div}
use usb_hid_wireless_bridge.Base.{
  ℕ, zero, suc, ◌+◌, ◌-◌, ◌/◌, ◌%◌, ◌^◌, ◌≤◌, ◌<◌, ◌≢◌, ◌⊎◌, inl, inr, Bool, true, false, List, [],
  ◌∷◌, bit_and, bit_or, ◌==◌, ==_iff, ◌≡◌, refl, ap, if◌then◌else◌, arith,
}
use usb_hid_wireless_bridge.Base.Below.{all_below, all_below_holds}
use usb_hid_wireless_bridge.Base.Digits.{or_digit, and_digit}
use usb_hid_wireless_bridge.Base.Each.{Each}
use usb_hid_wireless_bridge.Interfaces.{Interfaces, first_free}

-- Bit i of the mask.
abbrev pub in_use_bit : ℕ → ℕ → ℕ
in_use_bit in_use i = in_use / 2 ^ i % 2

-- An index is at most 31 and, below 31, marked as in use.
pub record Marked (in_use : ℕ) (e : ℕ × ℕ) : Type 0 where
  pub at_most : e.1 ≤ 31
  pub marked : (e.1 ≡ 31) ⊎ (in_use_bit in_use e.1 ≡ 1)

abbrev pub Differ : ℕ × ℕ → ℕ × ℕ → Type 0
Differ e f = (e.1 ≡ 31) ⊎ (e.1 ≢ f.1)

-- No two entries have the same index, unless it is 31.
pub data Distinct : List (ℕ × ℕ) → Type 0 where
  no_entry : Distinct []
  one_entry : {e : ℕ × ℕ} {es : List (ℕ × ℕ)} → Each (Differ e) es → Distinct es → Distinct (e ∷ es)

pub record IsValid (s : Interfaces) : Type 0 where
  pub marked : Each (Marked s.in_use) s.index
  pub distinct : Distinct s.index

-- Powers of two and their complements, digit by digit.
power_table :
    all_below 32 (λ i. all_below 32 (λ j. 2 ^ i / 2 ^ j % 2 == (if j == i then 1 else 0))) ≡ true
unfolding all_below
power_table = refl

complement_table :
    all_below 32
      (λ i. all_below 32 (λ j. (2 ^ 32 - 1 - 2 ^ i) / 2 ^ j % 2 == (if j == i then 0 else 1)))
    ≡ true
unfolding all_below
complement_table = refl

power_digit : (i j : ℕ) → i < 32 → j < 32 → 2 ^ i / 2 ^ j % 2 ≡ (if j == i then 1 else 0)
power_digit i j hi hj =
    (==_iff _ _).0 (all_below_holds 32 _ (all_below_holds 32 _ power_table i hi) j hj)

complement_digit :
    (i j : ℕ) → i < 32 → j < 32 → (2 ^ 32 - 1 - 2 ^ i) / 2 ^ j % 2 ≡ (if j == i then 0 else 1)
complement_digit i j hi hj =
    (==_iff _ _).0 (all_below_holds 32 _ (all_below_holds 32 _ complement_table i hi) j hj)

not_in_use : (in_use i : ℕ) → i < 32 → bit_and (2 ^ i) in_use ≡ 0 → in_use_bit in_use i ≡ 0
not_in_use in_use i h e = ground (
  arith,
  and_digit i (2 ^ i) in_use,
  power_digit i i h h,
  ap (λ (t : ℕ). t / 2 ^ i % 2) e,
  zero-div (2 ^ i),
)

-- The loop stops at an index that is free, or at 31.
pub first_free_lem :
    (in_use n i : ℕ)
    → i + n ≡ 31
    → (first_free in_use n i ≤ 31)
      × ((first_free in_use n i ≡ 31) ⊎ (in_use_bit in_use (first_free in_use n i) ≡ 0))
unfolding first_free
first_free_lem in_use zero i h = (omega arith, inl (omega arith))
first_free_lem in_use (suc n) i h =
    by_case (bit_and (2 ^ i) in_use == 0) refl (first_free_lem in_use n (i + 1) (omega arith))
  where
    by_case :
        (c : Bool)
        → (bit_and (2 ^ i) in_use == 0) ≡ c
        → (first_free in_use n (i + 1) ≤ 31)
          × ((first_free in_use n (i + 1) ≡ 31)
              ⊎ (in_use_bit in_use (first_free in_use n (i + 1)) ≡ 0))
        → ((if c then i else first_free in_use n (i + 1)) ≤ 31)
          × (((if c then i else first_free in_use n (i + 1)) ≡ 31)
              ⊎ (in_use_bit in_use (if c then i else first_free in_use n (i + 1)) ≡ 0))
    by_case true e ih = (omega arith, inr (not_in_use in_use i (omega arith) ((==_iff _ _).0 e)))
    by_case false e ih = ih

-- A bit after another one was set.
pub bit_after_set :
    (in_use i j : ℕ)
    → i < 32
    → j < 32
    → (j ≡ i) ⊎ (in_use_bit in_use j ≡ 1)
    → in_use_bit (bit_or in_use (2 ^ i)) j ≡ 1
bit_after_set in_use i j hi hj h =
    ground (arith, or_digit j in_use (2 ^ i), power_digit i j hi hj, h)

bit_after_clear :
    (in_use i j : ℕ)
    → i < 32
    → j < 32
    → j ≢ i
    → in_use_bit in_use j ≡ 1
    → in_use_bit (bit_and in_use (2 ^ 32 - 1 - 2 ^ i)) j ≡ 1
bit_after_clear in_use i j hi hj n h =
    ground (arith, and_digit j in_use (2 ^ 32 - 1 - 2 ^ i), complement_digit i j hi hj, h)

pub Marked-set :
    (in_use i : ℕ) (e : ℕ × ℕ) → i ≤ 31 → Marked in_use e → Marked (bit_or in_use (2 ^ i)) e
Marked-set in_use i e h m = record { at_most = m.at_most; marked = keep m.marked }
  where
    keep :
        (e.1 ≡ 31) ⊎ (in_use_bit in_use e.1 ≡ 1)
        → (e.1 ≡ 31) ⊎ (in_use_bit (bit_or in_use (2 ^ i)) e.1 ≡ 1)
    keep (inl p) = inl p
    keep (inr p) = inr (bit_after_set in_use i e.1 (omega arith) (omega (arith, m.at_most)) (inr p))

-- A free index differs from all those that are marked.
pub free_differs :
    (in_use interface i : ℕ) (e : ℕ × ℕ)
    → (i ≡ 31) ⊎ (in_use_bit in_use i ≡ 0)
    → Marked in_use e
    → Differ (interface, i) e
free_differs in_use interface i e (inl p) m = inl p
free_differs in_use interface i e (inr p) m = by_mark m.marked
  where
    by_mark : (e.1 ≡ 31) ⊎ (in_use_bit in_use e.1 ≡ 1) → (i ≡ 31) ⊎ (i ≢ e.1)
    by_mark (inl q) = ground arith
    by_mark (inr q) = inr (λ h. omega (arith, ap (λ (t : ℕ). in_use / 2 ^ t % 2) h))

pub Marked-clear :
    (in_use i : ℕ) (e : ℕ × ℕ)
    → i < 32
    → (e.1 ≡ 31) ⊎ (e.1 ≢ i)
    → Marked in_use e
    → Marked (bit_and in_use (2 ^ 32 - 1 - 2 ^ i)) e
Marked-clear in_use i e h o m = record { at_most = m.at_most; marked = keep o m.marked }
  where
    keep :
        (e.1 ≡ 31) ⊎ (e.1 ≢ i)
        → (e.1 ≡ 31) ⊎ (in_use_bit in_use e.1 ≡ 1)
        → (e.1 ≡ 31) ⊎ (in_use_bit (bit_and in_use (2 ^ 32 - 1 - 2 ^ i)) e.1 ≡ 1)
    keep (inl p) q = inl p
    keep (inr n) (inl q) = inl q
    keep (inr n) (inr q) = inr (bit_after_clear in_use i e.1 h (omega (arith, m.at_most)) n q)
