-- ===== src/Aggregate/Sums.antt =====
-- The fields of a queued report after `aggregate_relative`.
use usb_hid_wireless_bridge.Base.{
  ℕ, Bool, true, false, ◌&&◌, ◌||◌, not, List, [], ◌∷◌, length, if◌then◌else◌, ◌≡◌, refl, sym, ap,
  ◌∙◌, arith,
}
use usb_hid_wireless_bridge.Base.Int.{ℤ, ◌+ℤ◌, ltb_ℤ}
use usb_hid_wireless_bridge.Bits.Fields.{IsBytes}
use usb_hid_wireless_bridge.Bits.RoundTrip.{Apart}
use usb_hid_wireless_bridge.Base.Each.{Each, none_left, and_then, Each-head, Each-tail, Each-zip}
use usb_hid_wireless_bridge.Usages.{UsageDef}
use usb_hid_wireless_bridge.Aggregate.{
  field_of, in_range, all_in_range, add_field, add_fields, aggregate_relative,
}
use usb_hid_wireless_bridge.Aggregate.Field.{
  Proper, Separate, apart_from, Spared, Ready, Ready-add_field, field_of-add_field,
  field_of-add_field-Apart,
}

-- The value of a field after the reports were added up, if they were.
abbrev pub Sum : Bool → List ℕ → List ℕ → List ℕ → UsageDef → Type 0
Sum added xs ys out u =
    field_of out u
    ≡ (if added && u.is_relative then field_of ys u +ℤ field_of xs u else field_of xs u)

-- A field that no relative field of `us` shares a bit with.
add_fields_keep :
    (us : List UsageDef) (v : UsageDef) (xs ys : List ℕ)
    → Ready (v ∷ us) xs
    → Each (λ u. Spared u v) us
    → field_of (add_fields us xs ys) v ≡ field_of xs v
unfolding add_fields
add_fields_keep [] v xs ys r s = refl
add_fields_keep (u ∷ us) v xs ys r s =
    let left = and_then (Each-head r.proper) (Each-tail (Each-tail r.proper)) in
    step u.is_relative (Each-head s)
      (add_fields_keep us v (add_field u xs ys) ys (Ready-add_field u xs ys r.is_bytes left)
        (Each-tail s))
      (add_fields_keep us v xs ys record { is_bytes = r.is_bytes; proper = left } (Each-tail s))
  where
    step :
        (c : Bool)
        → (c ≡ true → Apart u.bitpos u.size v.bitpos v.size)
        → field_of (add_fields us (add_field u xs ys) ys) v ≡ field_of (add_field u xs ys) v
        → field_of (add_fields us xs ys) v ≡ field_of xs v
        → field_of (if c then add_fields us (add_field u xs ys) ys else add_fields us xs ys) v
          ≡ field_of xs v
    step true a written kept =
        written
        ∙ field_of-add_field-Apart u v xs ys r.is_bytes (Each-head (Each-tail r.proper))
            (Each-head r.proper) (a refl)
    step false a written kept = kept

-- The fields of `us` after one relative field apart from them was added to.
kept_by_one :
    (u : UsageDef) {us : List UsageDef} (xs ys : List ℕ)
    → Ready (u ∷ us) xs
    → Each (λ v. Apart u.bitpos u.size v.bitpos v.size) us
    → Each (λ v. field_of (add_field u xs ys) v ≡ field_of xs v) us
kept_by_one u xs ys r s =
    Each-zip (λ v a p. field_of-add_field-Apart u v xs ys r.is_bytes (Each-head r.proper) p a) s
      (Each-tail r.proper)

abbrev InRange : List ℕ → List ℕ → UsageDef → Type 0
InRange xs ys u = u.is_relative ≡ true → in_range xs ys u ≡ true

all_in_range-Each :
    (us : List UsageDef) (xs ys : List ℕ) → all_in_range us xs ys ≡ true → Each (InRange xs ys) us
unfolding all_in_range
all_in_range-Each [] xs ys h = none_left
all_in_range-Each (u ∷ us) xs ys h =
    and_then (λ e. ground arith) (all_in_range-Each us xs ys (ground arith))

InRange-Kept :
    (xs xs' ys : List ℕ) (u : UsageDef)
    → field_of xs' u ≡ field_of xs u
    → InRange xs ys u
    → InRange xs' ys u
InRange-Kept xs xs' ys u e r h =
    ap
      (λ (z : ℤ). not (
        ltb_ℤ (field_of ys u +ℤ z) u.logical_minimum
        || ltb_ℤ u.logical_maximum (field_of ys u +ℤ z)))
      e
    ∙ r h

-- The rest of the loop, behind a usage that is relative or not.
abbrev rest : UsageDef → List UsageDef → List ℕ → List ℕ → Bool → List ℕ
rest u us xs ys c = if c then add_fields us (add_field u xs ys) ys else add_fields us xs ys

abbrev Kept : UsageDef → List UsageDef → List ℕ → List ℕ → Type 0
Kept u us xs ys = Each (λ v. field_of (add_field u xs ys) v ≡ field_of xs v) us

Sum-Kept :
    (xs xs' ys out : List ℕ) (u : UsageDef)
    → field_of xs' u ≡ field_of xs u
    → Sum true xs' ys out u
    → Sum true xs ys out u
Sum-Kept xs xs' ys out u e h = h ∙ ap (λ (z : ℤ). if u.is_relative then field_of ys u +ℤ z else z) e

add_fields-Sum :
    (us : List UsageDef) (xs ys : List ℕ)
    → Ready us xs
    → Separate us
    → Each (InRange xs ys) us
    → Each (Sum true xs ys (add_fields us xs ys)) us
unfolding add_fields
add_fields-Sum [] xs ys r s i = none_left
add_fields-Sum (u ∷ us) xs ys r (apart_from from to s) i =
    let r' = Ready-add_field u xs ys r.is_bytes r.proper in
    step u.is_relative refl (add_fields_keep us u (add_field u xs ys) ys r' to)
      (add_fields_keep us u xs ys r to)
      (λ k.
        add_fields-Sum us (add_field u xs ys) ys
          record { is_bytes = r'.is_bytes; proper = Each-tail r'.proper } s
          (Each-zip (λ v e j. InRange-Kept xs (add_field u xs ys) ys v e j) k (Each-tail i)))
      (add_fields-Sum us xs ys record { is_bytes = r.is_bytes; proper = Each-tail r.proper } s
        (Each-tail i))
  where
    step :
        (c : Bool)
        → u.is_relative ≡ c
        → field_of (rest u us xs ys true) u ≡ field_of (add_field u xs ys) u
        → field_of (rest u us xs ys false) u ≡ field_of xs u
        → (Kept u us xs ys → Each (Sum true (add_field u xs ys) ys (rest u us xs ys true)) us)
        → Each (Sum true xs ys (rest u us xs ys false)) us
        → Each (Sum true xs ys (rest u us xs ys c)) (u ∷ us)
    step true e written kept t f =
        let k = kept_by_one u xs ys r (Each-zip (λ v a a'. a e) from from) in
        and_then
          (written
            ∙ field_of-add_field u xs ys r.is_bytes (Each-head r.proper) (Each-head i e)
            ∙ ap (λ (c : Bool). if c then field_of ys u +ℤ field_of xs u else field_of xs u)
                (sym e))
          (Each-zip (Sum-Kept xs (add_field u xs ys) ys (rest u us xs ys true)) k (t k))
    step false e written kept t f =
        and_then
          (kept
            ∙ ap (λ (c : Bool). if c then field_of ys u +ℤ field_of xs u else field_of xs u)
                (sym e))
          f

Each-same : (us : List UsageDef) (xs ys : List ℕ) → Each (Sum false xs ys xs) us
Each-same [] xs ys = none_left
Each-same (u ∷ us) xs ys = and_then refl (Each-same us xs ys)

-- If every usage lies in the report, has 1 to 31 bits, can hold its logical range and shares no bit
-- with a relative one: when the answer is true, every relative field of the queued report holds the sum of its two
-- values and every other field its old value; when it is false, every field has its old value.
pub aggregate_sums :
    (us : List UsageDef) (prev_report report : List ℕ)
    → IsBytes prev_report
    → Each (Proper (length prev_report)) us
    → Separate us
    → let result = aggregate_relative us prev_report report in
      Each (Sum result.0 prev_report report result.1) us
unfolding aggregate_relative
aggregate_sums us prev_report report b p s = by_case (all_in_range us prev_report report) refl
  where
    by_case :
        (c : Bool)
        → all_in_range us prev_report report ≡ c
        → let result =
            if◌then◌else◌ {A = Bool × List ℕ} c
              (true, add_fields us prev_report report)
              (false, prev_report) in
          Each (Sum result.0 prev_report report result.1) us
    by_case true e =
        add_fields-Sum us prev_report report record { is_bytes = b; proper = p } s
          (all_in_range-Each us prev_report report e)
    by_case false e = Each-same us prev_report report
