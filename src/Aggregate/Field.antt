-- ===== src/Aggregate/Field.antt =====
-- One field of a queued report after a number was added to it.
use native.Mathlib.Nat.{mod-lt, mod-eq_of_lt, one-le-pow, pow-le-pow_right}
use usb_hid_wireless_bridge.Base.{
  ℕ, ◌+◌, ◌-◌, ◌*◌, ◌%◌, ◌^◌, ◌≤◌, ◌<◌, Bool, true, false, List, [], ◌∷◌, length, if◌then◌else◌,
  ◌≡◌, refl, sym, ap, ◌∙◌, subst, arith,
}
use usb_hid_wireless_bridge.Base.Int.{
  ℤ, pos, negsuc, ◌+ℤ◌, ◌≤ℤ◌, ltb_ℤ, eq_ℤ, signed32, uint32, int_laws,
}
use usb_hid_wireless_bridge.Bits.{put_bits, sign_extend_hid_value}
use usb_hid_wireless_bridge.Bits.Fields.{IsBytes, length-put_bits, put_bits-IsBytes}
use usb_hid_wireless_bridge.Bits.RoundTrip.{get_bits-put_bits, get_bits-put_bits-Apart, Apart}
use usb_hid_wireless_bridge.Bits.Signed.{sign_extend_lem, field_value-uint32}
use usb_hid_wireless_bridge.Base.Each.{Each}
use usb_hid_wireless_bridge.Usages.{UsageDef}
use usb_hid_wireless_bridge.Aggregate.{field_of, in_range, add_field}

-- A usage whose field of 1 to 31 bits lies in a report of `bytes` bytes and can hold its logical
-- range.
pub record Proper (bytes : ℕ) (u : UsageDef) : Type 0 where
  pub inside : u.bitpos + u.size ≤ 8 * bytes
  pub addressed : u.bitpos + u.size ≤ 2 ^ 16
  pub some_bits : 1 ≤ u.size
  pub few_bits : u.size < 32
  pub signed_least :
      ltb_ℤ u.logical_minimum (pos 0) ≡ true → negsuc (2 ^ (u.size - 1) - 1) ≤ℤ u.logical_minimum
  pub signed_greatest :
      ltb_ℤ u.logical_minimum (pos 0) ≡ true → u.logical_maximum ≤ℤ pos (2 ^ (u.size - 1) - 1)
  pub unsigned_greatest :
      ltb_ℤ u.logical_minimum (pos 0) ≡ false → u.logical_maximum ≤ℤ pos (2 ^ u.size - 1)

unsigned_kept :
    (z : ℤ) (size : ℕ)
    → size < 32
    → pos 0 ≤ℤ z
    → z ≤ℤ pos (2 ^ size - 1)
    → signed32 (uint32 z % 2 ^ size) ≡ z
unfolding uint32
unsigned_kept (pos n) size h lo hi =
    ap signed32 kept ∙ ground (arith, small, hi, one-le-pow size 2 (omega arith))
  where
    small : 2 ^ size ≤ 2 ^ 31
    small = pow-le-pow_right {n = 2} (omega arith) {i = size} {j = 31} (omega arith)

    kept : n % 2 ^ 32 % 2 ^ size ≡ n
    kept =
        ap (λ (t : ℕ). t % 2 ^ size) (omega (arith, hi, small, one-le-pow size 2 (omega arith)))
        ∙ mod-eq_of_lt (omega (arith, hi, one-le-pow size 2 (omega arith)))
unsigned_kept (negsuc n) size h lo hi = absurd (omega (arith, lo))

-- What is read from a field into which a number of the logical range was written.
field_of-put_bits :
    (report : List ℕ) (u : UsageDef) (z : ℤ)
    → IsBytes report
    → Proper (length report) u
    → u.logical_minimum ≤ℤ z
    → z ≤ℤ u.logical_maximum
    → field_of (put_bits report u.bitpos u.size (uint32 z)) u ≡ z
unfolding field_of
field_of-put_bits report u z b p lo hi =
    ap read (
      get_bits-put_bits report u.bitpos u.size (uint32 z) b
        record { inside = p.inside; addressed = p.addressed } (omega (arith, p.few_bits)))
    ∙ by_case (ltb_ℤ u.logical_minimum (pos 0)) refl
  where
    read : ℕ → ℤ
    read r = if ltb_ℤ u.logical_minimum (pos 0) then sign_extend_hid_value r u.size else signed32 r

    by_case :
        (c : Bool)
        → ltb_ℤ u.logical_minimum (pos 0) ≡ c
        → (if c
            then sign_extend_hid_value (uint32 z % 2 ^ u.size) u.size
            else signed32 (uint32 z % 2 ^ u.size))
          ≡ z
    by_case true e =
        sign_extend_lem (uint32 z % 2 ^ u.size) u.size p.some_bits p.few_bits
          (mod-lt (uint32 z) (one-le-pow u.size 2 (omega arith)))
        ∙ field_value-uint32 z u.size p.some_bits p.few_bits record {
          least = grind (arith, p.signed_least e);
          greatest = grind (arith, p.signed_greatest e);
        }
    by_case false e =
        unsigned_kept z u.size p.few_bits (grind arith) (grind (arith, p.unsigned_greatest e))

-- Two fields share no bit, if the first is one that `aggregate_relative` writes.
abbrev pub Spared : UsageDef → UsageDef → Type 0
Spared u v = u.is_relative ≡ true → Apart u.bitpos u.size v.bitpos v.size

-- No relative field shares a bit with another field.
pub data Separate : List UsageDef → Type 0 where
  no_fields : Separate []
  apart_from :
      {u : UsageDef} {us : List UsageDef}
      → Each (λ v. Spared u v) us
      → Each (λ v. Spared v u) us
      → Separate us
      → Separate (u ∷ us)

-- A report that may be added to: `us` are proper in it.
pub record Ready (us : List UsageDef) (prev_report : List ℕ) : Type 0 where
  pub is_bytes : IsBytes prev_report
  pub proper : Each (Proper (length prev_report)) us

length-add_field : (u : UsageDef) (xs ys : List ℕ) → length (add_field u xs ys) ≡ length xs
unfolding add_field
length-add_field u xs ys = step (eq_ℤ (field_of ys u) (pos 0))
  where
    step :
        (c : Bool)
        → length (
            if c then xs else put_bits xs u.bitpos u.size (uint32 (field_of ys u +ℤ field_of xs u)))
          ≡ length xs
    step true = refl
    step false = length-put_bits xs u.bitpos u.size (uint32 (field_of ys u +ℤ field_of xs u))

add_field-IsBytes : (u : UsageDef) (xs ys : List ℕ) → IsBytes xs → IsBytes (add_field u xs ys)
unfolding add_field
add_field-IsBytes u xs ys b = step (eq_ℤ (field_of ys u) (pos 0))
  where
    step :
        (c : Bool)
        → IsBytes (
            if c then xs else put_bits xs u.bitpos u.size (uint32 (field_of ys u +ℤ field_of xs u)))
    step true = b
    step false = put_bits-IsBytes xs u.bitpos u.size (uint32 (field_of ys u +ℤ field_of xs u)) b

pub Ready-add_field :
    {us : List UsageDef} (u : UsageDef) (xs ys : List ℕ)
    → IsBytes xs
    → Each (Proper (length xs)) us
    → Ready us (add_field u xs ys)
Ready-add_field {us} u xs ys b p = record {
  is_bytes = add_field-IsBytes u xs ys b;
  proper = subst (λ (n : ℕ). Each (Proper n) us) (sym (length-add_field u xs ys)) p;
}

-- The field that is added to.
pub field_of-add_field :
    (u : UsageDef) (xs ys : List ℕ)
    → IsBytes xs
    → Proper (length xs) u
    → in_range xs ys u ≡ true
    → field_of (add_field u xs ys) u ≡ field_of ys u +ℤ field_of xs u
unfolding add_field
field_of-add_field u xs ys b p r = step (eq_ℤ (field_of ys u) (pos 0)) refl
  where
    step :
        (c : Bool)
        → eq_ℤ (field_of ys u) (pos 0) ≡ c
        → field_of
            (if c
              then xs
              else put_bits xs u.bitpos u.size (uint32 (field_of ys u +ℤ field_of xs u)))
            u
          ≡ field_of ys u +ℤ field_of xs u
    step true e = grind int_laws
    step false e =
        field_of-put_bits xs u (field_of ys u +ℤ field_of xs u) b p (ground (arith, r))
          (ground (arith, r))

-- A field that shares no bit with it.
pub field_of-add_field-Apart :
    (u v : UsageDef) (xs ys : List ℕ)
    → IsBytes xs
    → Proper (length xs) u
    → Proper (length xs) v
    → Apart u.bitpos u.size v.bitpos v.size
    → field_of (add_field u xs ys) v ≡ field_of xs v
unfolding add_field field_of
field_of-add_field-Apart u v xs ys b p q a = step (eq_ℤ (field_of ys u) (pos 0))
  where
    read : ℕ → ℤ
    read r = if ltb_ℤ v.logical_minimum (pos 0) then sign_extend_hid_value r v.size else signed32 r

    step :
        (c : Bool)
        → field_of
            (if c
              then xs
              else put_bits xs u.bitpos u.size (uint32 (field_of ys u +ℤ field_of xs u)))
            v
          ≡ field_of xs v
    step true = refl
    step false = ap read (
        get_bits-put_bits-Apart xs u.bitpos u.size (uint32 (field_of ys u +ℤ field_of xs u))
          v.bitpos v.size b record { inside = p.inside; addressed = p.addressed }
          (omega (arith, q.few_bits)) q.addressed a)
