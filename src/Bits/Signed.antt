-- ===== src/Bits/Signed.antt =====
-- Signed fields: what `sign_extend_hid_value` gives for the bits of a field, and that it undoes the
-- truncation of a number that fits the field.
use native.Mathlib.Nat.{
  pow-suc, one-le-pow, pow-le-pow_right, div-eq_of_lt, div-eq_of_lt-le, mod-eq_of_lt,
  mul-add-mod_self_right,
}
use usb_hid_wireless_bridge.Base.{
  ℕ, zero, suc, ◌+◌, ◌-◌, ◌*◌, ◌/◌, ◌%◌, ◌^◌, ◌≤◌, ◌<◌, Bool, true, false, ltb→lt, ==_iff, ◌==◌,
  ◌≡◌, refl, ap, ◌∙◌, ltb, arith, if◌then◌else◌,
}
use usb_hid_wireless_bridge.Base.Int.{ℤ, pos, negsuc, ◌≤ℤ◌, uint32}
use usb_hid_wireless_bridge.Base.Digits.{bit_or_above, bit_and_single}
use usb_hid_wireless_bridge.Base.Below.{all_below, all_below_holds}
use usb_hid_wireless_bridge.Bits.{sign_extend_hid_value}

-- The number that the bits of a field of two's complement stand for.
abbrev pub field_value : ℕ → ℕ → ℤ
field_value value size =
    if ltb value (2 ^ (size - 1)) then pos value else negsuc (2 ^ size - value - 1)

upper_table : all_below 33 (λ k. 2 ^ 32 - 2 ^ k == (2 ^ (32 - k) - 1) * 2 ^ k) ≡ true
unfolding all_below
upper_table = refl

upper_ones : (k : ℕ) → k < 33 → 2 ^ 32 - 2 ^ k ≡ (2 ^ (32 - k) - 1) * 2 ^ k
upper_ones k h = (==_iff (2 ^ 32 - 2 ^ k) _).0 (all_below_holds 33 _ upper_table k h)

-- The highest bit of a field.
top_bit : (value p : ℕ) → value < 2 * p → value / p % 2 * p ≡ (if ltb value p then 0 else p)
top_bit value p h = by_case (ltb value p) refl
  where
    by_case : (c : Bool) → ltb value p ≡ c → value / p % 2 * p ≡ (if c then 0 else p)
    by_case true e = ap (λ (t : ℕ). t % 2 * p) (div-eq_of_lt (ltb→lt value p e)) ∙ omega arith
    by_case false e =
        ap (λ (t : ℕ). t % 2 * p)
          (div-eq_of_lt-le {k = 1} p {m = value} (ground arith) (ground arith))
        ∙ omega arith

pub sign_extend_lem :
    (value size : ℕ)
    → 1 ≤ size
    → size < 32
    → value < 2 ^ size
    → sign_extend_hid_value value size ≡ field_value value size
unfolding sign_extend_hid_value
sign_extend_lem value zero p h lt = absurd (omega arith)
sign_extend_lem value (suc k) p h lt = ground (
  arith,
  bit_and_single k value,
  upper_ones (suc k),
  bit_or_above (suc k) value (2 ^ (32 - suc k) - 1) lt,
  pow-suc 2 k,
  top_bit value (2 ^ k),
  pow-le-pow_right {n = 2} (omega arith) {i = suc k} {j = 31} (omega arith),
  one-le-pow k 2,
)

-- The numbers that a signed field of `size` bits can hold.
pub record Fits (z : ℤ) (size : ℕ) : Type 0 where
  pub least : negsuc (2 ^ (size - 1) - 1) ≤ℤ z
  pub greatest : z ≤ℤ pos (2 ^ (size - 1) - 1)

pred_power : (k : ℕ) → 2 ^ (suc k - 1) ≡ 2 ^ k
pred_power k = ap (λ (t : ℕ). 2 ^ t) (omega arith)

small : (k : ℕ) → suc k < 32 → 2 ^ suc k ≤ 2 ^ 31
small k h = pow-le-pow_right {n = 2} (omega arith) {i = suc k} {j = 31} (omega arith)

complement :
    (n k : ℕ) → suc k < 32 → n < 2 ^ k → (2 ^ 32 - 1 - n % 2 ^ 32) % 2 ^ suc k ≡ 2 ^ suc k - 1 - n
complement n k h l =
    ap (λ (t : ℕ). t % 2 ^ suc k) {x = 2 ^ 32 - 1 - n % 2 ^ 32}
      {y = (2 ^ (32 - suc k) - 1) * 2 ^ suc k + (2 ^ suc k - 1 - n)}
      (omega (arith, upper_ones (suc k) (omega arith), small k h, pow-suc 2 k))
    ∙ mul-add-mod_self_right (2 ^ (32 - suc k) - 1) (2 ^ suc k) (2 ^ suc k - 1 - n)
    ∙ mod-eq_of_lt (omega (arith, one-le-pow (suc k) 2 (omega arith)))

-- A number that fits a signed field of 1 to 31 bits is read back from the bits that are kept of it.
pub field_value-uint32 :
    (z : ℤ) (size : ℕ)
    → 1 ≤ size
    → size < 32
    → Fits z size
    → field_value (uint32 z % 2 ^ size) size ≡ z
unfolding uint32
field_value-uint32 z zero p h f = absurd (omega arith)
field_value-uint32 (pos n) (suc k) p h f =
    ap (λ (t : ℕ). field_value t (suc k)) kept
    ∙ ground (arith, f.greatest, pred_power k, one-le-pow k 2 (omega arith))
  where
    kept : n % 2 ^ 32 % 2 ^ suc k ≡ n
    kept =
        ap (λ (t : ℕ). t % 2 ^ suc k)
          (omega (arith, f.greatest, pred_power k, small k h, pow-suc 2 k))
        ∙ mod-eq_of_lt
            (omega (arith, f.greatest, pred_power k, pow-suc 2 k, one-le-pow k 2 (omega arith)))
field_value-uint32 (negsuc n) (suc k) p h f =
    ap (λ (t : ℕ). field_value t (suc k))
      (complement n k h (omega (arith, f.least, pred_power k, one-le-pow k 2 (omega arith))))
    ∙ ground (arith, f.least, pred_power k, pow-suc 2 k, one-le-pow k 2 (omega arith))
