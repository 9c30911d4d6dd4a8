-- ===== src/Base/Digits.antt =====
-- The binary operations by their lowest digit, and `|` and `&` at a power of two as arithmetic.
use Prim.Native.Nat.{max, digits, bit_and-bitwise, bit_or-bitwise}
use native.Mathlib.Nat.{pow-suc, div-div-eq-div-mul}
use usb_hid_wireless_bridge.Base.{
  ℕ, zero, suc, ◌+◌, ◌*◌, ◌/◌, ◌%◌, ◌^◌, ◌≤◌, ◌<◌, min, bit_and, bit_or, ◌≡◌, refl, sym, ◌∙◌, ap,
  ap₂, arith,
}

-- Any two counts that cover the first number give the same digits.
same_digits :
    (z : ℕ → ℕ) (f : ℕ → ℕ → ℕ) {p q : ℕ} (a b : ℕ)
    → a ≤ p
    → a ≤ q
    → digits z f p a b ≡ digits z f q a b
same_digits z f {p = zero} {q = zero} a b ap aq = refl
same_digits z f {p = zero} {q = suc q} zero b ap aq = refl
same_digits z f {p = suc p} {q = zero} zero b ap aq = refl
same_digits z f {p = suc p} {q = suc q} zero b ap aq = refl
same_digits z f {p = zero} {q = q} (suc a) b ap aq = absurd (omega arith)
same_digits z f {p = suc p} {q = zero} (suc a) b ap aq = absurd (omega arith)
same_digits z f {p = suc p} {q = suc q} (suc a) b ap aq =
    omega (arith, same_digits z f {p = p} {q = q} (suc a / 2) (b / 2) (omega arith) (omega arith))

or_lowest : (a b : ℕ) → bit_or a b ≡ bit_or (a / 2) (b / 2) * 2 + max (a % 2) (b % 2)
or_lowest zero b = omega (arith, bit_or-bitwise 0 b, bit_or-bitwise 0 (b / 2))
or_lowest (suc a) b = omega (
  arith,
  bit_or-bitwise (suc a) b,
  bit_or-bitwise (suc a / 2) (b / 2),
  same_digits (λ y. y) max {p = a} {q = suc a / 2} (suc a / 2) (b / 2) (omega arith) (omega arith),
)

and_lowest : (a b : ℕ) → bit_and a b ≡ bit_and (a / 2) (b / 2) * 2 + min (a % 2) (b % 2)
and_lowest zero b = omega (arith, bit_and-bitwise 0 b, bit_and-bitwise 0 (b / 2))
and_lowest (suc a) b = omega (
  arith,
  bit_and-bitwise (suc a) b,
  bit_and-bitwise (suc a / 2) (b / 2),
  same_digits (λ y. 0) min {p = a} {q = suc a / 2} (suc a / 2) (b / 2) (omega arith) (omega arith),
)

pub zero-bit_or : (b : ℕ) → bit_or 0 b ≡ b
zero-bit_or b = bit_or-bitwise 0 b

-- A number of k digits, or a multiple of 2 ^ k.
pub bit_or_above : (k r q : ℕ) → r < 2 ^ k → bit_or r (q * 2 ^ k) ≡ r + q * 2 ^ k
bit_or_above zero r q h = ground (arith, zero-bit_or (q * 1))
bit_or_above (suc k) r q h = ground (
  arith,
  or_lowest r (q * 2 ^ suc k),
  bit_or_above k (r / 2) q (omega (arith, pow-suc 2 k)),
  ap (λ (t : ℕ). q * t) (pow-suc 2 k),
)

bit_or_comm_below : (n a b : ℕ) → a ≤ n → b ≤ n → bit_or a b ≡ bit_or b a
bit_or_comm_below zero zero zero h k = refl
bit_or_comm_below zero (suc a) b h k = absurd (omega arith)
bit_or_comm_below zero zero (suc b) h k = absurd (omega arith)
bit_or_comm_below (suc n) a b h k = omega (
  arith,
  or_lowest a b,
  or_lowest b a,
  bit_or_comm_below n (a / 2) (b / 2) (omega arith) (omega arith),
)

pub bit_or_comm : (a b : ℕ) → bit_or a b ≡ bit_or b a
bit_or_comm a b = bit_or_comm_below (a + b) a b (omega arith) (omega arith)

bit_and-none : (n a : ℕ) → a ≤ n → bit_and a 0 ≡ 0
bit_and-none n zero h = refl
bit_and-none zero (suc a) h = absurd (omega arith)
bit_and-none (suc n) (suc a) h =
    omega (arith, and_lowest (suc a) 0, bit_and-none n (suc a / 2) (omega arith))

div_half : (a k : ℕ) → a / 2 ^ suc k ≡ a / 2 / 2 ^ k
div_half a k =
    ap (λ (t : ℕ). a / t) (omega (arith, pow-suc 2 k)) ∙ sym (div-div-eq-div-mul a 2 (2 ^ k))

-- `&` with a single bit.
pub bit_and_single : (k a : ℕ) → bit_and a (2 ^ k) ≡ a / 2 ^ k % 2 * 2 ^ k
bit_and_single zero a = ground (arith, and_lowest a 1, bit_and-none (a / 2) (a / 2) (omega arith))
bit_and_single (suc k) a = ground (
  arith,
  and_lowest a (2 ^ suc k),
  bit_and_single k (a / 2),
  div_half a k,
  pow-suc 2 k,
  ap (λ (t : ℕ). a / 2 / 2 ^ k % 2 * t) (pow-suc 2 k),
)

-- Each binary digit of `|` and `&`.
pub or_digit : (j a b : ℕ) → bit_or a b / 2 ^ j % 2 ≡ max (a / 2 ^ j % 2) (b / 2 ^ j % 2)
or_digit zero a b = omega (arith, or_lowest a b)
or_digit (suc j) a b =
    ap (λ (t : ℕ). t % 2)
      (div_half (bit_or a b) j ∙ ap (λ (t : ℕ). t / 2 ^ j) (omega (arith, or_lowest a b)))
    ∙ or_digit j (a / 2) (b / 2)
    ∙ ap₂ (λ (s t : ℕ). max (s % 2) (t % 2)) (sym (div_half a j)) (sym (div_half b j))

pub and_digit : (j a b : ℕ) → bit_and a b / 2 ^ j % 2 ≡ min (a / 2 ^ j % 2) (b / 2 ^ j % 2)
and_digit zero a b = omega (arith, and_lowest a b)
and_digit (suc j) a b =
    ap (λ (t : ℕ). t % 2)
      (div_half (bit_and a b) j ∙ ap (λ (t : ℕ). t / 2 ^ j) (omega (arith, and_lowest a b)))
    ∙ and_digit j (a / 2) (b / 2)
    ∙ ap₂ (λ (s t : ℕ). min (s % 2) (t % 2)) (sym (div_half a j)) (sym (div_half b j))
