-- ===== src/Bits/RoundTrip.antt =====
-- A field is read back as it was written, and the other fields as they were.
use native.Mathlib.Nat.{pow-suc, one-le-pow, mod-add-div, pow-le-pow_right, div-div-eq-div-mul}
use usb_hid_wireless_bridge.Base.{
  ℕ, zero, suc, ◌+◌, ◌-◌, ◌*◌, ◌/◌, ◌%◌, ◌^◌, ◌≤◌, ◌<◌, ◌⊎◌, List, bit_or, ◌≡◌, refl, ap, ap₂, ◌∙◌,
  sym, arith,
}
use usb_hid_wireless_bridge.Base.Digits.{bit_or_above}
use usb_hid_wireless_bridge.Bits.{get_bit, get_bits, put_bits}
use usb_hid_wireless_bridge.Bits.Fields.{IsBytes, Lies, get_bit_lem, get_bit-put_bits, digit_at}

digit-mul : (d p : ℕ) → d < 2 → d * p ≤ p
digit-mul zero p h = omega arith
digit-mul (suc zero) p h = omega arith
digit-mul (suc (suc d)) p h = absurd (omega arith)

-- The bit at `i` shifted to its place, and put in above the bits below it.
put_above : (r d k : ℕ) → r < 2 ^ k → d < 2 → k < 32 → bit_or r (d * 2 ^ k % 2 ^ 32) ≡ r + d * 2 ^ k
put_above r d k hr hd hk = ap (bit_or r) (omega (arith, two_cases)) ∙ bit_or_above k r d hr
  where
    two_cases : d * 2 ^ k < 2 ^ 32
    two_cases = ground (
      arith,
      pow-le-pow_right {n = 2} (omega arith) {i = k} {j = 31} (omega arith),
      digit-mul d (2 ^ k) hd,
    )

get_bit-lt : (bytes : List ℕ) (n : ℕ) → get_bit bytes n < 2
get_bit-lt bytes n = omega (arith, get_bit_lem bytes n)

pub get_bits_step :
    (bytes : List ℕ) (n k : ℕ)
    → k < 32
    → n + k < 2 ^ 16
    → get_bits bytes n k < 2 ^ k
    → get_bits bytes n (suc k) ≡ get_bits bytes n k + get_bit bytes (n + k) * 2 ^ k
unfolding get_bits
get_bits_step bytes n k hk m h =
    ap (λ (t : ℕ). bit_or (get_bits bytes n k) (get_bit bytes t * 2 ^ k % 2 ^ 32)) (omega arith)
    ∙ put_above (get_bits bytes n k) (get_bit bytes (n + k)) k h (get_bit-lt bytes (n + k)) hk

halves : (p q : ℕ) → p * q ≡ p * (q % 2) + p * 2 * (q / 2)
halves p q = ap (λ (t : ℕ). p * t) {x = q} {y = q % 2 + 2 * (q / 2)} (omega arith) ∙ omega arith

next_digit : (v k : ℕ) → v % 2 ^ k + v / 2 ^ k % 2 * 2 ^ k ≡ v % 2 ^ suc k
next_digit v k =
    double v (2 ^ k) (one-le-pow k 2 (omega arith))
    ∙ ap (λ (t : ℕ). v % t) (omega (arith, pow-suc 2 k))
  where
    double : (v p : ℕ) → 0 < p → v % p + v / p % 2 * p ≡ v % (p * 2)
    double v p h =
        grind (
          arith,
          mod-add-div v p,
          mod-add-div v (p * 2),
          div-div-eq-div-mul v p 2,
          halves p (v / p),
        )

get_bits_none : (bytes : List ℕ) (n : ℕ) → get_bits bytes n 0 ≡ 0
unfolding get_bits
get_bits_none bytes n = refl

-- A field whose bits are those of a number.
get_bits_of :
    (bytes : List ℕ) (n size v : ℕ)
    → size ≤ 32
    → n + size ≤ 2 ^ 16
    → ((i : ℕ) → i < size → get_bit bytes (n + i) ≡ v / 2 ^ i % 2)
    → get_bits bytes n size ≡ v % 2 ^ size
get_bits_of bytes n zero v h m f = omega (arith, get_bits_none bytes n)
get_bits_of bytes n (suc k) v h m f =
    let ih = get_bits_of bytes n k v (omega arith) (omega arith) (λ i l. f i (omega arith)) in
    get_bits_step bytes n k (omega arith) (omega arith)
      (omega (arith, ih, one-le-pow k 2 (omega arith)))
    ∙ ap₂ (λ (r d : ℕ). r + d * 2 ^ k) ih (f k (omega arith))
    ∙ next_digit v k

pub get_bits-lt :
    (bytes : List ℕ) (n size : ℕ) → size ≤ 32 → n + size ≤ 2 ^ 16 → get_bits bytes n size < 2 ^ size
get_bits-lt bytes n zero h m = omega (arith, get_bits_none bytes n)
get_bits-lt bytes n (suc k) h m =
    let ih = get_bits-lt bytes n k (omega arith) (omega arith) in
    ground (
      arith,
      get_bits_step bytes n k,
      ih,
      digit-mul (get_bit bytes (n + k)) (2 ^ k) (get_bit-lt bytes (n + k)),
      pow-suc 2 k,
    )

-- The value of a field depends on its bits alone.
pub get_bits_same :
    (xs ys : List ℕ) (n size : ℕ)
    → size ≤ 32
    → n + size ≤ 2 ^ 16
    → ((i : ℕ) → i < size → get_bit xs (n + i) ≡ get_bit ys (n + i))
    → get_bits xs n size ≡ get_bits ys n size
get_bits_same xs ys n zero h m f = get_bits_none xs n ∙ sym (get_bits_none ys n)
get_bits_same xs ys n (suc k) h m f =
    let ih = get_bits_same xs ys n k (omega arith) (omega arith) (λ i l. f i (omega arith)) in
    get_bits_step xs n k (omega arith) (omega arith)
      (get_bits-lt xs n k (omega arith) (omega arith))
    ∙ ap₂ (λ (r d : ℕ). r + d * 2 ^ k) ih (f k (omega arith))
    ∙ sym (
        get_bits_step ys n k (omega arith) (omega arith)
          (get_bits-lt ys n k (omega arith) (omega arith)))

-- A field of at most 32 bits that lies in the report is read back as the low bits of what was
-- written.
pub get_bits-put_bits :
    (bytes : List ℕ) (n size v : ℕ)
    → IsBytes bytes
    → Lies bytes n size
    → size ≤ 32
    → get_bits (put_bits bytes n size v) n size ≡ v % 2 ^ size
get_bits-put_bits bytes n size v b l h =
    get_bits_of (put_bits bytes n size v) n size v h l.addressed (λ i li.
      get_bit-put_bits bytes n size v (n + i) b l ∙ ground (arith, digit_at v (n + i - n) i))

-- Two fields that share no bit.
abbrev pub Apart : ℕ → ℕ → ℕ → ℕ → Type 0
Apart n size m other = (n + size ≤ m) ⊎ (m + other ≤ n)

-- Writing a field changes no field that shares no bit with it.
pub get_bits-put_bits-Apart :
    (bytes : List ℕ) (n size v m other : ℕ)
    → IsBytes bytes
    → Lies bytes n size
    → other ≤ 32
    → m + other ≤ 2 ^ 16
    → Apart n size m other
    → get_bits (put_bits bytes n size v) m other ≡ get_bits bytes m other
get_bits-put_bits-Apart bytes n size v m other b l h hm a =
    get_bits_same (put_bits bytes n size v) bytes m other h hm
      (λ i li. get_bit-put_bits bytes n size v (m + i) b l ∙ ground arith)
