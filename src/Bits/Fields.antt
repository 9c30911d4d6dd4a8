-- ===== src/Bits/Fields.antt =====
-- Reading back a field of a report that was written, and the bits outside it.
use usb_hid_wireless_bridge.Base.{
  ℕ, zero, suc, ◌+◌, ◌-◌, ◌*◌, ◌/◌, ◌%◌, ◌^◌, ◌≤◌, ◌<◌, Bool, true, false, List, [], ◌∷◌, length,
  get_or, set, length-set, ◌==◌, ◌≡◌, refl, ap, ◌∙◌, ◌&&◌, leb, ltb, arith, if◌then◌else◌,
}
use usb_hid_wireless_bridge.Base.Digits.{bit_and_single}
use usb_hid_wireless_bridge.Bits.{get_bit, put_into, put_bit, put_bits}
use usb_hid_wireless_bridge.Bits.Byte.{put_into-lt, put_into-bit}

abbrev pub IsBytes : List ℕ → Type 0
IsBytes bytes = (i : ℕ) → get_or bytes i 0 < 256

get_or-set :
    (xs : List ℕ) (i j v : ℕ)
    → i < length xs
    → get_or (set xs i v) j 0 ≡ (if j == i then v else get_or xs j 0)
get_or-set [] i j v h = absurd (omega arith)
get_or-set (x ∷ xs) zero zero v h = refl
get_or-set (x ∷ xs) zero (suc j) v h = ground arith
get_or-set (x ∷ xs) (suc i) zero v h = ground arith
get_or-set (x ∷ xs) (suc i) (suc j) v h = ground (arith, get_or-set xs i j v (omega arith))

get_or-beyond : (xs : List ℕ) (i : ℕ) → length xs ≤ i → get_or xs i 0 ≡ 0
get_or-beyond [] i h = refl
get_or-beyond (x ∷ xs) zero h = absurd (omega arith)
get_or-beyond (x ∷ xs) (suc i) h = get_or-beyond xs i (omega arith)

-- A bit as arithmetic.
pub get_bit_lem :
    (bytes : List ℕ) (n : ℕ) → get_bit bytes n ≡ get_or bytes (n / 8) 0 / 2 ^ (n % 8) % 2
unfolding get_bit
get_bit_lem bytes n =
    ground (arith, bit_and_single (n % 8) (get_or bytes (n / 8) 0), get_or-beyond bytes (n / 8))

pub length-put_bit : (bytes : List ℕ) (n v : ℕ) → length (put_bit bytes n v) ≡ length bytes
unfolding put_bit
length-put_bit bytes n v =
    ground (arith, length-set bytes (n / 8) (put_into (get_or bytes (n / 8) 0) (n % 8) v))

pub put_bit-IsBytes : (bytes : List ℕ) (n v : ℕ) → IsBytes bytes → IsBytes (put_bit bytes n v)
unfolding put_bit
put_bit-IsBytes bytes n v b i = by_case (ltb (n / 8) (length bytes)) refl
  where
    w : ℕ
    w = put_into (get_or bytes (n / 8) 0) (n % 8) v

    by_case :
        (c : Bool)
        → ltb (n / 8) (length bytes) ≡ c
        → get_or (if c then set bytes (n / 8) w else bytes) i 0 < 256
    by_case true e =
        let h = put_into-lt (get_or bytes (n / 8) 0) (n % 8) v (b (n / 8)) (omega arith) in
        ground (arith, h, b i, get_or-set bytes (n / 8) i w (ground arith))
    by_case false e = b i

-- Writing a bit that lies in the report changes that bit and no other.
pub get_bit-put_bit :
    (bytes : List ℕ) (n m v : ℕ)
    → IsBytes bytes
    → n < 8 * length bytes
    → get_bit (put_bit bytes n v) m ≡ (if m == n then v % 2 else get_bit bytes m)
unfolding put_bit
get_bit-put_bit bytes n m v b h =
    let w = put_into (get_or bytes (n / 8) 0) (n % 8) v in
    let e =
      put_into-bit (get_or bytes (n / 8) 0) (n % 8) (m % 8) v (b (n / 8)) (omega arith)
        (omega arith) in
    ground (
      arith,
      get_bit_lem bytes m,
      get_bit_lem (set bytes (n / 8) w) m,
      get_or-set bytes (n / 8) (m / 8) w,
      e,
    )

pub length-put_bits :
    (bytes : List ℕ) (n size v : ℕ) → length (put_bits bytes n size v) ≡ length bytes
unfolding put_bits
length-put_bits bytes n zero v = refl
length-put_bits bytes n (suc k) v =
    length-put_bit (put_bits bytes n k v) ((n + k) % 2 ^ 16) (v / 2 ^ k % 2)
    ∙ length-put_bits bytes n k v

pub put_bits-IsBytes :
    (bytes : List ℕ) (n size v : ℕ) → IsBytes bytes → IsBytes (put_bits bytes n size v)
unfolding put_bits
put_bits-IsBytes bytes n zero v b = b
put_bits-IsBytes bytes n (suc k) v b =
    put_bit-IsBytes (put_bits bytes n k v) ((n + k) % 2 ^ 16) (v / 2 ^ k % 2)
      (put_bits-IsBytes bytes n k v b)

-- A field that lies in the report, at a position that fits `bitpos`.
pub record Lies (bytes : List ℕ) (n size : ℕ) : Type 0 where
  pub inside : n + size ≤ 8 * length bytes
  pub addressed : n + size ≤ 2 ^ 16

pub digit_at : (v i j : ℕ) → i ≡ j → v / 2 ^ i % 2 ≡ v / 2 ^ j % 2
digit_at v i j e = ap (λ (t : ℕ). v / 2 ^ t % 2) e

-- Every bit of the report after a field was written.
pub get_bit-put_bits :
    (bytes : List ℕ) (n size v m : ℕ)
    → IsBytes bytes
    → Lies bytes n size
    → get_bit (put_bits bytes n size v) m
      ≡ (if leb n m && ltb m (n + size) then v / 2 ^ (m - n) % 2 else get_bit bytes m)
unfolding put_bits
get_bit-put_bits bytes n zero v m b l = ground arith
get_bit-put_bits bytes n (suc k) v m b l =
    let ih =
      get_bit-put_bits bytes n k v m b
        record { inside = omega (arith, l.inside); addressed = omega (arith, l.addressed) } in
    let e =
      get_bit-put_bit (put_bits bytes n k v) ((n + k) % 2 ^ 16) m (v / 2 ^ k % 2)
        (put_bits-IsBytes bytes n k v b)
        (omega (arith, l.inside, l.addressed, length-put_bits bytes n k v)) in
    e ∙ grind (arith, ih, l.addressed, digit_at v k (m - n))

abbrev pub all_bytes : List ℕ → Bool
all_bytes [] = true
all_bytes (b ∷ bs) = ltb b 256 && all_bytes bs

pub all_bytes-IsBytes : (bs : List ℕ) → all_bytes bs ≡ true → IsBytes bs
all_bytes-IsBytes [] h i = omega arith
all_bytes-IsBytes (b ∷ bs) h zero = ground arith
all_bytes-IsBytes (b ∷ bs) h (suc i) = all_bytes-IsBytes bs (ground arith) i
