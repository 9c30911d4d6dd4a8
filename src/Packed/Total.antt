-- ===== src/Packed/Total.antt =====
-- Walks over a buffer that is long enough for them.
use usb_hid_wireless_bridge.Base.{
  ℕ, zero, suc, ◌+◌, ◌≤◌, ◌≡◌, refl, ap, ◌∙◌, List, [], ◌∷◌, none, some, length, arith,
}
use usb_hid_wireless_bridge.Packed.{Reader, ◌>>=◌, done, get_u8, get_u16, get_u32, read_n}

-- On `n` bytes or more the walk ends, having passed at most `n` of them, with a value that has P.
pub record Gives {ℓ κ} {A : Type ℓ} (n : ℕ) (P : A → Type κ) (m : Reader A) : Type (ℓ ⊔ κ) where
  pub at :
      (bytes : List ℕ)
      → n ≤ length bytes
      → (x : A) × (rest : List ℕ) × (m bytes ≡ some (x, rest))
        × (length bytes ≤ length rest + n)
        × P x

abbrev pub Any {ℓ} : {A : Type ℓ} → A → Type ℓ
Any x = x ≡ x

module _ {ℓ κ} {A : Type ℓ} {P : A → Type κ} where
  pub done-Gives : (x : A) → P x → Gives 0 P (done x)
  done-Gives x p = record { at = λ bytes h. (x, bytes, refl, omega arith, p) }

module _ {ℓ κ μ ν} {A : Type ℓ} {B : Type κ} {P : A → Type μ} {Q : B → Type ν} where
  pub then-Gives :
      (a b : ℕ) (m : Reader A) (f : A → Reader B)
      → Gives a P m
      → ((x : A) → P x → Gives b Q (f x))
      → Gives (a + b) Q (m >>= f)
  unfolding ◌>>=◌
  then-Gives a b m f g k = record {
    at = λ bytes h.
        (let (x, rest, e, l, p) = g.at bytes (omega (arith, h)) in
          let (y, more, d, j, q) = (k x p).at rest (omega (arith, h, l)) in
          (
            y,
            more,
            ap (λ o. elim o [ none ↦ none | some (v, r) ↦ f v r ]) e ∙ d,
            omega (arith, l, j),
            q,
          ));
  }

pub get_u8-Gives : Gives 1 Any get_u8
get_u8-Gives = record { at = λ bytes. by_case bytes }
  where
    by_case :
        (bytes : List ℕ)
        → 1 ≤ length bytes
        → (x : ℕ) × (rest : List ℕ) × (get_u8 bytes ≡ some (x, rest))
          × (length bytes ≤ length rest + 1)
          × (x ≡ x)
    by_case [] h = absurd (omega (arith, h))
    by_case (a ∷ rest) h = (a, rest, refl, omega arith, refl)

pub get_u16-Gives : Gives 2 Any get_u16
get_u16-Gives = record { at = λ bytes. by_case bytes }
  where
    by_case :
        (bytes : List ℕ)
        → 2 ≤ length bytes
        → (x : ℕ) × (rest : List ℕ) × (get_u16 bytes ≡ some (x, rest))
          × (length bytes ≤ length rest + 2)
          × (x ≡ x)
    by_case [] h = absurd (omega (arith, h))
    by_case (a ∷ []) h = absurd (omega (arith, h))
    by_case (a ∷ b ∷ rest) h = (_, rest, refl, omega arith, refl)

pub get_u32-Gives : Gives 4 Any get_u32
get_u32-Gives = record { at = λ bytes. by_case bytes }
  where
    by_case :
        (bytes : List ℕ)
        → 4 ≤ length bytes
        → (x : ℕ) × (rest : List ℕ) × (get_u32 bytes ≡ some (x, rest))
          × (length bytes ≤ length rest + 4)
          × (x ≡ x)
    by_case [] h = absurd (omega (arith, h))
    by_case (a ∷ []) h = absurd (omega (arith, h))
    by_case (a ∷ b ∷ []) h = absurd (omega (arith, h))
    by_case (a ∷ b ∷ c ∷ []) h = absurd (omega (arith, h))
    by_case (a ∷ b ∷ c ∷ d ∷ rest) h = (_, rest, refl, omega arith, refl)

-- The bytes of `n` elements of `k` bytes.
abbrev pub bytes_of : ℕ → ℕ → ℕ
bytes_of zero k = 0
bytes_of (suc n) k = k + (bytes_of n k + 0)

module _ {ℓ} {A : Type ℓ} where
  pub read_n-Gives :
      (n k : ℕ) (get : Reader A)
      → Gives k Any get
      → Gives (bytes_of n k) (λ (xs : List A). xs ≡ xs) (read_n n get)
  unfolding read_n
  read_n-Gives zero k get g = done-Gives [] refl
  read_n-Gives (suc n) k get g = then-Gives k (bytes_of n k + 0) get _ g (λ x p.
      then-Gives (bytes_of n k) 0 (read_n n get) _ (read_n-Gives n k get g)
        (λ xs q. done-Gives (x ∷ xs) refl))
