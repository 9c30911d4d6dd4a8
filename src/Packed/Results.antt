-- ===== src/Packed/Results.antt =====
-- What holds of every value that a walk over a buffer gives, whatever the bytes are.
use usb_hid_wireless_bridge.Base.{
  ℕ, zero, suc, ◌≡◌, refl, ap, subst, List, [], ◌∷◌, Option, none, some, length,
}
use usb_hid_wireless_bridge.Packed.{Reader, ◌>>=◌, done, read_n}

pub record Yields {ℓ κ} {A : Type ℓ} (P : A → Type κ) (m : Reader A) : Type (ℓ ⊔ κ) where
  pub at : (bytes rest : List ℕ) (x : A) → m bytes ≡ some (x, rest) → P x

module _ {ℓ} {A : Type ℓ} where
  value_or : A → Option (A × List ℕ) → A
  value_or d none = d
  value_or d (some (x, rest)) = x

module _ {ℓ κ} {A : Type ℓ} {P : A → Type κ} where
  pub done-Yields : (x : A) → P x → Yields P (done x)
  unfolding value_or
  done-Yields x p = record { at = λ bytes rest y e. subst P (ap (value_or x) e) p }

module _ {ℓ κ μ ν} {A : Type ℓ} {B : Type κ} {P : A → Type μ} {Q : B → Type ν} where
  pub then-Yields :
      (m : Reader A) (f : A → Reader B)
      → Yields P m
      → ((x : A) → P x → Yields Q (f x))
      → Yields Q (m >>= f)
  unfolding ◌>>=◌
  then-Yields m f h k = record { at = λ bytes rest y e. by_case bytes rest y (m bytes) refl e }
    where
      by_case :
          (bytes rest : List ℕ) (y : B) (o : Option (A × List ℕ))
          → m bytes ≡ o
          → (elim o [ none ↦ none | some (a, r) ↦ f a r ]) ≡ some (y, rest)
          → Q y
      by_case bytes rest y none p e = absurd (cc)
      by_case bytes rest y (some (a, r)) p e = (k a (h.at bytes r a p)).at r rest y e

module _ {ℓ κ ν} {A : Type ℓ} {B : Type κ} {Q : B → Type ν} where
  pub any-Yields :
      (m : Reader A) (f : A → Reader B) → ((x : A) → Yields Q (f x)) → Yields Q (m >>= f)
  any-Yields m f k =
      then-Yields {P = λ x. x ≡ x} m f (record { at = λ bytes rest x e. refl }) (λ x e. k x)

module _ {ℓ} {A : Type ℓ} where
  pub read_n-length :
      (n : ℕ) (get : Reader A) → Yields (λ (xs : List A). length xs ≡ n) (read_n n get)
  unfolding read_n
  read_n-length zero get = done-Yields [] refl
  read_n-length (suc n) get = any-Yields get _ (λ x.
      then-Yields (read_n n get) _ (read_n-length n get) (λ xs e. done-Yields (x ∷ xs) (ap suc e)))
