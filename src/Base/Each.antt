-- ===== src/Base/Each.antt =====
-- A property of each element of a list, to be taken apart and put together by clauses.
use usb_hid_wireless_bridge.Base.{List, [], ◌∷◌}

pub data Each {ℓ κ} {A : Type ℓ} (P : A → Type κ) : List A → Type (ℓ ⊔ κ) where
  none_left : Each P []
  and_then : {x : A} {xs : List A} → P x → Each P xs → Each P (x ∷ xs)

module _ {ℓ κ} {A : Type ℓ} {P : A → Type κ} where
  pub Each-head : {x : A} {xs : List A} → Each P (x ∷ xs) → P x
  Each-head (and_then p ps) = p

  pub Each-tail : {x : A} {xs : List A} → Each P (x ∷ xs) → Each P xs
  Each-tail (and_then p ps) = ps

module _ {ℓ κ} {A : Type ℓ} {P Q : A → Type κ} where
  pub Each-map : {xs : List A} → ((x : A) → P x → Q x) → Each P xs → Each Q xs
  Each-map f none_left = none_left
  Each-map f (and_then {x = x} p ps) = and_then (f x p) (Each-map f ps)

module _ {ℓ κ} {A : Type ℓ} {P Q R : A → Type κ} where
  pub Each-zip : {xs : List A} → ((x : A) → P x → Q x → R x) → Each P xs → Each Q xs → Each R xs
  Each-zip f none_left none_left = none_left
  Each-zip f (and_then {x = x} p ps) (and_then q qs) = and_then (f x p q) (Each-zip f ps qs)
