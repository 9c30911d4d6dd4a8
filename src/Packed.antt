-- ===== src/Packed.antt =====
-- The packed structs of firmware/hid-remapper/firmware/src/types.h and dual.h as bytes, least
-- significant byte of a field first, and the pointer walks of config.cc over them. A pointer is the
-- list of the bytes from it to the end of its buffer; a read past that end is `none`.
pub mod RoundTrip
pub mod Total
pub mod Results
use usb_hid_wireless_bridge.Base.{
  ℕ, zero, suc, ◌+◌, ◌*◌, ◌/◌, ◌%◌, ◌^◌, List, [], ◌∷◌, ◌++◌, Option, none, some, map,
}

-- A value of one, two and four bytes as it is stored.
abbrev pub u8_bytes : ℕ → List ℕ
u8_bytes v = v % 256 ∷ []

abbrev pub u16_bytes : ℕ → List ℕ
u16_bytes v = v % 256 ∷ v / 2 ^ 8 % 256 ∷ []

abbrev pub u32_bytes : ℕ → List ℕ
u32_bytes v = v % 256 ∷ v / 2 ^ 8 % 256 ∷ v / 2 ^ 16 % 256 ∷ v / 2 ^ 24 % 256 ∷ []

abbrev pub Reader {ℓ} : Type ℓ → Type ℓ
Reader A = List ℕ → Option (A × List ℕ)

infixl 5 ◌>>=◌
unfoldable pub ◌>>=◌ {ℓ κ} : {A : Type ℓ} {B : Type κ} → Reader A → (A → Reader B) → Reader B
(m >>= f) bytes = elim (m bytes) [ none ↦ none | some (a, rest) ↦ f a rest ]

abbrev pub done {ℓ} : {A : Type ℓ} → A → Reader A
done a bytes = some (a, bytes)

-- `*ptr`, and the pointer moved behind it.
abbrev pub get_u8 : Reader ℕ
get_u8 [] = none
get_u8 (a ∷ rest) = some (a, rest)

abbrev pub get_u16 : Reader ℕ
get_u16 (a ∷ b ∷ rest) = some (a + b * 2 ^ 8, rest)
get_u16 _ = none

abbrev pub get_u32 : Reader ℕ
get_u32 (a ∷ b ∷ c ∷ d ∷ rest) = some (a + b * 2 ^ 8 + c * 2 ^ 16 + d * 2 ^ 24, rest)
get_u32 _ = none

module _ {ℓ} {A : Type ℓ} where
  -- A loop that reads one element after the other, `n` of them.
  unfoldable pub read_n : ℕ → Reader A → Reader (List A)
  read_n zero get = done []
  read_n (suc n) get = do x ← get; xs ← read_n n get; done (x ∷ xs)

  -- A loop that writes them.
  unfoldable pub write_each : (A → List ℕ) → List A → List ℕ
  write_each put [] = []
  write_each put (x ∷ xs) = put x ++ write_each put xs
