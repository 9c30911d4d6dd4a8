-- ===== src/Flash/Verified.antt =====
-- What the last status of `flash_b_side` promises, remapper_dual_a.cc.
use usb_hid_wireless_bridge.Base.{
  ℕ, zero, suc, ◌+◌, ◌%◌, ◌^◌, ◌≤◌, ◌<◌, ◌≡◌, ◌⊎◌, inl, inr, refl, ap, sym, ◌∙◌, subst, Bool, true,
  false, ◌&&◌, ◌||◌, not, List, [], ◌∷◌, ◌++◌, Option, none, some, length, take, drop, length-take,
  take-append-drop, ltb, leb, Bool-cases, ◌==◌, if◌then◌else◌, arith, bit_or,
}
use usb_hid_wireless_bridge.Flash.{
  Swd, Loader, Readback, verified, failed, out_of_fuel, set_b_flash_status, unless_error,
  first_difference, compared, read_back, after_readback, write_image, reach_cores, flash_b_side,
}

-- The bytes stand in the flash from an address on.
unfoldable pub holds : (ℕ → ℕ) → ℕ → List ℕ → Bool
holds flash a [] = true
holds flash a (x ∷ xs) = (flash a == x) && holds flash (suc a) xs

-- A read that succeeds has the bytes of the flash in its buffer.
abbrev pub ReadsFlash : (ℕ → ℕ) → Swd → Type 0
ReadsFlash flash d =
    (address count i : ℕ)
    → d.mem_read_block address count ≡ 0
    → i < count
    → d.readback address count i ≡ flash (address + i)

pub holds_nothing : (flash : ℕ → ℕ) (a : ℕ) → holds flash a [] ≡ true
unfolding holds
holds_nothing flash a = refl

holds-append :
    (flash : ℕ → ℕ) (a : ℕ) (xs ys : List ℕ)
    → holds flash a xs ≡ true
    → holds flash (a + length xs) ys ≡ true
    → holds flash a (xs ++ ys) ≡ true
unfolding holds
holds-append flash a [] ys h k = subst (λ n. holds flash n ys ≡ true) (omega arith) k
holds-append flash a (x ∷ xs) ys h k =
    let rest : holds flash (suc a) (xs ++ ys) ≡ true =
      holds-append flash (suc a) xs ys (ground (arith, h))
        (subst (λ n. holds flash n ys ≡ true) (omega arith) k) in
    ground (arith, h, rest)

first_difference-holds :
    (flash readback : ℕ → ℕ) (a i n : ℕ) (xs : List ℕ)
    → ((j : ℕ) → j < n → readback j ≡ flash (a + j))
    → i + length xs ≤ n
    → first_difference readback i xs ≡ none
    → holds flash (a + i) xs ≡ true
unfolding first_difference holds
first_difference-holds flash readback a i n [] r b h = refl
first_difference-holds flash readback a i n (x ∷ xs) r b h =
    let byte = r i (omega (arith, b)) in
    let equal : (readback i == x) ≡ true = ground (arith, h) in
    let rest : holds flash (suc (a + i)) xs ≡ true =
      subst (λ m. holds flash m xs ≡ true) (omega arith)
        (first_difference-holds flash readback a (suc i) n xs r (omega (arith, b))
          (ground (arith, h))) in
    ground (arith, byte, equal, rest)

-- An end of reading back is sound.
data Sound (flash : ℕ → ℕ) (a : ℕ) (image : List ℕ) : Readback → Type 0 where
  is_there : holds flash a image ≡ true → Sound flash a image verified
  is_not : (detail : ℕ) → Sound flash a image (failed detail)

compared-Sound :
    (flash : ℕ → ℕ) (a offset : ℕ) (block rest : List ℕ) (o : Option ℕ) (r : Readback)
    → (o ≡ none → holds flash a block ≡ true)
    → Sound flash (a + length block) rest r
    → Sound flash a (block ++ rest) (compared offset o r)
unfolding compared
compared-Sound flash a offset block rest (some i) r h k = is_not ((offset + i) % 2 ^ 32)
compared-Sound flash a offset block rest none verified h (is_there k) =
    is_there (holds-append flash a block rest (h refl) k)
compared-Sound flash a offset block rest none (failed detail) h k = is_not detail
compared-Sound flash a offset block rest none out_of_fuel h k = elim k [ ]

pub by_test {ℓ} :
    {A : Type 0} (P : A → Type ℓ) (b : Bool) (x y : A)
    → (b ≡ true → P x)
    → (b ≡ false → P y)
    → P (if b then x else y)
by_test P true x y f g = f refl
by_test P false x y f g = g refl

pub drop_nil : (n : ℕ) → drop {A = ℕ} n [] ≡ []
drop_nil zero = refl
drop_nil (suc n) = refl

pub drop-drop : (m n : ℕ) (xs : List ℕ) → drop m (drop n xs) ≡ drop (n + m) xs
drop-drop m zero xs = ap (λ k. drop k xs) (omega arith)
drop-drop m (suc n) [] = drop_nil m ∙ sym (drop_nil (suc n + m))
drop-drop m (suc n) (x ∷ xs) =
    let count : suc (n + m) ≡ suc n + m = omega arith in
    drop-drop m n xs ∙ ap (λ k. drop k (x ∷ xs)) count

pub drop_all : (n : ℕ) (xs : List ℕ) → length xs ≤ n → drop n xs ≡ []
drop_all n [] h = drop_nil n
drop_all zero (x ∷ xs) h = absurd (omega (arith, h))
drop_all (suc n) (x ∷ xs) h = drop_all n xs (omega (arith, h))

-- What follows a block: the next 256 bytes, or nothing when the block was a short one.
after_block :
    (flash : ℕ → ℕ) (a n : ℕ) (rest : List ℕ) (r : Readback)
    → (n ≡ 256) ⊎ (rest ≡ [])
    → Sound flash (a + 256) rest r
    → Sound flash (a + n) rest r
after_block flash a n rest r (inl e) k = subst (λ m. Sound flash (a + m) rest r) (sym e) k
after_block flash a n rest verified (inr e) (is_there k) =
    is_there (subst (λ l. holds flash (a + n) l ≡ true) (sym e) (holds_nothing flash (a + n)))
after_block flash a n rest (failed detail) (inr e) k = is_not detail
after_block flash a n rest out_of_fuel (inr e) k = elim k [ ]

pub short_block : (n : ℕ) (xs : List ℕ) → (length (take n xs) ≡ n) ⊎ (drop n xs ≡ [])
short_block n xs = elim (Bool-cases (leb n (length xs))) [
  | inl e ↦ inl (ground (arith, e, length-take n xs))
  | inr e ↦ inr (drop_all n xs (ground (arith, e)))
]

moved :
    {flash : ℕ → ℕ} {a b : ℕ} {xs ys : List ℕ} {r q : Readback}
    → a ≡ b
    → xs ≡ ys
    → r ≡ q
    → Sound flash a xs r
    → Sound flash b ys q
moved {flash = flash} {a = a} {xs = xs} {ys = ys} {q = q} e f g k =
    subst (λ n. Sound flash n ys q) e
      (subst (λ l. Sound flash a l q) f (subst (Sound flash a xs) g k))

block_holds :
    (flash : ℕ → ℕ) (d : Swd) (a : ℕ) (block : List ℕ)
    → ReadsFlash flash d
    → a < 2 ^ 32
    → d.mem_read_block (a % 2 ^ 32) (length block) ≡ 0
    → first_difference (d.readback (a % 2 ^ 32) (length block)) 0 block ≡ none
    → holds flash a block ≡ true
block_holds flash d a block r b rc h =
    let address : a % 2 ^ 32 ≡ a = omega (arith, b) in
    subst (λ n. holds flash n block ≡ true) (omega arith)
      (first_difference-holds flash (d.readback (a % 2 ^ 32) (length block)) a 0 (length block)
        block (λ j l. r (a % 2 ^ 32) (length block) j rc l ∙ ap (λ n. flash (n + j)) address)
        (omega arith) h)

read_back-Sound :
    (flash : ℕ → ℕ) (d : Swd) (image : List ℕ) (fuel offset : ℕ)
    → ReadsFlash flash d
    → length image ≤ 2 ^ 24
    → 0 < fuel
    → length image < fuel + offset
    → offset < 2 ^ 25
    → Sound flash (2 ^ 28 + offset) (drop offset image) (read_back fuel d image offset)
unfolding read_back
read_back-Sound flash d image zero offset r b p f o = absurd (omega (arith, p))
read_back-Sound flash d image (suc fuel) offset r b p f o =
    by_test (Sound flash a (drop offset image)) (not (ltb offset (length image))) verified other
      (λ e. is_there (
        subst (λ l. holds flash a l ≡ true) (sym (drop_all offset image (ground (arith, e))))
          (holds_nothing flash a)))
      (λ e.
        by_test (Sound flash a (drop offset image)) (not (rc == 0)) (failed (bit_or (2 ^ 31) rc)) _
          (λ u. is_not (bit_or (2 ^ 31) rc))
          (λ u.
            subst
              (λ l. Sound flash a l (
                compared offset (first_difference (d.readback (a % 2 ^ 32) (length block)) 0 block)
                  (read_back fuel d image ((offset + 256) % 2 ^ 32))))
              (take-append-drop 256 (drop offset image))
              (compared-Sound flash a offset block (drop 256 (drop offset image)) _ _
                (λ none_differs.
                  block_holds flash d a block r (omega (arith, o)) (ground (arith, u)) none_differs)
                (after_block flash a (length block) _ _ (short_block 256 (drop offset image)) (
                  moved (omega arith) (sym (drop-drop 256 offset image))
                    (ap (read_back fuel d image) (omega (arith, o)))
                    (read_back-Sound flash d image fuel (offset + 256) r b (ground (arith, e, f))
                      (omega (arith, f)) (ground (arith, e, b))))))))
  where
    a : ℕ
    a = 2 ^ 28 + offset

    block : List ℕ
    block = take 256 (drop offset image)

    rc : ℕ
    rc = d.mem_read_block (a % 2 ^ 32) (length block)

    other : Readback
    other =
        if not (rc == 0)
        then failed (bit_or (2 ^ 31) rc)
        else compared offset (first_difference (d.readback (a % 2 ^ 32) (length block)) 0 block)
            (read_back fuel d image ((offset + 256) % 2 ^ 32))

-- `flash_b_side` has ended, and its last status is true.
pub data Ends (flash : ℕ → ℕ) (image : List ℕ) : Option Loader → Type 0 where
  ends :
      (s : Loader)
      → (not (s.status.phase == 5) || holds flash (2 ^ 28) image) ≡ true
      → Ends flash image (some s)

unless_error-Ends :
    (flash : ℕ → ℕ) (image : List ℕ) (phase rc : ℕ) (s : Loader) (next : Option Loader)
    → phase < 5
    → Ends flash image next
    → Ends flash image (unless_error image phase rc s next)
unfolding unless_error set_b_flash_status
unless_error-Ends flash image phase rc s next p k =
    by_test (Ends flash image) (rc == 0) next (some (set_b_flash_status image phase rc s)) (λ e. k)
      (λ e. ends (set_b_flash_status image phase rc s) (ground (arith, p)))

after_readback-Ends :
    (flash : ℕ → ℕ) (image : List ℕ) (s : Loader) (r : Readback)
    → Sound flash (2 ^ 28) image r
    → Ends flash image (after_readback image s r)
unfolding after_readback set_b_flash_status
after_readback-Ends flash image s verified (is_there h) = ends (set_b_flash_status image 5 0 s) h
after_readback-Ends flash image s (failed detail) k =
    ends (set_b_flash_status image 4 detail s) refl
after_readback-Ends flash image s out_of_fuel k = elim k [ ]

reach_cores-Ends :
    (flash : ℕ → ℕ) (d : Swd) (image : List ℕ) (s : Loader)
    → ReadsFlash flash d
    → length image ≤ 2 ^ 24
    → Ends flash image (reach_cores d image s)
unfolding reach_cores write_image
reach_cores-Ends flash d image s r b = unless_error-Ends flash image 2 _ s _ (omega arith) (
    unless_error-Ends flash image 2 _ s _ (omega arith) (
      unless_error-Ends flash image 3 _ _ _ (omega arith) (
        after_readback-Ends flash image _ _ (
          read_back-Sound flash d image (suc (length image)) 0 r b (omega arith) (omega arith)
            (omega arith)))))

-- When the reads over SWD give what is in the flash of board B, and the program has at most 2^24 bytes:
-- `flash_b_side` ends, whatever the SWD routines answer, and its last status is 5 only if every byte
-- of the program is in the flash.
pub flash_b_side-Ends :
    (flash : ℕ → ℕ) (d : Swd) (image : List ℕ) (s : Loader)
    → ReadsFlash flash d
    → length image ≤ 2 ^ 24
    → Ends flash image (flash_b_side d image s)
unfolding flash_b_side
flash_b_side-Ends flash d image s r b =
    by_test (Ends flash image) s.swd_initialized _ _ (λ e. reach_cores-Ends flash d image _ r b)
      (λ e.
        unless_error-Ends flash image 2 _ _ _ (omega arith) (reach_cores-Ends flash d image _ r b))
