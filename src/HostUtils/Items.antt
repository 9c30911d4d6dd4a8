-- ===== src/HostUtils/Items.antt =====
-- `hid_report_descriptor_has_input` against the grammar of report descriptors.
use usb_hid_wireless_bridge.Base.{
  ℕ, zero, suc, ◌+◌, ◌*◌, ◌≤◌, ◌<◌, ◌≡◌, ◌≢◌, refl, ap, ◌∙◌, Bool, true, false, ◌||◌, List, [], ◌∷◌,
  ◌++◌, length, drop, ltb, ◌==◌, if◌then◌else◌, arith, length-append, length-drop, ap₂, Option,
  none, some,
}
use usb_hid_wireless_bridge.HostUtils.{
  item_size, skip_long, is_main_input, has_input_from, hid_report_descriptor_has_input,
}

-- An item: a short one with its type and tag (the upper six bits of its prefix) and its data, a long
-- one with its tag and data.
pub data Item : Type 0 where
  short : ℕ → List ℕ → Item
  long : ℕ → List ℕ → Item

-- The size code of a short item's data.
abbrev pub size_code : ℕ → ℕ
size_code n = if n == 4 then 3 else n

-- A short item has 0, 1, 2 or 4 bytes of data and is not the prefix of long items; a long one has at
-- most 255.
abbrev pub IsItem : Item → Type 0
IsItem (short kind content) =
    (length content ≤ 4) × (length content ≢ 3) × (kind * 4 + size_code (length content) < 0xfe)
IsItem (long tag content) = length content ≤ 255

abbrev pub AreItems : List Item → Type 0
AreItems [] = Unit
AreItems (i ∷ is) = IsItem i × AreItems is

abbrev pub print_item : Item → List ℕ
print_item (short kind content) = (kind * 4 + size_code (length content)) ∷ content
print_item (long tag content) = 0xfe ∷ length content ∷ tag ∷ content

abbrev pub print_items : List Item → List ℕ
print_items [] = []
print_items (i ∷ is) = print_item i ++ print_items is

-- Main items of type and tag 0x80.
abbrev pub is_input : Item → Bool
is_input (short kind content) = kind == 32
is_input (long tag content) = false

abbrev pub any_input : List Item → Bool
any_input [] = false
any_input (i ∷ is) = is_input i || any_input is

drop-append : (xs ys : List ℕ) → drop (length xs) (xs ++ ys) ≡ ys
drop-append [] ys = refl
drop-append (x ∷ xs) ys = drop-append xs ys

item_size_lem : (kind n : ℕ) → n ≤ 4 → n ≢ 3 → item_size (kind * 4 + size_code n) ≡ n
item_size_lem kind n h k = ground arith

is_main_input_lem : (kind n : ℕ) → n ≤ 4 → is_main_input (kind * 4 + size_code n) ≡ (kind == 32)
is_main_input_lem kind n h = ground arith

-- A round of the loop at a short item that ends within the descriptor.
short_round :
    (a b c d long_way later : Bool)
    → a ≡ false
    → b ≡ false
    → c ≡ d
    → (if a then long_way else if b then false else if c then true else later) ≡ (d || later)
short_round a b c d long_way later p q r = ground arith

has_input_from-print_items :
    (fuel : ℕ) (is : List Item)
    → AreItems is
    → length (print_items is) ≤ fuel
    → has_input_from fuel (print_items is) ≡ any_input is
unfolding has_input_from
has_input_from-print_items fuel [] v h = refl
has_input_from-print_items zero (short kind content ∷ is) v h = absurd (omega arith)
has_input_from-print_items zero (long tag content ∷ is) v h = absurd (omega arith)
has_input_from-print_items (suc fuel) (short kind content ∷ is) (v, w) h =
    let n = length content in
    let rest = print_items is in
    let size = item_size_lem kind n v.0 v.1 in
    let shorter = length-append content rest in
    let left = ap (λ k. drop k (content ++ rest)) size ∙ drop-append content rest in
    short_round (kind * 4 + size_code n == 0xfe)
      (ltb (length (content ++ rest)) (item_size (kind * 4 + size_code n)))
      (is_main_input (kind * 4 + size_code n)) (kind == 32) _ _ (ground (arith, v.2))
      (ground (arith, size, shorter)) (is_main_input_lem kind n v.0)
    ∙ ap (λ l. (kind == 32) || has_input_from fuel l) left
    ∙ ap (λ b. (kind == 32) || b) (has_input_from-print_items fuel is w (omega (arith, shorter)))
has_input_from-print_items (suc fuel) (long tag content ∷ is) (v, w) h =
    let rest = print_items is in
    let shorter = length-append content rest in
    ap (λ b. behind (if b then none else some (drop (length content) (content ++ rest))))
      {y = false} (ground (arith, shorter))
    ∙ ap (has_input_from fuel) (drop-append content rest)
    ∙ has_input_from-print_items fuel is w (omega (arith, shorter))
  where
    behind : Option (List ℕ) → Bool
    behind none = false
    behind (some bs) = has_input_from fuel bs

-- On any descriptor that is a sequence of well-formed short and long items, the answer is whether one
-- of them is a main Input item; data bytes are never taken for items.
pub has_input-print_items :
    (is : List Item) → AreItems is → hid_report_descriptor_has_input (print_items is) ≡ any_input is
unfolding hid_report_descriptor_has_input
has_input-print_items is v = has_input_from-print_items (length (print_items is)) is v (omega arith)

-- Rounds beyond the number of bytes change nothing.
has_input_from_same :
    (f g : ℕ) (bs : List ℕ)
    → length bs ≤ f
    → length bs ≤ g
    → has_input_from f bs ≡ has_input_from g bs
unfolding has_input_from
has_input_from_same f g [] h k = refl
has_input_from_same zero g (p ∷ rest) h k = absurd (omega arith)
has_input_from_same (suc f) zero (p ∷ rest) h k = absurd (omega arith)
has_input_from_same (suc f) (suc g) (p ∷ rest) h k =
    ap₂
      (λ l s.
        if p == 0xfe
        then l
        else if ltb (length rest) (item_size p)
        then false
        else if is_main_input p
        then true
        else s)
      (long_way rest (omega arith) (omega arith) (λ bs. has_input_from_same f g bs))
      (has_input_from_same f g (drop (item_size p) rest)
        (omega (arith, length-drop (item_size p) rest))
        (omega (arith, length-drop (item_size p) rest)))
  where
    behind : ℕ → Option (List ℕ) → Bool
    behind n none = false
    behind n (some bs) = has_input_from n bs

    long_way :
        (rest : List ℕ)
        → length rest ≤ f
        → length rest ≤ g
        → ((bs : List ℕ)
            → length bs ≤ f
            → length bs ≤ g
            → has_input_from f bs ≡ has_input_from g bs)
        → behind f (skip_long rest) ≡ behind g (skip_long rest)
    long_way [] h k same = refl
    long_way (size ∷ []) h k same = refl
    long_way (size ∷ tag ∷ more) h k same = cut (ltb (length more) size) (
        same (drop size more) (omega (arith, length-drop size more))
          (omega (arith, length-drop size more)))
      where
        cut :
            (b : Bool)
            → has_input_from f (drop size more) ≡ has_input_from g (drop size more)
            → behind f (if b then none else some (drop size more))
              ≡ behind g (if b then none else some (drop size more))
        cut true e = refl
        cut false e = e

-- The loop ends by itself within as many rounds as there are bytes: more rounds give the same.
pub has_input_from_enough :
    (fuel : ℕ) (bs : List ℕ)
    → length bs ≤ fuel
    → has_input_from fuel bs ≡ hid_report_descriptor_has_input bs
unfolding hid_report_descriptor_has_input
has_input_from_enough fuel bs h = has_input_from_same fuel (length bs) bs h (omega arith)
