-- ===== src/Descriptor/Walk/Ends.antt =====
-- When the loop over the items of a descriptor ends.
use usb_hid_wireless_bridge.Base.{
  ℕ, zero, suc, ◌+◌, ◌-◌, ◌*◌, ◌^◌, ◌≤◌, ◌<◌, Bool, true, false, ◌&&◌, ◌||◌, not, subst, Option,
  none, some, ltb, ltb→lt, ◌==◌, ◌≡◌, ◌≢◌, refl, ap, ap₂, bit_or, ◌/◌, ◌∙◌, if◌then◌else◌, arith,
}
use native.Mathlib.Decide.{dec_lt}
use usb_hid_wireless_bridge.Base.Int.{ℤ, pos, eq_ℤ, signed32}
use usb_hid_wireless_bridge.Descriptor.{Parser}
use usb_hid_wireless_bridge.Descriptor.Main.{never_ends}
use usb_hid_wireless_bridge.Descriptor.Maximum.{maximum-do_item}
use usb_hid_wireless_bridge.Descriptor.Walk.{
  data_size, do_item, item_value, stuck_item, stuck_at, parse_item, next_item, parse_items,
}

-- From one item to another, in the descriptor.
pub data Reaches (descriptor : ℕ → ℕ) (len : ℕ) : ℕ → ℕ → Type 0 where
  at_item : {i : ℕ} → Reaches descriptor len i i
  over_item :
      {i j : ℕ}
      → i < len - 1
      → Reaches descriptor len (next_item descriptor i) j
      → Reaches descriptor len i j

none_either :
    (s t u : Option Parser) (b c : Bool)
    → b ≡ true
    → s ≡ none
    → t ≡ none
    → (if b then if c then s else t else u) ≡ none
none_either s t u true true p q e = q
none_either s t u true false p q e = e
none_either s t u false c p q e = absurd (ground (arith, p))

-- If the items lead to the last byte of a descriptor and that byte is 0, the loop never ends,
-- whatever the number of rounds: on the real device it hangs.
pub trailing_zero_hangs :
    (descriptor : ℕ → ℕ) (len i : ℕ) (s : Parser) (fuel : ℕ)
    → Reaches descriptor len i (len - 1)
    → 0 < len
    → descriptor (len - 1) ≡ 0
    → parse_items descriptor fuel len i s ≡ none
unfolding parse_items
trailing_zero_hangs descriptor len i s zero r h z = refl
trailing_zero_hangs descriptor len i s (suc fuel) (at_item {i = i'}) h z =
    let ih = trailing_zero_hangs descriptor len i s fuel at_item h z in ground (arith, ih, z)
trailing_zero_hangs descriptor len i s (suc fuel) (over_item l r) h z =
    let stuck = trailing_zero_hangs descriptor len i s fuel (over_item l r) h z in
    let ih =
      trailing_zero_hangs descriptor len (next_item descriptor i) (parse_item descriptor i s) fuel r
        h z in
    none_either _ _ _ (ltb i len)
      (((descriptor i == 0) && (i == len - 1)) || stuck_at descriptor i s) (ground (arith, l)) stuck
      ih

zero_at :
    (descriptor : ℕ → ℕ) (i j : ℕ) → ((descriptor i == 0) && (i == j)) ≡ true → descriptor j ≡ 0
zero_at descriptor i j h = grind arith

pub record Ended (o : Option Parser) : Type 0 where
  pub result : Parser
  pub is_some : o ≡ some result

-- At none of the first `n` bytes there is a Logical Maximum of 2^31 - 1.
unfoldable pub no_endless_maximum : (ℕ → ℕ) → ℕ → Bool
no_endless_maximum descriptor zero = true
no_endless_maximum descriptor (suc n) =
    no_endless_maximum descriptor n
    && not (
        (descriptor n / 4 * 4 == 0x24)
        && eq_ℤ (signed32 (item_value descriptor (n + 1) (data_size (descriptor n))))
            (pos (2 ^ 31 - 1)))

no_maximum_at :
    (descriptor : ℕ → ℕ) (len i : ℕ)
    → no_endless_maximum descriptor len ≡ true
    → i < len
    → ((descriptor i / 4 * 4 == 0x24)
        && eq_ℤ
            (signed32 (item_value descriptor (i + 1) (data_size (descriptor i))))
            (pos (2 ^ 31 - 1)))
      ≡ false
unfolding no_endless_maximum
no_maximum_at descriptor zero i h l = absurd (omega (arith, l))
no_maximum_at descriptor (suc n) i h l = elim (dec_lt i n) [
  | yes m ↦ no_maximum_at descriptor n i (ground (arith, h)) m
  | no m ↦
      subst
        (λ k.
          ((descriptor k / 4 * 4 == 0x24)
            && eq_ℤ (signed32 (item_value descriptor (k + 1) (data_size (descriptor k))))
                (pos (2 ^ 31 - 1)))
          ≡ false)
        {x = n} {y = i} (omega (arith, l, m)) (ground (arith, h))
]

-- Without such an item no loop of the parser is endless, and none comes to be.
not_stuck :
    (descriptor : ℕ → ℕ) (i : ℕ) (s : Parser)
    → eq_ℤ s.unsigned_logical_maximum (pos (2 ^ 31 - 1)) ≡ false
    → stuck_at descriptor i s ≡ false
unfolding never_ends
not_stuck descriptor i s h = ground (arith, h)

maximum-parse_item :
    (descriptor : ℕ → ℕ) (len i : ℕ) (s : Parser)
    → no_endless_maximum descriptor len ≡ true
    → i < len
    → eq_ℤ s.unsigned_logical_maximum (pos (2 ^ 31 - 1)) ≡ false
    → eq_ℤ (parse_item descriptor i s).unsigned_logical_maximum (pos (2 ^ 31 - 1)) ≡ false
unfolding parse_item
maximum-parse_item descriptor len i s h l e =
    let size = data_size (descriptor i) in
    let value = item_value descriptor (i + 1) size in
    ap (λ z. eq_ℤ z (pos (2 ^ 31 - 1))) (maximum-do_item (descriptor i / 4 * 4) size value s)
    ∙ either (descriptor i / 4 * 4 == 0x24) (signed32 value) (no_maximum_at descriptor len i h l)
  where
    either :
        (b : Bool) (y : ℤ)
        → (b && eq_ℤ y (pos (2 ^ 31 - 1))) ≡ false
        → eq_ℤ (if b then y else s.unsigned_logical_maximum) (pos (2 ^ 31 - 1)) ≡ false
    either true y p = p
    either false y p = e

-- If the last byte of a descriptor is not 0, and neither the parser nor any place of the descriptor has
-- a Logical Maximum of 2^31 - 1 (with which the loop over the values of an array never ends), the loop
-- over the items ends within one round more than there are bytes.
pub parse_items-Ended :
    (descriptor : ℕ → ℕ) (len i : ℕ) (s : Parser) (fuel : ℕ)
    → descriptor (len - 1) ≢ 0
    → no_endless_maximum descriptor len ≡ true
    → eq_ℤ s.unsigned_logical_maximum (pos (2 ^ 31 - 1)) ≡ false
    → len - i < fuel
    → Ended (parse_items descriptor fuel len i s)
unfolding parse_items
parse_items-Ended descriptor len i s zero z m u h = absurd (omega arith)
parse_items-Ended descriptor len i s (suc fuel) z m u h =
    by_case (ltb i len) ((descriptor i == 0) && (i == len - 1)) (stuck_at descriptor i s) refl refl
      (not_stuck descriptor i s u)
      (λ l.
        parse_items-Ended descriptor len (next_item descriptor i) (parse_item descriptor i s) fuel z
          m (maximum-parse_item descriptor len i s m l u) (omega arith))
  where
    by_case :
        (b c d : Bool)
        → ltb i len ≡ b
        → ((descriptor i == 0) && (i == len - 1)) ≡ c
        → d ≡ false
        → (i < len
            → Ended (
                parse_items descriptor fuel len
                  (next_item descriptor i)
                  (parse_item descriptor i s)))
        → Ended (
            if b
            then if c || d
              then parse_items descriptor fuel len i s
              else parse_items descriptor fuel len
                  (next_item descriptor i)
                  (parse_item descriptor i s)
            else some s)
    by_case true true d p q e rest = absurd (z (zero_at descriptor i (len - 1) q))
    by_case true false true p q e rest = absurd (ground (arith, e))
    by_case true false false p q e rest = rest (ground arith)
    by_case false c d p q e rest = record { result = s; is_some = refl }

-- Two memories that agree on the first `n` bytes.
abbrev pub Agree : ℕ → (ℕ → ℕ) → (ℕ → ℕ) → Type 0
Agree n d e = (k : ℕ) → k < n → d k ≡ e k

item_value-Agree :
    (d e : ℕ → ℕ) (idx size n : ℕ)
    → Agree n d e
    → idx + size ≤ n
    → item_value d idx size ≡ item_value e idx size
unfolding item_value
item_value-Agree d e idx zero n a h = refl
item_value-Agree d e idx (suc i) n a h =
    ap₂ (λ (v b : ℕ). bit_or v (b * 2 ^ (8 * i))) (item_value-Agree d e idx i n a (omega arith))
      (a (idx + i) (omega arith))

parse_item-Agree :
    (d e : ℕ → ℕ) (len idx : ℕ) (s : Parser)
    → Agree (len + 4) d e
    → idx < len
    → parse_item d idx s ≡ parse_item e idx s
unfolding parse_item
parse_item-Agree d e len idx s a l =
    ap₂ (λ (p v : ℕ). do_item (p / 4 * 4) (data_size p) v s) same
      (item_value-Agree d e (idx + 1) (data_size (d idx)) (len + 4) a (ground arith)
        ∙ ap (λ (p : ℕ). item_value e (idx + 1) (data_size p)) same)
  where
    same : d idx ≡ e idx
    same = a idx (omega arith)

stuck_at-Agree :
    (d e : ℕ → ℕ) (len idx : ℕ) (s : Parser)
    → Agree (len + 4) d e
    → idx < len
    → stuck_at d idx s ≡ stuck_at e idx s
stuck_at-Agree d e len idx s a l =
    ap₂ (λ (p v : ℕ). stuck_item (p / 4 * 4) v s) same
      (item_value-Agree d e (idx + 1) (data_size (d idx)) (len + 4) a (ground arith)
        ∙ ap (λ (p : ℕ). item_value e (idx + 1) (data_size p)) same)
  where
    same : d idx ≡ e idx
    same = a idx (omega arith)

-- The parser reads four bytes beyond the end of a descriptor at most: what they are beyond that makes
-- no difference to the result.
pub parse_items-Agree :
    (d e : ℕ → ℕ) (fuel len idx : ℕ) (s : Parser)
    → Agree (len + 4) d e
    → parse_items d fuel len idx s ≡ parse_items e fuel len idx s
unfolding parse_items
parse_items-Agree d e zero len idx s a = refl
parse_items-Agree d e (suc fuel) len idx s a =
    by_case (ltb idx len) refl (parse_items-Agree d e fuel len idx s a)
      (λ i t. parse_items-Agree d e fuel len i t a)
  where
    one : (ℕ → ℕ) → Bool → Option Parser
    one m b =
        if b
        then if ((m idx == 0) && (idx == len - 1)) || stuck_at m idx s
          then parse_items m fuel len idx s
          else parse_items m fuel len (next_item m idx) (parse_item m idx s)
        else some s

    by_case :
        (b : Bool)
        → ltb idx len ≡ b
        → parse_items d fuel len idx s ≡ parse_items e fuel len idx s
        → ((i : ℕ) (t : Parser) → parse_items d fuel len i t ≡ parse_items e fuel len i t)
        → one d b ≡ one e b
    by_case true p stay next =
        let same = a idx (omega (arith, ltb→lt idx len p)) in
        let moved =
          next (next_item d idx) (parse_item d idx s)
          ∙ ap₂ (λ (i : ℕ) (t : Parser). parse_items e fuel len i t)
              (ap (λ (b : ℕ). idx + 1 + data_size b) same)
              (parse_item-Agree d e len idx s a (ltb→lt idx len p)) in
        ap₂
          (λ (t u : Option Parser).
            if ((d idx == 0) && (idx == len - 1)) || stuck_at d idx s then t else u)
          stay moved
        ∙ ap₂
            (λ (b : ℕ) (c : Bool).
              if ((b == 0) && (idx == len - 1)) || c
              then parse_items e fuel len idx s
              else parse_items e fuel len (next_item e idx) (parse_item e idx s))
            same (stuck_at-Agree d e len idx s a (ltb→lt idx len p))
    by_case false p stay next = refl
