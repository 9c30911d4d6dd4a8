-- ===== src/Descriptor/Marks.antt =====
-- Which usages the items of a descriptor put into the usage maps, and at which bits.
use usb_hid_wireless_bridge.Base.{
  ℕ, zero, suc, ◌+◌, ◌*◌, ◌/◌, ◌%◌, ◌^◌, ◌≤◌, ◌<◌, ◌≢◌, Bool, true, false, ◌||◌, List, Option, none,
  some, ltb, leb, ==_iff, ◌==◌, ◌≡◌, refl, ap, ◌∙◌, if◌then◌else◌, arith,
}
use usb_hid_wireless_bridge.Usages.{UsageDef}
use usb_hid_wireless_bridge.Descriptor.{
  ReportType, Entry, find_usage, bit_limit, Parser, advance, mark_usage, mark_scalar, mark_range,
  mark_list, scalar_def, position,
}
use usb_hid_wireless_bridge.Descriptor.Main.{
  array, scalars, add_fields_of, main_item, has_range, has_usages, malformed_one_bit_array,
}
use usb_hid_wireless_bridge.Descriptor.Found.{same_type_refl, or_else, find_usage-mark_usage}

module _ (t : ReportType) (relative : Bool) where
  abbrev pub scalar_at : Parser → ℕ → UsageDef
  scalar_at s bitpos = record (scalar_def t relative s) { bitpos = bitpos }

  -- An entry of the map is not changed by later items.
  mark_usage_keeps :
      (u v : ℕ) (d x : UsageDef) (es : List Entry)
      → find_usage t d.report_id v es ≡ some x
      → find_usage t d.report_id v (mark_usage t u d es) ≡ some x
  mark_usage_keeps u v d x es e =
      find_usage-mark_usage t u d es v ∙ step (leb (bit_limit d.report_id) d.bitpos) (v == u) refl
    where
      step :
          (b c : Bool)
          → (v == u) ≡ c
          → (if b
              then find_usage t d.report_id v es
              else if c
              then or_else (find_usage t d.report_id u es) (some d)
              else find_usage t d.report_id v es)
            ≡ some x
      step true c q = e
      step false false q = e
      step false true q =
          ap (λ (o : Option UsageDef). or_else o (some d))
            (ap (λ (w : ℕ). find_usage t d.report_id w es) (omega (arith, (==_iff v u).0 q)) ∙ e)

  mark_range_keeps :
      (n u v : ℕ) (s : Parser) (x : UsageDef)
      → find_usage t s.report_id v s.usage_map ≡ some x
      → find_usage t s.report_id v (mark_range t relative n u s).usage_map ≡ some x
  unfolding mark_range mark_scalar advance
  mark_range_keeps zero u v s x e = e
  mark_range_keeps (suc n) u v s x e =
      mark_range_keeps n (if ltb u s.usage_maximum then u + 1 else u) v (mark_scalar t relative u s)
        x (mark_usage_keeps u v (scalar_def t relative s) x s.usage_map e)

  mark_usage_adds :
      (u : ℕ) (d : UsageDef) (es : List Entry)
      → find_usage t d.report_id u es ≡ none
      → d.bitpos < bit_limit d.report_id
      → find_usage t d.report_id u (mark_usage t u d es) ≡ some d
  mark_usage_adds u d es e h =
      find_usage-mark_usage t u d es u
      ∙ added (leb (bit_limit d.report_id) d.bitpos) (u == u) (ground arith) (ground arith)
    where
      added :
          (b c : Bool)
          → b ≡ false
          → c ≡ true
          → (if b
              then find_usage t d.report_id u es
              else if c
              then or_else (find_usage t d.report_id u es) (some d)
              else find_usage t d.report_id u es)
            ≡ some d
      added true c p q = ground arith
      added false false p q = ground arith
      added false true p q = ap (λ (o : Option UsageDef). or_else o (some d)) e

  mark_usage_skips :
      (u v : ℕ) (d : UsageDef) (es : List Entry)
      → v ≢ u
      → find_usage t d.report_id v es ≡ none
      → find_usage t d.report_id v (mark_usage t u d es) ≡ none
  mark_usage_skips u v d es n e = find_usage-mark_usage t u d es v ∙ ground (arith, e, n)

  range_at :
      (n i u v q : ℕ) (s : Parser)
      → i < n
      → v ≡ u + i
      → v ≤ s.usage_maximum
      → q ≡ position t relative s + s.report_size * i
      → q < bit_limit s.report_id
      → find_usage t s.report_id v s.usage_map ≡ none
      → find_usage t s.report_id v (mark_range t relative n u s).usage_map ≡ some (scalar_at s q)
  unfolding mark_range mark_scalar advance
  range_at zero i u v q s l ev m eq p e = absurd (omega arith)
  range_at (suc n) zero u v q s l ev m eq p e =
      mark_range_keeps n (if ltb u s.usage_maximum then u + 1 else u) v (mark_scalar t relative u s)
        (scalar_at s q)
        (ap
            (λ (w : ℕ).
              find_usage t s.report_id w (mark_usage t u (scalar_def t relative s) s.usage_map))
            (omega arith)
          ∙ mark_usage_adds u (scalar_def t relative s) s.usage_map
              (ap (λ (w : ℕ). find_usage t s.report_id w s.usage_map) (omega arith) ∙ e)
              (omega arith)
          ∙ ap (λ (b : ℕ). some (scalar_at s b)) (omega arith))
  range_at (suc n) (suc j) u v q s l ev m eq p e =
      range_at n j (if ltb u s.usage_maximum then u + 1 else u) v q (mark_scalar t relative u s)
        (omega arith) (ground arith) m (ground (arith, same_type_refl t)) p
        (mark_usage_skips u v (scalar_def t relative s) s.usage_map (omega arith) e)

-- An item with a range of usages, one field for each: the i-th usage of the range is then found in
-- the map, as a scalar of the item's size at the i-th field behind the present position, if it was
-- not there before and lies within the first 64 bytes. The same holds for a one-bit array that is
-- read as a bitmap.
pub find_usage-main_item :
    (t : ReportType) (value i : ℕ) (s : Parser)
    → (value % 4 == 2) || malformed_one_bit_array t value s ≡ true
    → has_range t (value / 4 % 2 == 1) s ≡ true
    → i < s.report_count
    → s.usage_minimum + i ≤ s.usage_maximum
    → s.bitpos t s.report_id + s.report_size * i < bit_limit s.report_id
    → find_usage t s.report_id (s.usage_minimum + i) s.usage_map ≡ none
    → find_usage t s.report_id (s.usage_minimum + i) (main_item t value s).usage_map
      ≡ some (scalar_at t (value / 4 % 2 == 1) s (s.bitpos t s.report_id + s.report_size * i))
unfolding main_item add_fields_of scalars
find_usage-main_item t value i s v r l m p e =
    by_case ((value % 4 == 2) || malformed_one_bit_array t value s)
      (has_range t (value / 4 % 2 == 1) s) v r
  where
    relative : Bool
    relative = value / 4 % 2 == 1

    pick : Bool → Bool → Parser
    pick b c =
        if b
        then if c
          then mark_range t relative s.report_count s.usage_minimum s
          else if has_usages t relative s
          then mark_list t relative s.report_count 0 s
          else advance t (s.report_size * s.report_count % 2 ^ 32) s
        else if value % 4 == 0
        then array t relative s
        else advance t (s.report_size * s.report_count % 2 ^ 32) s

    by_case :
        (b c : Bool)
        → b ≡ true
        → c ≡ true
        → find_usage t s.report_id (s.usage_minimum + i) (pick b c).usage_map
          ≡ some (scalar_at t relative s (s.bitpos t s.report_id + s.report_size * i))
    by_case true true v r =
        range_at t relative s.report_count i s.usage_minimum (s.usage_minimum + i)
          (s.bitpos t s.report_id + s.report_size * i) s l refl m refl p e
    by_case true false v r = ground arith
    by_case false c v r = ground arith
