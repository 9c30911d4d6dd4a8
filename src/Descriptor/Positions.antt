-- ===== src/Descriptor/Positions.antt =====
-- How far the items of a descriptor advance the bit positions of the reports.
use usb_hid_wireless_bridge.Base.{
  ℕ, zero, suc, ◌+◌, ◌*◌, ◌/◌, ◌%◌, ◌^◌, ◌<◌, Bool, true, false, ◌&&◌, ◌||◌, ltb, ◌==◌, ◌≡◌, refl,
  ◌∙◌, if◌then◌else◌, arith,
}
use usb_hid_wireless_bridge.Base.Int.{ℤ, pos, ◌+ℤ◌, ◌-ℤ◌, uint32, pos_part}
use usb_hid_wireless_bridge.Descriptor.{
  ReportType, same_type, Parser, advance, mark_scalar, mark_range, mark_list, mark_array,
  mark_usage, next_usage, other_usages, array_def,
}
use usb_hid_wireless_bridge.Descriptor.Main.{
  never_ends, scalars, array, add_fields_of, main_item, has_range, has_usages,
  effective_usage_maximum, malformed_one_bit_array,
}

-- The bit position of a report, `bits` further if it is the report of an item.
abbrev pub moved : ReportType → ℕ → Parser → ReportType → ℕ → ℕ
moved report_type bits s t id =
    if same_type t report_type && (id == s.report_id)
    then (s.bitpos t id + bits) % 2 ^ 16
    else s.bitpos t id

moved_none : (c : Bool) (b size : ℕ) → b < 2 ^ 16 → b ≡ (if c then (b + size * 0) % 2 ^ 16 else b)
moved_none c b size h = ground arith

moved_more :
    (c : Bool) (b size n : ℕ)
    → (if c
        then ((if c then (b + size) % 2 ^ 16 else b) + size * n) % 2 ^ 16
        else if c
        then (b + size) % 2 ^ 16
        else b)
      ≡ (if c then (b + size * suc n) % 2 ^ 16 else b)
moved_more c b size n = ground arith

moved-lt : (c : Bool) (b size : ℕ) → b < 2 ^ 16 → (if c then (b + size) % 2 ^ 16 else b) < 2 ^ 16
moved-lt c b size h = ground arith

module _ (report_type : ReportType) (relative : Bool) (t : ReportType) (id : ℕ) where
  abbrev mine : Parser → Bool
  mine s = same_type t report_type && (id == s.report_id)

  bitpos-mark_range :
      (n usage : ℕ) (s : Parser)
      → s.bitpos t id < 2 ^ 16
      → (mark_range report_type relative n usage s).bitpos t id
        ≡ moved report_type (s.report_size * n) s t id
  unfolding mark_range mark_scalar advance
  bitpos-mark_range zero usage s h = moved_none (mine s) (s.bitpos t id) s.report_size h
  bitpos-mark_range (suc n) usage s h =
      bitpos-mark_range n (if ltb usage s.usage_maximum then usage + 1 else usage)
        (mark_scalar report_type relative usage s)
        (moved-lt (mine s) (s.bitpos t id) s.report_size h)
      ∙ moved_more (mine s) (s.bitpos t id) s.report_size n

  bitpos-mark_list :
      (n usage : ℕ) (s : Parser)
      → s.bitpos t id < 2 ^ 16
      → (mark_list report_type relative n usage s).bitpos t id
        ≡ moved report_type (s.report_size * n) s t id
  unfolding mark_list mark_scalar advance
  bitpos-mark_list zero usage s h = moved_none (mine s) (s.bitpos t id) s.report_size h
  bitpos-mark_list (suc n) usage s h =
      let u = next_usage report_type relative usage s.usages in
      bitpos-mark_list n u
        (mark_scalar report_type relative u
          record s { usages = other_usages report_type relative s.usages })
        (moved-lt (mine s) (s.bitpos t id) s.report_size h)
      ∙ moved_more (mine s) (s.bitpos t id) s.report_size n

  -- The loop over the values of an array moves nothing.
  mark_array_moves_none :
      (n : ℕ) (index : ℤ) (usage : ℕ) (s : Parser)
      → moved report_type
          (s.report_size * s.report_count % 2 ^ 32)
          (mark_array report_type relative n index usage s)
          t
          id
        ≡ moved report_type (s.report_size * s.report_count % 2 ^ 32) s t id
  unfolding mark_array
  mark_array_moves_none zero index usage s = refl
  mark_array_moves_none (suc n) index usage s =
      let u = next_usage report_type relative usage s.usages in
      mark_array_moves_none n (index +ℤ pos 1) u record s {
        usages = other_usages report_type relative s.usages;
        usage_map =
            mark_usage report_type u (array_def report_type relative (uint32 index) 0 s)
              s.usage_map;
      }

  wrapped :
      (s : Parser) (c : Bool) (b bits : ℕ)
      → (if c then (b + bits % 2 ^ 32) % 2 ^ 16 else b) ≡ (if c then (b + bits) % 2 ^ 16 else b)
  wrapped s c b bits = ground arith

  bitpos-advance :
      (bits : ℕ) (s : Parser)
      → (advance report_type bits s).bitpos t id ≡ moved report_type bits s t id
  unfolding advance
  bitpos-advance bits s = refl

  bitpos-scalars :
      (s : Parser)
      → s.bitpos t id < 2 ^ 16
      → (scalars report_type relative s).bitpos t id
        ≡ moved report_type (s.report_size * s.report_count) s t id
  unfolding scalars
  bitpos-scalars s h =
      by_case (has_range report_type relative s) (has_usages report_type relative s)
    where
      pick : Bool → Bool → Parser
      pick b c =
          if b
          then mark_range report_type relative s.report_count s.usage_minimum s
          else if c
          then mark_list report_type relative s.report_count 0 s
          else advance report_type (s.report_size * s.report_count % 2 ^ 32) s

      by_case :
          (b c : Bool)
          → (pick b c).bitpos t id ≡ moved report_type (s.report_size * s.report_count) s t id
      by_case true c = bitpos-mark_range s.report_count s.usage_minimum s h
      by_case false true = bitpos-mark_list s.report_count 0 s h
      by_case false false =
          bitpos-advance (s.report_size * s.report_count % 2 ^ 32) s
          ∙ wrapped s (mine s) (s.bitpos t id) (s.report_size * s.report_count)

  bitpos-array :
      (s : Parser)
      → (array report_type relative s).bitpos t id
        ≡ moved report_type (s.report_size * s.report_count) s t id
  unfolding array advance
  bitpos-array s =
      by_case (has_range report_type relative s) (has_usages report_type relative s)
      ∙ wrapped s (mine s) (s.bitpos t id) (s.report_size * s.report_count)
    where
      pick : Bool → Bool → Parser
      pick b c =
          if b
          then record s {
            usage_map =
                mark_usage report_type s.usage_minimum
                  (array_def report_type relative (uint32 s.logical_minimum)
                    (effective_usage_maximum report_type relative s) s)
                  s.usage_map;
          }
          else if c
          then mark_array report_type relative
              (pos_part ((s.unsigned_logical_maximum -ℤ s.logical_minimum) +ℤ pos 1))
              s.logical_minimum 0 s
          else s

      by_case :
          (b c : Bool)
          → moved report_type (s.report_size * s.report_count % 2 ^ 32) (pick b c) t id
            ≡ moved report_type (s.report_size * s.report_count % 2 ^ 32) s t id
      by_case true c = refl
      by_case false true =
          mark_array_moves_none
            (pos_part ((s.unsigned_logical_maximum -ℤ s.logical_minimum) +ℤ pos 1))
            s.logical_minimum 0 s
      by_case false false = refl

-- Whatever an Input, Output or Feature item describes - a range of usages, a list, an array, a
-- malformed array or padding - unless its loop over the values of an array never ends (a list of usages
-- for an array whose Logical Maximum is 2^31 - 1): it advances the bit position of its report by
-- `report_size` times `report_count`, modulo 2^16, and no other bit position.
pub bitpos-main_item :
    (report_type : ReportType) (value : ℕ) (s : Parser) (t : ReportType) (id : ℕ)
    → never_ends report_type value s ≡ false
    → s.bitpos t id < 2 ^ 16
    → (main_item report_type value s).bitpos t id
      ≡ moved report_type (s.report_size * s.report_count) s t id
unfolding main_item add_fields_of
bitpos-main_item report_type value s t id ends h =
    by_case ((value % 4 == 2) || malformed_one_bit_array report_type value s) (value % 4 == 0)
      (value / 4 % 2 == 1)
  where
    pick : Bool → Bool → Bool → Parser
    pick b c relative =
        if b
        then scalars report_type relative s
        else if c
        then array report_type relative s
        else advance report_type (s.report_size * s.report_count % 2 ^ 32) s

    by_case :
        (b c relative : Bool)
        → (pick b c relative).bitpos t id
          ≡ moved report_type (s.report_size * s.report_count) s t id
    by_case true c relative = bitpos-scalars report_type relative t id s h
    by_case false true relative = bitpos-array report_type relative t id s
    by_case false false relative =
        bitpos-advance report_type relative t id (s.report_size * s.report_count % 2 ^ 32) s
        ∙ wrapped report_type relative t id s (same_type t report_type && (id == s.report_id))
            (s.bitpos t id) (s.report_size * s.report_count)
