-- ===== src/Config/RoundTrip.antt =====
-- What `persist_config` writes for each part of a configuration, read by the loaders of config.cc.
use usb_hid_wireless_bridge.Base.{
  ℕ, ◌+◌, ◌-◌, ◌*◌, ◌/◌, ◌%◌, ◌^◌, ◌<◌, ◌≡◌, refl, ap, ◌∙◌, Bool, true, false, List, ◌++◌, some,
  length, if◌then◌else◌, arith,
}
use usb_hid_wireless_bridge.Base.Int.{
  ℤ, pos, negsuc, ◌≤ℤ◌, uint32, uint32-lt, signed32, int32, int32_fits,
}
use usb_hid_wireless_bridge.Base.Each.{Each, Each-map}
use usb_hid_wireless_bridge.Packed.{◌>>=◌, u32_bytes, get_u32}
use usb_hid_wireless_bridge.Packed.RoundTrip.{u16_back, u32_back, Reads, read_n-write_each}
use usb_hid_wireless_bridge.Config.{Mapping, Quirk, ConfigElem, has_val}
use usb_hid_wireless_bridge.Config.Persist.{
  mapping_bytes, quirk_bytes, entry_bytes, macro_bytes, elem_bytes, expr_bytes,
}
use usb_hid_wireless_bridge.Config.Load.{
  load_mapping, load_quirk, load_entry, load_macro, load_elem, load_expr,
}

-- The values that the types of the fields hold.
pub record IsMapping (m : Mapping) : Type 0 where
  pub target_usage-lt : m.target_usage < 2 ^ 32
  pub source_usage-lt : m.source_usage < 2 ^ 32
  pub scaling_ge : negsuc (2 ^ 31 - 1) ≤ℤ m.scaling
  pub scaling_le : m.scaling ≤ℤ pos (2 ^ 31 - 1)
  pub layer_mask-lt : m.layer_mask < 2 ^ 8
  pub flags-lt : m.flags < 2 ^ 8
  pub hub_ports-lt : m.hub_ports < 2 ^ 8

pub record IsQuirk (q : Quirk) : Type 0 where
  pub vendor_id-lt : q.vendor_id < 2 ^ 16
  pub product_id-lt : q.product_id < 2 ^ 16
  pub interface-lt : q.interface < 2 ^ 8
  pub report_id-lt : q.report_id < 2 ^ 8
  pub usage-lt : q.usage < 2 ^ 32
  pub bitpos-lt : q.bitpos < 2 ^ 16
  pub size_flags-lt : q.size_flags < 2 ^ 8

pub u8_back : (v : ℕ) → v < 2 ^ 8 → v % 256 ≡ v
u8_back v h = omega arith

scaling_back :
    (z : ℤ)
    → negsuc (2 ^ 31 - 1) ≤ℤ z
    → z ≤ℤ pos (2 ^ 31 - 1)
    → signed32 (
        uint32 z % 256
        + uint32 z / 2 ^ 8 % 256 * 2 ^ 8
        + uint32 z / 2 ^ 16 % 256 * 2 ^ 16
        + uint32 z / 2 ^ 24 % 256 * 2 ^ 24)
      ≡ z
unfolding int32
scaling_back z lo hi = ap signed32 (u32_back (uint32 z) (uint32-lt z)) ∙ int32_fits z lo hi

pub mapping_back : (m : Mapping) → IsMapping m → Reads load_mapping (mapping_bytes m) m
unfolding load_mapping mapping_bytes ◌>>=◌
mapping_back m h rest = rw (
  u32_back m.target_usage h.target_usage-lt,
  u32_back m.source_usage h.source_usage-lt,
  scaling_back m.scaling h.scaling_ge h.scaling_le,
  u8_back m.layer_mask h.layer_mask-lt,
  u8_back m.flags h.flags-lt,
  u8_back m.hub_ports h.hub_ports-lt,
)

pub quirk_back : (q : Quirk) → IsQuirk q → Reads load_quirk (quirk_bytes q) q
unfolding load_quirk quirk_bytes ◌>>=◌
quirk_back q h rest = rw (
  u16_back q.vendor_id h.vendor_id-lt,
  u16_back q.product_id h.product_id-lt,
  u8_back q.interface h.interface-lt,
  u8_back q.report_id h.report_id-lt,
  u32_back q.usage h.usage-lt,
  u16_back q.bitpos h.bitpos-lt,
  u8_back q.size_flags h.size_flags-lt,
)

-- The value of an element that has none is not stored, so it is the 0 that is read.
pub record IsElem (e : ConfigElem) : Type 0 where
  pub op-lt : e.op < 2 ^ 8
  pub val-lt : e.val < 2 ^ 32
  pub val_or_zero : e.val ≡ (if has_val e.op then e.val else 0)

pub elem_back : (e : ConfigElem) → IsElem e → Reads load_elem (elem_bytes e) e
unfolding load_elem elem_bytes ◌>>=◌
elem_back e h rest = by_case (has_val e.op) refl
  where
    by_case : (b : Bool) → has_val e.op ≡ b → load_elem (elem_bytes e ++ rest) ≡ some (e, rest)
    by_case true p = rw (u8_back e.op h.op-lt, p, u32_back e.val h.val-lt)
    by_case false p =
        rw (u8_back e.op h.op-lt, p)
          (ap (λ (v : ℕ). some (record e { val = v }, rest)) {x = 0} {y = e.val}
            (ground (arith, h.val_or_zero)))

-- A step of a macro, a macro and an expression whose lengths fit the counts that are stored.
pub record IsEntry (usages : List ℕ) : Type 0 where
  pub usages_count : length usages < 2 ^ 8
  pub usages-lt : Each (λ (u : ℕ). u < 2 ^ 32) usages

pub record IsMacro (entries : List (List ℕ)) : Type 0 where
  pub entries_count : length entries < 2 ^ 8
  pub entries-IsEntry : Each IsEntry entries

pub record IsExpr (elems : List ConfigElem) : Type 0 where
  pub elems_count : length elems < 2 ^ 16
  pub elems-IsElem : Each IsElem elems

u32-Reads : (u : ℕ) → u < 2 ^ 32 → Reads get_u32 (u32_bytes u) u
u32-Reads u h rest = ap (λ (v : ℕ). some (v, rest)) (u32_back u h)

entry_back : (usages : List ℕ) → IsEntry usages → Reads load_entry (entry_bytes usages) usages
unfolding load_entry entry_bytes ◌>>=◌
entry_back usages h rest =
    rw (u8_back (length usages) h.usages_count)
      (read_n-write_each get_u32 u32_bytes usages (Each-map u32-Reads h.usages-lt) rest)

pub macro_back :
    (entries : List (List ℕ)) → IsMacro entries → Reads load_macro (macro_bytes entries) entries
unfolding load_macro macro_bytes ◌>>=◌
macro_back entries h rest =
    rw (u8_back (length entries) h.entries_count) (
      read_n-write_each load_entry entry_bytes entries (Each-map entry_back h.entries-IsEntry) rest)

pub expr_back : (elems : List ConfigElem) → IsExpr elems → Reads load_expr (expr_bytes elems) elems
unfolding load_expr expr_bytes ◌>>=◌
expr_back elems h rest =
    rw (u16_back (length elems) h.elems_count)
      (read_n-write_each load_elem elem_bytes elems (Each-map elem_back h.elems-IsElem) rest)
