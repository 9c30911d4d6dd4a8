-- ===== src/Config/Image.antt =====
-- The image of `persist_config` as `load_config` meets it, and the size that is counted beforehand.
use usb_hid_wireless_bridge.Base.{
  ℕ, ◌+◌, ◌-◌, ◌*◌, ◌%◌, ◌≤◌, ◌≡◌, refl, ap, ap₂, ◌∙◌, Bool, true, false, List, [], ◌∷◌, ◌++◌, some,
  length, take, drop, get_or, replicate, if◌then◌else◌, arith, take_exact, drop_exact, ◌==◌, ==_iff,
  append_assoc, length-append, length-replicate, length-take,
}
use usb_hid_wireless_bridge.Crc.{crc32, crc32-lt}
use usb_hid_wireless_bridge.Packed.{u32_bytes, write_each, get_u32}
use usb_hid_wireless_bridge.Packed.RoundTrip.{u32_back, Reads}
use usb_hid_wireless_bridge.Config.{persisted_config_size, ConfigElem, has_val, Config}
use usb_hid_wireless_bridge.Config.Persist.{
  mapping_count, fill_persist_config, mapping_bytes, quirk_bytes, entry_bytes, macro_bytes,
  elem_bytes, expr_bytes, entries_size, macros_size, elems_size, expressions_size, config_content,
  image, config_size,
}
use usb_hid_wireless_bridge.Config.Load.{load_config_v18}
use usb_hid_wireless_bridge.Config.Versions.{
  crc_matches, checksum_ok, persisted_version_ok, load_config,
}

module _ {ℓ} {A : Type ℓ} where
  pub length-write_each :
      (put : A → List ℕ) (k : ℕ) (xs : List A)
      → ((x : A) → length (put x) ≡ k)
      → length (write_each put xs) ≡ length xs * k
  unfolding write_each
  length-write_each put k [] h = omega arith
  length-write_each put k (x ∷ xs) h =
      omega (arith, length-append (put x) (write_each put xs), h x, length-write_each put k xs h)

length-write_entries :
    (entries : List (List ℕ)) → length (write_each entry_bytes entries) ≡ entries_size entries
unfolding write_each entry_bytes entries_size
length-write_entries [] = refl
length-write_entries (usages ∷ entries) = omega (
  arith,
  length-append (entry_bytes usages) (write_each entry_bytes entries),
  length-write_each u32_bytes 4 usages (λ u. refl),
  length-write_entries entries,
)

length-write_macros :
    (macros : List (List (List ℕ))) → length (write_each macro_bytes macros) ≡ macros_size macros
unfolding write_each macro_bytes macros_size
length-write_macros [] = refl
length-write_macros (entries ∷ macros) = omega (
  arith,
  length-append (macro_bytes entries) (write_each macro_bytes macros),
  length-write_entries entries,
  length-write_macros macros,
)

length-write_elems :
    (elems : List ConfigElem) → length (write_each elem_bytes elems) ≡ elems_size elems
unfolding write_each elem_bytes elems_size
length-write_elems [] = refl
length-write_elems (e ∷ elems) = by_case (has_val e.op) (length-write_elems elems)
  where
    by_case :
        (b : Bool)
        → length (write_each elem_bytes elems) ≡ elems_size elems
        → length (
            ((e.op % 256 ∷ []) ++ (if b then u32_bytes e.val else []))
            ++ write_each elem_bytes elems)
          ≡ 1 + (if b then 4 else 0) + elems_size elems
    by_case true h = omega (arith, h)
    by_case false h = omega (arith, h)

length-write_exprs :
    (exprs : List (List ConfigElem)) → length (write_each expr_bytes exprs) ≡ expressions_size exprs
unfolding write_each expr_bytes expressions_size
length-write_exprs [] = refl
length-write_exprs (elems ∷ exprs) = omega (
  arith,
  length-append (expr_bytes elems) (write_each expr_bytes exprs),
  length-write_elems elems,
  length-write_exprs exprs,
)

-- The size that `persist_config` counts, less the checksum, is the number of bytes that it then writes
-- in front of the checksum: its message about a size calculated wrong is never printed.
pub length-config_content : (c : Config) → length (config_content c) ≡ config_size c
unfolding config_content fill_persist_config config_size mapping_bytes quirk_bytes
length-config_content c =
    let n = length (take (mapping_count c) c.config_mappings) in
    omega (
      arith,
      length-append (write_each mapping_bytes (take (mapping_count c) c.config_mappings)) (
          write_each macro_bytes c.macros
          ++ (write_each expr_bytes c.expressions ++ write_each quirk_bytes c.quirks)),
      length-append (write_each macro_bytes c.macros)
          (write_each expr_bytes c.expressions ++ write_each quirk_bytes c.quirks),
      length-append (write_each expr_bytes c.expressions) (write_each quirk_bytes c.quirks),
      length-write_each mapping_bytes 15 (take (mapping_count c) c.config_mappings) (λ m. refl),
      length-take (mapping_count c) c.config_mappings,
      length-write_macros c.macros,
      length-write_exprs c.expressions,
      length-write_each quirk_bytes 13 c.quirks (λ q. refl),
    )

-- Bytes that are followed by their checksum.
pub checksum_ok-closed :
    (n size : ℕ) (checked : List ℕ)
    → size - 4 ≡ n
    → length checked ≡ n
    → checksum_ok (checked ++ u32_bytes (crc32 checked)) size ≡ true
unfolding checksum_ok
checksum_ok-closed n size checked s e =
    let crc = u32_bytes (crc32 checked) in
    ap (λ k. crc_matches (crc32 (take k (checked ++ crc))) (get_u32 (drop k (checked ++ crc)))) s
    ∙ ap₂ (λ xs ys. crc_matches (crc32 xs) (get_u32 ys)) (take_exact n checked crc e)
        (drop_exact n checked crc e)
    ∙ ap (λ k. crc32 checked == k) (u32_back (crc32 checked) (crc32-lt checked))
    ∙ (==_iff (crc32 checked) (crc32 checked)).1 refl

checksum_ok-image :
    (content : List ℕ)
    → length content + 4 ≤ persisted_config_size
    → checksum_ok (image content) persisted_config_size ≡ true
unfolding image
checksum_ok-image content h =
    let padding = replicate (persisted_config_size - 4 - length content) 0 in
    checksum_ok-closed 4092 4096 (content ++ padding) refl (
      omega (
        arith,
        length-append content padding,
        length-replicate {A = ℕ} (persisted_config_size - 4 - length content) 0,
      ))

pub load_config-image :
    (content : List ℕ) (before c : Config)
    → length content + 4 ≤ persisted_config_size
    → get_or (image content) 0 0 ≡ 18
    → Reads (load_config_v18 before) content c
    → load_config (image content) before ≡ some c
unfolding load_config persisted_version_ok image
load_config-image content before c h v r =
    let padding = replicate (persisted_config_size - 4 - length content) 0 in
    let crc = u32_bytes (crc32 (content ++ padding)) in
    rw (checksum_ok-image content h, v, append_assoc content padding crc, r (padding ++ crc))
