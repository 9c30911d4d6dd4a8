-- ===== src/Config/Answers.antt =====
-- The size and the checksum of the answers of `handle_get_report1`.
use usb_hid_wireless_bridge.Base.{
  ℕ, ◌-◌, ◌≤◌, ◌<◌, ◌≡◌, refl, ap, ◌∙◌, sym, subst, Bool, true, false, ◌&&◌, not, List, [], ◌∷◌,
  ◌++◌, Option, none, some, ltb, leb, ◌==◌, length, length-append, length-take, length-replicate,
  take, drop, get_or, get_elem?, replicate, arith, if◌then◌else◌,
}
use usb_hid_wireless_bridge.Crc.{crc32}
use usb_hid_wireless_bridge.Rle.{Run}
use usb_hid_wireless_bridge.Packed.{u8_bytes, u32_bytes, write_each}
use usb_hid_wireless_bridge.Config.{Mapping, Quirk, ConfigElem, nmacros, nexpressions}
use usb_hid_wireless_bridge.Config.Persist.{mapping_bytes, quirk_bytes}
use usb_hid_wireless_bridge.Config.Image.{length-write_each, checksum_ok-closed}
use usb_hid_wireless_bridge.Config.Versions.{checksum_ok}
use usb_hid_wireless_bridge.Config.Macros.{
  macro_items_in_packet, Returned, packet_full, next_i, with_usage, return_entry, close_entry,
  return_entries, get_macro, without_last_zero, drop_last,
}
use usb_hid_wireless_bridge.Config.Exprs.{get_expression}
use usb_hid_wireless_bridge.Config.Downloads.{get_expression-IsFilled}
use usb_hid_wireless_bridge.Config.Session.{
  Session, ConfigCommand, no_command, reset_into_bootsel, set_config, get_config, clear_mapping,
  add_mapping, get_mapping, persist, get_our_usages, get_their_usages, suspend, resume,
  pair_new_device, clear_bonds, flash_b_side, clear_macros, append_macro, invalid_command,
  clear_expressions, append_expression, set_monitor_enabled, clear_quirks, add_quirk, get_quirk,
  other_command, config_size_in_report, report_id_config,
}
use usb_hid_wireless_bridge.Config.Answer.{
  fill_get_config, run_bytes, usages_from, bytes_or_nothing, answer_data, answer, answered,
  handle_get_report1, is_unknown, return_code,
}

abbrev Fits : Returned → Type 0
Fits r = length r.usages ≤ macro_items_in_packet

return_entry-Fits :
    (index : ℕ) (entry : List ℕ) (r : Returned)
    → length r.usages < macro_items_in_packet
    → Fits (return_entry index entry r)
unfolding return_entry
return_entry-Fits index [] r h = omega (arith, h)
return_entry-Fits index (usage ∷ entry) r h =
    by_case (leb index r.i) (packet_full (with_usage usage r)) refl
      (return_entry-Fits index entry (next_i (with_usage usage r)))
      (return_entry-Fits index entry (next_i r) h)
  where
    by_case :
        (b c : Bool)
        → packet_full (with_usage usage r) ≡ c
        → (length (with_usage usage r).usages < macro_items_in_packet
            → Fits (return_entry index entry (next_i (with_usage usage r))))
        → Fits (return_entry index entry (next_i r))
        → Fits (
            if b
            then if c
              then with_usage usage r
              else return_entry index entry (next_i (with_usage usage r))
            else return_entry index entry (next_i r))
    by_case true true e f g = omega (arith, h, length-append r.usages (usage ∷ []))
    by_case true false e f g = f (ground (arith, e))
    by_case false c e f g = g

close_entry-Fits : (index : ℕ) (r : Returned) → Fits r → Fits (close_entry index r)
unfolding close_entry
close_entry-Fits index r h = by_case (packet_full r) (leb index r.i) refl
  where
    by_case :
        (b c : Bool) → packet_full r ≡ b → Fits (next_i (if not b && c then with_usage 0 r else r))
    by_case true c e = h
    by_case false true e = ground (arith, e, length-append r.usages (0 ∷ []))
    by_case false false e = h

return_entries-Fits :
    (index : ℕ) (entries : List (List ℕ)) (r : Returned)
    → Fits r
    → Fits (return_entries index entries r).1
unfolding return_entries
return_entries-Fits index [] r h = h
return_entries-Fits index (entry ∷ entries) r h =
    by_case (packet_full r) refl
      (return_entries-Fits index entries (close_entry index (return_entry index entry r)))
  where
    by_case :
        (b : Bool)
        → packet_full r ≡ b
        → (Fits (close_entry index (return_entry index entry r))
            → Fits
                (return_entries index entries (close_entry index (return_entry index entry r))).1)
        → Fits
            (if b
              then (false, r)
              else return_entries index entries (close_entry index (return_entry index entry r))).1
    by_case true e f = h
    by_case false e f = f (
        close_entry-Fits index (return_entry index entry r)
          (return_entry-Fits index entry r (ground (arith, e))))

without_last_zero-le :
    (b : Bool) (usages : List ℕ) → length (without_last_zero b usages) ≤ length usages
without_last_zero-le b usages =
    by_case (b && ltb 0 (length usages) && (get_or usages (length usages - 1) 0 == 0))
  where
    by_case : (c : Bool) → length (if c then drop_last usages else usages) ≤ length usages
    by_case true = omega (arith, length-take (length usages - 1) usages)
    by_case false = omega arith

length-get_macro :
    (entries : List (List ℕ)) (index : ℕ) → length (get_macro entries index) ≤ macro_items_in_packet
unfolding get_macro
length-get_macro entries index =
    let r = return_entries index entries record { i = 0; usages = [] } in
    omega (
      arith,
      without_last_zero-le r.0 r.1.usages,
      return_entries-Fits index entries record { i = 0; usages = [] } (omega arith),
    )

Short : Option (List ℕ) → Type 0
Short o = (content : List ℕ) → o ≡ some content → length content ≤ 28

content_or : Option (List ℕ) → List ℕ
content_or none = []
content_or (some content) = content

some-Short : (content : List ℕ) → length content ≤ 28 → Short (some content)
unfolding Short content_or
some-Short content h other e = subst (λ l. length l ≤ 28) (ap content_or e) h

none-Short : Short none
unfolding Short
none-Short content e = absurd (cc)

usages_from-Short : (index : ℕ) (usages : List Run) → Short (some (usages_from index usages))
usages_from-Short index usages = some-Short (usages_from index usages) (
    omega (
      arith,
      length-write_each run_bytes 8 (take 3 (drop index usages)) (λ r. refl),
      length-take 3 (drop index usages),
    ))

mapping-Short : (o : Option Mapping) → Short (some (bytes_or_nothing mapping_bytes o))
unfolding mapping_bytes
mapping-Short none = some-Short [] (omega arith)
mapping-Short (some m) = some-Short (mapping_bytes m) (omega arith)

quirk-Short : (o : Option Quirk) → Short (some (bytes_or_nothing quirk_bytes o))
unfolding quirk_bytes
quirk-Short none = some-Short [] (omega arith)
quirk-Short (some q) = some-Short (quirk_bytes q) (omega arith)

macro-Short :
    (b : Bool) (items : List ℕ)
    → length items ≤ macro_items_in_packet
    → Short (some (if b then u8_bytes (length items) ++ write_each u32_bytes items else []))
macro-Short true items h =
    some-Short (u8_bytes (length items) ++ write_each u32_bytes items)
      (omega (arith, h, length-write_each u32_bytes 4 items (λ u. refl)))
macro-Short false items h = some-Short [] (omega arith)

expression-Short :
    (b : Bool) (elems : List ConfigElem) (index : ℕ)
    → Short (
        some (
          if b
          then u8_bytes (get_expression elems index).0 ++ (get_expression elems index).1
          else []))
expression-Short true elems index =
    some-Short _ (omega (arith, (get_expression-IsFilled elems index).size_le))
expression-Short false elems index = some-Short [] (omega arith)

code-Short : (b : Bool) (n : ℕ) → Short (if b then none else some (u8_bytes n))
code-Short true n = none-Short
code-Short false n = some-Short (u8_bytes n) (omega arith)

answer_data-Short : (command : ConfigCommand) (s : Session) → Short (answer_data command s)
unfolding answer_data fill_get_config
answer_data-Short invalid_command s = some-Short (replicate 28 0xff) (omega arith)
answer_data-Short get_config s = some-Short (fill_get_config s) (omega arith)
answer_data-Short get_mapping s =
    mapping-Short (get_elem? s.config.config_mappings s.requested_index)
answer_data-Short get_our_usages s = usages_from-Short s.requested_index s.our_usages_rle
answer_data-Short get_their_usages s = usages_from-Short s.requested_index s.their_usages_rle
answer_data-Short ConfigCommand.get_macro s =
    macro-Short (ltb s.requested_index nmacros) _
      (length-get_macro (get_or s.config.macros s.requested_index []) s.requested_secondary_index)
answer_data-Short ConfigCommand.get_expression s =
    expression-Short (ltb s.requested_index nexpressions)
      (get_or s.config.expressions s.requested_index []) s.requested_secondary_index
answer_data-Short get_quirk s = quirk-Short (get_elem? s.config.quirks s.requested_index)
answer_data-Short persist s =
    code-Short (is_unknown s.persist_config_return_code) (return_code s.persist_config_return_code)
answer_data-Short no_command s = none-Short
answer_data-Short reset_into_bootsel s = none-Short
answer_data-Short set_config s = none-Short
answer_data-Short clear_mapping s = none-Short
answer_data-Short add_mapping s = none-Short
answer_data-Short suspend s = none-Short
answer_data-Short resume s = none-Short
answer_data-Short pair_new_device s = none-Short
answer_data-Short clear_bonds s = none-Short
answer_data-Short flash_b_side s = none-Short
answer_data-Short clear_macros s = none-Short
answer_data-Short append_macro s = none-Short
answer_data-Short clear_expressions s = none-Short
answer_data-Short append_expression s = none-Short
answer_data-Short set_monitor_enabled s = none-Short
answer_data-Short clear_quirks s = none-Short
answer_data-Short add_quirk s = none-Short
answer_data-Short other_command s = none-Short

length-answer : (content : List ℕ) → length content ≤ 28 → length (answer content) ≡ 32
unfolding answer
length-answer content h =
    let padding = replicate (32 - 4 - length content) 0 in
    let checked = content ++ padding in
    omega (
      arith,
      length-append checked (u32_bytes (crc32 checked)),
      length-append content padding,
      length-replicate {A = ℕ} (32 - 4 - length content) 0,
    )

checksum_ok-answer :
    (content : List ℕ)
    → length content ≤ 28
    → checksum_ok (answer content) config_size_in_report ≡ true
unfolding answer
checksum_ok-answer content h =
    let padding = replicate (32 - 4 - length content) 0 in
    checksum_ok-closed 28 32 (content ++ padding) refl (
      omega (
        arith,
        length-append content padding,
        length-replicate {A = ℕ} (32 - 4 - length content) 0,
      ))

-- An answer to the host is 32 bytes long and carries the checksum of the bytes before it, whatever the
-- command was, and the next one needs a new command.
pub handle_get_report1-checksum :
    (report_id reqlen : ℕ) (s t : Session) (buffer : List ℕ)
    → handle_get_report1 report_id reqlen s ≡ (some buffer, t)
    → (length buffer ≡ 32)
      × (checksum_ok buffer config_size_in_report ≡ true)
      × (t.last_config_command ≡ no_command)
unfolding handle_get_report1 Short
handle_get_report1-checksum report_id reqlen s t buffer =
    by_case ((report_id == report_id_config) && leb config_size_in_report reqlen)
      (answer_data s.last_config_command s) (answer_data-Short s.last_config_command s)
  where
    bytes_or : Option (List ℕ) → List ℕ
    bytes_or none = []
    bytes_or (some bytes) = bytes

    by_case :
        (b : Bool) (o : Option (List ℕ))
        → Short o
        → (if b then answered o s else (none, s)) ≡ (some buffer, t)
        → (length buffer ≡ 32)
          × (checksum_ok buffer config_size_in_report ≡ true)
          × (t.last_config_command ≡ no_command)
    by_case false o h e = absurd (cc)
    by_case true none h e = absurd (cc)
    by_case true (some content) h e =
        let short = h content refl in
        let same : answer content ≡ buffer = ap (λ x. bytes_or x.0) e in
        (
          ap length (sym same) ∙ length-answer content short,
          ap (λ l. checksum_ok l config_size_in_report) (sym same)
              ∙ checksum_ok-answer content short,
          ap (λ x. x.1.last_config_command) (sym e),
        )
