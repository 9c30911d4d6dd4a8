-- ===== src/Config/Answer.antt =====
-- `handle_get_report1` of config.cc: the answer to the last command, in the build without the trace of
-- the mouse pipeline.
use usb_hid_wireless_bridge.Base.{
  ℕ, ◌-◌, ◌/◌, Bool, true, false, ◌&&◌, List, [], ◌++◌, Option, none, some, ltb, leb, ◌==◌, length,
  take, drop, get_or, get_elem?, replicate, if◌then◌else◌,
}
use usb_hid_wireless_bridge.Crc.{crc32}
use usb_hid_wireless_bridge.Rle.{Run}
use usb_hid_wireless_bridge.Packed.{u8_bytes, u16_bytes, u32_bytes, write_each}
use usb_hid_wireless_bridge.Config.{config_version, nmacros, nexpressions, config_flags}
use usb_hid_wireless_bridge.Config.Persist.{
  PersistConfigReturnCode, unknown, success, config_too_big, mapping_bytes, quirk_bytes,
}
use usb_hid_wireless_bridge.Config.Macros
use usb_hid_wireless_bridge.Config.Exprs
use usb_hid_wireless_bridge.Config.Session.{
  Session, ConfigCommand, invalid_command, get_config, get_mapping, get_our_usages,
  get_their_usages, get_macro, get_expression, get_quirk, persist, no_command, report_id_config,
  config_size_in_report,
}

abbrev pub nusages_in_packet : ℕ
nusages_in_packet = 3

-- `fill_get_config`, the 27 bytes of a `get_config_t`.
unfoldable pub fill_get_config : Session → List ℕ
fill_get_config s =
    let c = s.config in
    u8_bytes config_version
    ++ (u8_bytes (config_flags c)
        ++ (u8_bytes c.unmapped_passthrough_layer_mask
            ++ (u32_bytes c.partial_scroll_timeout
                ++ (u16_bytes (length c.config_mappings)
                    ++ (u32_bytes (length s.our_usages_rle)
                        ++ (u32_bytes (length s.their_usages_rle)
                            ++ (u8_bytes c.interval_override
                                ++ (u32_bytes c.tap_hold_threshold
                                    ++ (u8_bytes (c.gpio_debounce_time / 1000)
                                        ++ (u8_bytes c.our_descriptor_number
                                            ++ (u8_bytes c.macro_entry_duration
                                                ++ u16_bytes (length c.quirks))))))))))))

abbrev pub run_bytes : Run → List ℕ
run_bytes r = u32_bytes r.usage ++ u32_bytes r.count

-- The loop over the usages from `requested_index` on.
abbrev pub usages_from : ℕ → List Run → List ℕ
usages_from index usages = write_each run_bytes (take nusages_in_packet (drop index usages))

abbrev pub bytes_or_nothing {ℓ} : {A : Type ℓ} → (A → List ℕ) → Option A → List ℕ
bytes_or_nothing put none = []
bytes_or_nothing put (some x) = put x

abbrev pub return_code : PersistConfigReturnCode → ℕ
return_code unknown = 0
return_code success = 1
return_code config_too_big = 2

abbrev pub is_unknown : PersistConfigReturnCode → Bool
is_unknown unknown = true
is_unknown _ = false

-- The bytes that a command puts at the start of the answer; `none` is the `return 0` before its end.
unfoldable pub answer_data : ConfigCommand → Session → Option (List ℕ)
unfolding fill_get_config write_each mapping_bytes quirk_bytes
answer_data invalid_command s = some (replicate 28 0xff)
answer_data get_config s = some (fill_get_config s)
answer_data get_mapping s =
    some (bytes_or_nothing mapping_bytes (get_elem? s.config.config_mappings s.requested_index))
answer_data get_our_usages s = some (usages_from s.requested_index s.our_usages_rle)
answer_data get_their_usages s = some (usages_from s.requested_index s.their_usages_rle)
answer_data get_macro s = some (
    if ltb s.requested_index nmacros
    then (let items =
          Macros.get_macro (get_or s.config.macros s.requested_index [])
            s.requested_secondary_index in
        u8_bytes (length items) ++ write_each u32_bytes items)
    else [])
answer_data get_expression s = some (
    if ltb s.requested_index nexpressions
    then (let (nelems, written) =
          Exprs.get_expression (get_or s.config.expressions s.requested_index [])
            s.requested_secondary_index in
        u8_bytes nelems ++ written)
    else [])
answer_data get_quirk s =
    some (bytes_or_nothing quirk_bytes (get_elem? s.config.quirks s.requested_index))
answer_data persist s =
    if is_unknown s.persist_config_return_code
    then none
    else some (u8_bytes (return_code s.persist_config_return_code))
answer_data _ s = none

-- Cleared, filled, and closed by its checksum.
unfoldable pub answer : List ℕ → List ℕ
answer content =
    let checked = content ++ replicate (config_size_in_report - 4 - length content) 0 in
    checked ++ u32_bytes (crc32 checked)

abbrev pub answered : Option (List ℕ) → Session → Option (List ℕ) × Session
unfolding answer
answered none s = (none, s)
answered (some content) s = (some (answer content), record s { last_config_command = no_command })

-- The buffer, of which CONFIG_SIZE bytes are returned, or `none` for a return of 0.
unfoldable pub handle_get_report1 : ℕ → ℕ → Session → Option (List ℕ) × Session
unfolding answer_data answered
handle_get_report1 report_id reqlen s =
    if (report_id == report_id_config) && leb config_size_in_report reqlen
    then answered (answer_data s.last_config_command s) s
    else (none, s)
