-- ===== src/Config/Persist.antt =====
-- `fill_persist_config` and `persist_config` of config.cc: the image that is written to flash.
use usb_hid_wireless_bridge.Base.{
  ℕ, ◌+◌, ◌-◌, ◌*◌, ◌/◌, ◌%◌, ◌^◌, List, [], ◌∷◌, ◌++◌, Option, none, some, ltb, length, take,
  replicate, if◌then◌else◌,
}
use usb_hid_wireless_bridge.Base.Int.{uint32}
use usb_hid_wireless_bridge.Crc.{crc32}
use usb_hid_wireless_bridge.Packed.{u8_bytes, u16_bytes, u32_bytes, write_each}
use usb_hid_wireless_bridge.Config.{
  config_version, persisted_config_size, Mapping, Quirk, ConfigElem, has_val, Config, config_flags,
}

pub data PersistConfigReturnCode : Type 0 where
  unknown success config_too_big : PersistConfigReturnCode

abbrev pub mapping_count : Config → ℕ
mapping_count c = length c.config_mappings % 2 ^ 16

-- `fill_persist_config`, the 19 bytes of `persist_config_t`.
unfoldable pub fill_persist_config : Config → List ℕ
fill_persist_config c =
    u8_bytes config_version
    ++ (u8_bytes (config_flags c)
        ++ (u8_bytes c.unmapped_passthrough_layer_mask
            ++ (u32_bytes c.partial_scroll_timeout
                ++ (u16_bytes (mapping_count c)
                    ++ (u8_bytes c.interval_override
                        ++ (u32_bytes c.tap_hold_threshold
                            ++ (u8_bytes (c.gpio_debounce_time / 1000)
                                ++ (u8_bytes c.our_descriptor_number
                                    ++ (u8_bytes c.macro_entry_duration
                                        ++ u16_bytes (length c.quirks))))))))))

unfoldable pub mapping_bytes : Mapping → List ℕ
mapping_bytes m =
    u32_bytes m.target_usage
    ++ (u32_bytes m.source_usage
        ++ (u32_bytes (uint32 m.scaling)
            ++ (u8_bytes m.layer_mask ++ (u8_bytes m.flags ++ u8_bytes m.hub_ports))))

unfoldable pub quirk_bytes : Quirk → List ℕ
quirk_bytes q =
    u16_bytes q.vendor_id
    ++ (u16_bytes q.product_id
        ++ (u8_bytes q.interface
            ++ (u8_bytes q.report_id
                ++ (u32_bytes q.usage ++ (u16_bytes q.bitpos ++ u8_bytes q.size_flags)))))

-- One step of a macro: the usages that are pressed together.
unfoldable pub entry_bytes : List ℕ → List ℕ
unfolding write_each
entry_bytes usages = u8_bytes (length usages) ++ write_each u32_bytes usages

unfoldable pub macro_bytes : List (List ℕ) → List ℕ
macro_bytes entries = u8_bytes (length entries) ++ write_each entry_bytes entries

unfoldable pub elem_bytes : ConfigElem → List ℕ
elem_bytes e = u8_bytes e.op ++ (if has_val e.op then u32_bytes e.val else [])

unfoldable pub expr_bytes : List ConfigElem → List ℕ
expr_bytes elems = u16_bytes (length elems) ++ write_each elem_bytes elems

-- The loops that add up `real_persisted_config_size`.
unfoldable pub entries_size : List (List ℕ) → ℕ
entries_size [] = 0
entries_size (usages ∷ entries) = 1 + length usages * 4 + entries_size entries

unfoldable pub macros_size : List (List (List ℕ)) → ℕ
unfolding entries_size
macros_size [] = 0
macros_size (entries ∷ macros) = 1 + entries_size entries + macros_size macros

unfoldable pub elems_size : List ConfigElem → ℕ
elems_size [] = 0
elems_size (e ∷ elems) = 1 + (if has_val e.op then 4 else 0) + elems_size elems

unfoldable pub expressions_size : List (List ConfigElem) → ℕ
unfolding elems_size
expressions_size [] = 0
expressions_size (elems ∷ exprs) = 2 + elems_size elems + expressions_size exprs

-- Without the four bytes of the checksum. It is an int32_t in the code, which holds it: all these
-- vectors lie in the 264 KB of the board's memory.
unfoldable pub config_size : Config → ℕ
unfolding macros_size expressions_size
config_size c =
    19
    + mapping_count c * 15
    + macros_size c.macros
    + expressions_size c.expressions
    + length c.quirks * 13

-- What stands in the buffer from its start, up to the zeroes it was cleared to.
unfoldable pub config_content : Config → List ℕ
unfolding fill_persist_config write_each
config_content c =
    fill_persist_config c
    ++ (write_each mapping_bytes (take (mapping_count c) c.config_mappings)
        ++ (write_each macro_bytes c.macros
            ++ (write_each expr_bytes c.expressions ++ write_each quirk_bytes c.quirks)))

-- Cleared, filled, and closed by its checksum.
unfoldable pub image : List ℕ → List ℕ
image content =
    let checked = content ++ replicate (persisted_config_size - 4 - length content) 0 in
    checked ++ u32_bytes (crc32 checked)

-- The return code and the buffer that `do_persist_config` is given.
unfoldable pub persist_config : Config → PersistConfigReturnCode × Option (List ℕ)
unfolding config_size config_content image
persist_config c =
    if ltb persisted_config_size (config_size c + 4)
    then (PersistConfigReturnCode.config_too_big, none)
    else (PersistConfigReturnCode.success, some (image (config_content c)))
