-- ===== src/Config/Older.antt =====
-- The loaders of config.cc for the layouts of versions 3 to 12.
use usb_hid_wireless_bridge.Base.{
  ℕ, ◌*◌, ◌%◌, ◌^◌, ◌/◌, bit_and, ◌++◌, ◌==◌, leb, map, drop, if◌then◌else◌, List, [],
}
use usb_hid_wireless_bridge.Base.Int.{ℤ, signed32}
use usb_hid_wireless_bridge.Packed.{Reader, ◌>>=◌, done, get_u8, get_u16, get_u32, read_n}
use usb_hid_wireless_bridge.Config.{
  nmacros, nmacros_8, nexpressions, Mapping, ConfigElem, Config, flag_set, checked_descriptor,
}
use usb_hid_wireless_bridge.Config.Load.{load_mapping, load_quirk, load_macro, load_elem}

-- `mapping_config10_t`
pub record Mapping10 : Type 0 where
  pub target_usage : ℕ
  pub source_usage : ℕ
  pub scaling : ℤ
  pub layer_mask : ℕ
  pub flags : ℕ

unfoldable pub mapping_config_10_to_11 : Mapping10 → Mapping
mapping_config_10_to_11 mapping = record {
  target_usage = mapping.target_usage;
  source_usage = mapping.source_usage;
  scaling = mapping.scaling;
  layer_mask = mapping.layer_mask;
  flags = mapping.flags;
  hub_ports = 0;
}

unfoldable pub load_mapping10 : Reader Mapping10
load_mapping10 = do
  target_usage ← get_u32
  source_usage ← get_u32
  scaling ← get_u32
  layer_mask ← get_u8
  flags ← get_u8
  done record {
    target_usage = target_usage;
    source_usage = source_usage;
    scaling = signed32 scaling;
    layer_mask = layer_mask;
    flags = flags;
  }

unfoldable pub load_mappings10 : ℕ → Reader (List Mapping)
unfolding load_mapping10 mapping_config_10_to_11
load_mappings10 mapping_count = do
  mappings ← read_n mapping_count load_mapping10
  done (map mapping_config_10_to_11 mappings)

-- An expression with a count of one byte.
unfoldable pub load_expr6 : Reader (List ConfigElem)
load_expr6 = do expr_len ← get_u8; read_n expr_len load_elem

-- `(flags & CONFIG_FLAG_UNMAPPED_PASSTHROUGH_MASK) >> CONFIG_FLAG_UNMAPPED_PASSTHROUGH_BIT`
abbrev pub passthrough_mask : ℕ → ℕ
passthrough_mask flags = bit_and flags 0x0f / 2 ^ 0

-- Version 3 numbers the layer of a mapping; a number over 31 would be too far a shift in C.
unfoldable pub layer_number_to_mask : Mapping → Mapping
layer_number_to_mask mapping = record mapping { layer_mask = 2 ^ mapping.layer_mask % 2 ^ 8 }

-- Only the first eight macros exist in versions 4 to 6; the others stay as they are.
abbrev pub set_macros_8 : Config → List (List (List ℕ)) → List (List (List ℕ))
set_macros_8 c macros = macros ++ drop nmacros_8 c.macros

unfoldable pub load_config_v3_v4 : Config → Reader Config
unfolding load_mappings10 layer_number_to_mask
load_config_v3_v4 c = do
  version ← get_u8
  flags ← get_u8
  partial_scroll_timeout ← get_u32
  mapping_count ← get_u32
  interval_override ← get_u8
  mappings ← load_mappings10 mapping_count
  macros ← if leb 4 version then read_n nmacros_8 load_macro else done []
  done (record c {
    unmapped_passthrough_layer_mask =
        if version == 3 then if flag_set flags 0 then 1 else 0 else passthrough_mask flags;
    partial_scroll_timeout = partial_scroll_timeout;
    interval_override = interval_override;
    config_mappings =
        c.config_mappings ++ (if version == 3 then map layer_number_to_mask mappings else mappings);
    macros = if leb 4 version then set_macros_8 c macros else c.macros;
  })

unfoldable pub load_config_v5 : Config → Reader Config
unfolding load_mappings10
load_config_v5 c = do
  version ← get_u8
  flags ← get_u8
  partial_scroll_timeout ← get_u32
  mapping_count ← get_u32
  interval_override ← get_u8
  tap_hold_threshold ← get_u32
  mappings ← load_mappings10 mapping_count
  macros ← read_n nmacros_8 load_macro
  done (record c {
    unmapped_passthrough_layer_mask = passthrough_mask flags;
    partial_scroll_timeout = partial_scroll_timeout;
    tap_hold_threshold = tap_hold_threshold;
    interval_override = interval_override;
    config_mappings = c.config_mappings ++ mappings;
    macros = set_macros_8 c macros;
  })

unfoldable pub load_config_v6 : Config → Reader Config
unfolding load_config_v5 load_expr6
load_config_v6 c = do
  loaded ← load_config_v5 c
  expressions ← read_n nexpressions load_expr6
  done (record loaded { expressions = expressions })

unfoldable pub load_config_v7_v8 : Config → Reader Config
unfolding load_mappings10 load_expr6
load_config_v7_v8 c = do
  version ← get_u8
  flags ← get_u8
  partial_scroll_timeout ← get_u32
  mapping_count ← get_u32
  interval_override ← get_u8
  tap_hold_threshold ← get_u32
  gpio_debounce_time_ms ← get_u8
  mappings ← load_mappings10 mapping_count
  macros ← read_n nmacros load_macro
  expressions ← read_n nexpressions load_expr6
  done (record c {
    unmapped_passthrough_layer_mask = passthrough_mask flags;
    partial_scroll_timeout = partial_scroll_timeout;
    tap_hold_threshold = tap_hold_threshold;
    gpio_debounce_time = gpio_debounce_time_ms * 1000;
    interval_override = interval_override;
    config_mappings = c.config_mappings ++ mappings;
    macros = macros;
    expressions = expressions;
  })

unfoldable pub load_config_v9 : Config → Reader Config
unfolding load_mappings10 load_expr6
load_config_v9 c = do
  version ← get_u8
  flags ← get_u8
  partial_scroll_timeout ← get_u32
  mapping_count ← get_u32
  interval_override ← get_u8
  tap_hold_threshold ← get_u32
  gpio_debounce_time_ms ← get_u8
  our_descriptor_number ← get_u8
  mappings ← load_mappings10 mapping_count
  macros ← read_n nmacros load_macro
  expressions ← read_n nexpressions load_expr6
  done (record c {
    unmapped_passthrough_layer_mask = passthrough_mask flags;
    ignore_auth_dev_inputs = flag_set flags 4;
    partial_scroll_timeout = partial_scroll_timeout;
    tap_hold_threshold = tap_hold_threshold;
    gpio_debounce_time = gpio_debounce_time_ms * 1000;
    interval_override = interval_override;
    our_descriptor_number = checked_descriptor our_descriptor_number;
    config_mappings = c.config_mappings ++ mappings;
    macros = macros;
    expressions = expressions;
  })

-- The header of versions 10 and 11, with how the mappings behind it are read.
unfoldable pub load_with_duration : (ℕ → Reader (List Mapping)) → Config → Reader Config
unfolding load_expr6
load_with_duration load_mappings c = do
  version ← get_u8
  flags ← get_u8
  partial_scroll_timeout ← get_u32
  mapping_count ← get_u32
  interval_override ← get_u8
  tap_hold_threshold ← get_u32
  gpio_debounce_time_ms ← get_u8
  our_descriptor_number ← get_u8
  macro_entry_duration ← get_u8
  mappings ← load_mappings mapping_count
  macros ← read_n nmacros load_macro
  expressions ← read_n nexpressions load_expr6
  done (record c {
    unmapped_passthrough_layer_mask = passthrough_mask flags;
    ignore_auth_dev_inputs = flag_set flags 4;
    gpio_output_mode = flag_set flags 5;
    partial_scroll_timeout = partial_scroll_timeout;
    tap_hold_threshold = tap_hold_threshold;
    gpio_debounce_time = gpio_debounce_time_ms * 1000;
    interval_override = interval_override;
    our_descriptor_number = checked_descriptor our_descriptor_number;
    macro_entry_duration = macro_entry_duration;
    config_mappings = c.config_mappings ++ mappings;
    macros = macros;
    expressions = expressions;
  })

unfoldable pub load_config_v10 : Config → Reader Config
unfolding load_with_duration
load_config_v10 = load_with_duration load_mappings10

unfoldable pub load_config_v11 : Config → Reader Config
unfolding load_with_duration
load_config_v11 = load_with_duration (λ n. read_n n load_mapping)

unfoldable pub load_config_v12 : Config → Reader Config
unfolding load_expr6
load_config_v12 c = do
  version ← get_u8
  flags ← get_u8
  unmapped_passthrough_layer_mask ← get_u8
  partial_scroll_timeout ← get_u32
  mapping_count ← get_u16
  interval_override ← get_u8
  tap_hold_threshold ← get_u32
  gpio_debounce_time_ms ← get_u8
  our_descriptor_number ← get_u8
  macro_entry_duration ← get_u8
  quirk_count ← get_u16
  mappings ← read_n mapping_count load_mapping
  macros ← read_n nmacros load_macro
  expressions ← read_n nexpressions load_expr6
  quirks ← read_n quirk_count load_quirk
  done (record c {
    unmapped_passthrough_layer_mask = unmapped_passthrough_layer_mask;
    ignore_auth_dev_inputs = flag_set flags 4;
    gpio_output_mode = flag_set flags 5;
    partial_scroll_timeout = partial_scroll_timeout;
    tap_hold_threshold = tap_hold_threshold;
    gpio_debounce_time = gpio_debounce_time_ms * 1000;
    interval_override = interval_override;
    our_descriptor_number = checked_descriptor our_descriptor_number;
    macro_entry_duration = macro_entry_duration;
    config_mappings = c.config_mappings ++ mappings;
    macros = macros;
    expressions = expressions;
    quirks = c.quirks ++ quirks;
  })
