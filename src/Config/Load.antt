-- ===== src/Config/Load.antt =====
-- `load_config_v13` and the body of `load_config` of config.cc: an image in the present layout.
use usb_hid_wireless_bridge.Base.{ℕ, ◌*◌, List, ◌++◌, get_or, if◌then◌else◌}
use usb_hid_wireless_bridge.Base.Int.{signed32}
use usb_hid_wireless_bridge.Packed.{Reader, ◌>>=◌, done, get_u8, get_u16, get_u32, read_n}
use usb_hid_wireless_bridge.Config.{
  nmacros, nexpressions, Mapping, Quirk, ConfigElem, has_val, Config, flag_set, checked_descriptor,
}

-- A `mapping_config11_t` of the buffer.
unfoldable pub load_mapping : Reader Mapping
load_mapping = do
  target_usage ← get_u32
  source_usage ← get_u32
  scaling ← get_u32
  layer_mask ← get_u8
  flags ← get_u8
  hub_ports ← get_u8
  done record {
    target_usage = target_usage;
    source_usage = source_usage;
    scaling = signed32 scaling;
    layer_mask = layer_mask;
    flags = flags;
    hub_ports = hub_ports;
  }

unfoldable pub load_quirk : Reader Quirk
load_quirk = do
  vendor_id ← get_u16
  product_id ← get_u16
  interface ← get_u8
  report_id ← get_u8
  usage ← get_u32
  bitpos ← get_u16
  size_flags ← get_u8
  done record {
    vendor_id = vendor_id;
    product_id = product_id;
    interface = interface;
    report_id = report_id;
    usage = usage;
    bitpos = bitpos;
    size_flags = size_flags;
  }

unfoldable pub load_entry : Reader (List ℕ)
unfolding read_n
load_entry = do entry_len ← get_u8; read_n entry_len get_u32

unfoldable pub load_macro : Reader (List (List ℕ))
load_macro = do macro_len ← get_u8; read_n macro_len load_entry

-- The value is there for two operations only, and 0 for the others.
unfoldable pub load_elem : Reader ConfigElem
load_elem = do
  op ← get_u8
  val ← if has_val op then get_u32 else done 0
  done record { op = op; val = val }

unfoldable pub load_expr : Reader (List ConfigElem)
load_expr = do expr_len ← get_u16; read_n expr_len load_elem

-- `load_config_v13`; the vectors of mappings and quirks are appended to, and the arrays of macros
-- and expressions are cleared first.
unfoldable pub load_config_v13 : Config → Reader Config
unfolding load_mapping load_macro load_expr load_quirk
load_config_v13 c = do
  version ← get_u8
  flags ← get_u8
  unmapped_passthrough_layer_mask ← get_u8
  partial_scroll_timeout ← get_u32
  mapping_count ← get_u16
  interval_override ← get_u8
  tap_hold_threshold ← get_u32
  gpio_debounce_time_ms ← get_u8
  our_descriptor_number ← get_u8
  macro_entry_duration ← get_u8
  quirk_count ← get_u16
  mappings ← read_n mapping_count load_mapping
  macros ← read_n nmacros load_macro
  expressions ← read_n nexpressions load_expr
  quirks ← read_n quirk_count load_quirk
  done (record c {
    unmapped_passthrough_layer_mask = unmapped_passthrough_layer_mask;
    ignore_auth_dev_inputs = flag_set flags 4;
    gpio_output_mode = flag_set flags 5;
    partial_scroll_timeout = partial_scroll_timeout;
    tap_hold_threshold = tap_hold_threshold;
    gpio_debounce_time = gpio_debounce_time_ms * 1000;
    interval_override = interval_override;
    our_descriptor_number = checked_descriptor our_descriptor_number;
    macro_entry_duration = macro_entry_duration;
    config_mappings = c.config_mappings ++ mappings;
    macros = macros;
    expressions = expressions;
    quirks = c.quirks ++ quirks;
  })

-- The rest of `load_config`, for version 18: the same layout, and one flag more.
unfoldable pub load_config_v18 : Config → Reader Config
unfolding load_config_v13
load_config_v18 c persisted_config =
    load_config_v13
      (record c { normalize_gamepad_inputs = flag_set (get_or persisted_config 1 0) 6 })
      persisted_config
