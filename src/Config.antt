-- ===== src/Config.antt =====
-- firmware/hid-remapper/firmware/src/config.cc, types.h and globals.cc: the configuration of the
-- remapper. This file has its state, and the children what is stored (Persist), how an image of any
-- version is loaded (Load, Older), and the commands of the host (Commands).
pub mod Persist
pub mod Load
pub mod Older
pub mod Versions
pub mod RoundTrip
pub mod Stored
pub mod Image
mod Tests
pub mod Answers
pub mod Answer
pub mod Reports
pub mod Commands
pub mod Session
pub mod Downloads
pub mod Uploads
pub mod Macros
pub mod Exprs
pub mod Loaded
pub mod Shape
pub mod Saved
use usb_hid_wireless_bridge.Base.{
  ℕ, ◌^◌, ◌<◌, ◌≤◌, ◌%◌, ◌*◌, ◌/◌, Bool, true, false, not, List, [], ◌∷◌, ◌==◌, leb, ◌||◌, bit_or,
  bit_and, if◌then◌else◌, replicate,
}
use usb_hid_wireless_bridge.Base.Int.{ℤ}

abbrev pub config_version : ℕ
config_version = 18

abbrev pub nmacros : ℕ
nmacros = 32

abbrev pub nmacros_8 : ℕ
nmacros_8 = 8

abbrev pub nexpressions : ℕ
nexpressions = 8

abbrev pub nour_descriptors : ℕ
nour_descriptors = 6

abbrev pub persisted_config_size : ℕ
persisted_config_size = 4096

-- `mapping_config11_t`
pub record Mapping : Type 0 where
  pub target_usage : ℕ
  pub source_usage : ℕ
  pub scaling : ℤ
  pub layer_mask : ℕ
  pub flags : ℕ
  pub hub_ports : ℕ

-- `quirk_t`
pub record Quirk : Type 0 where
  pub vendor_id : ℕ
  pub product_id : ℕ
  pub interface : ℕ
  pub report_id : ℕ
  pub usage : ℕ
  pub bitpos : ℕ
  pub size_flags : ℕ

-- What a configuration keeps of an `expr_elem_t`; `op` is the number of the operation, which the
-- loaders cast from a byte without a look at it.
pub record ConfigElem : Type 0 where
  pub op : ℕ
  pub val : ℕ

abbrev pub push : ℕ
push = 0

abbrev pub push_usage : ℕ
push_usage = 1

-- `(op == Op::PUSH) || (op == Op::PUSH_USAGE)`
abbrev pub has_val : ℕ → Bool
has_val op = (op == push) || (op == push_usage)

-- The configuration among the globals. `gpio_output_mode` is a uint8_t that only ever receives
-- `!!(...)`. `macros` and `expressions` are arrays, of `nmacros` and `nexpressions` vectors.
pub record Config : Type 0 where
  pub unmapped_passthrough_layer_mask : ℕ
  pub ignore_auth_dev_inputs : Bool
  pub gpio_output_mode : Bool
  pub normalize_gamepad_inputs : Bool
  pub partial_scroll_timeout : ℕ
  pub tap_hold_threshold : ℕ
  pub gpio_debounce_time : ℕ
  pub interval_override : ℕ
  pub our_descriptor_number : ℕ
  pub macro_entry_duration : ℕ
  pub config_mappings : List Mapping
  pub macros : List (List (List ℕ))
  pub expressions : List (List ConfigElem)
  pub quirks : List Quirk

-- The initial values of globals.cc; `interval_override` is 0 at first, too.
abbrev pub initial_config : Config
initial_config = record {
  unmapped_passthrough_layer_mask = 0xff;
  ignore_auth_dev_inputs = false;
  gpio_output_mode = false;
  normalize_gamepad_inputs = true;
  partial_scroll_timeout = 1000000;
  tap_hold_threshold = 200000;
  gpio_debounce_time = 5000;
  interval_override = 0;
  our_descriptor_number = 0;
  macro_entry_duration = 0;
  config_mappings = [];
  macros = replicate nmacros [];
  expressions = replicate nexpressions [];
  quirks = [];
}

abbrev pub bit_if : Bool → ℕ → ℕ
bit_if b n = if b then 2 ^ n else 0

-- The `flags` of the stored header and of the answer to GET_CONFIG.
abbrev pub config_flags : Config → ℕ
config_flags c =
    bit_or (bit_or (bit_or 0 (bit_if c.ignore_auth_dev_inputs 4)) (bit_if c.gpio_output_mode 5))
      (bit_if c.normalize_gamepad_inputs 6)

-- `flags & (1 << n)` as a truth value.
abbrev pub flag_set : ℕ → ℕ → Bool
flag_set flags n = not (bit_and flags (2 ^ n) == 0)

-- `our_descriptor_number` as it is taken over.
abbrev pub checked_descriptor : ℕ → ℕ
checked_descriptor n = if leb nour_descriptors n then 0 else n
