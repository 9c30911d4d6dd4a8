-- ===== src/Config/Session.antt =====
-- `handle_set_report1` of config.cc: the commands of the configuration tool, in the build without the
-- trace of the mouse pipeline (the CMake default), which treats the trace's commands as unknown ones.
use usb_hid_wireless_bridge.Base.{
  ℕ, ◌*◌, Bool, true, not, ◌&&◌, List, [], ◌∷◌, ◌++◌, Option, none, some, leb, ◌==◌, length, get_or,
  get_elem?, set, drop, replicate, if◌then◌else◌,
}
use usb_hid_wireless_bridge.Rle.{Run}
use usb_hid_wireless_bridge.Packed.{Reader, ◌>>=◌, done, get_u8, get_u32, read_n}
use usb_hid_wireless_bridge.Config.{
  config_version, nmacros, nexpressions, Config, flag_set, checked_descriptor,
}
use usb_hid_wireless_bridge.Config.Persist.{PersistConfigReturnCode, unknown}
use usb_hid_wireless_bridge.Config.Load.{load_mapping, load_quirk}
use usb_hid_wireless_bridge.Config.Versions.{checksum_ok}
use usb_hid_wireless_bridge.Config.Macros.{macro_items_in_packet, append_to_macro}
use usb_hid_wireless_bridge.Config.Exprs.{append_elems}

pub data ConfigCommand : Type 0 where
  no_command reset_into_bootsel set_config get_config clear_mapping add_mapping : ConfigCommand
  get_mapping persist get_our_usages get_their_usages suspend resume : ConfigCommand
  pair_new_device clear_bonds flash_b_side clear_macros append_macro get_macro : ConfigCommand
  invalid_command clear_expressions append_expression get_expression : ConfigCommand
  set_monitor_enabled clear_quirks add_quirk get_quirk other_command : ConfigCommand

-- The command that a byte stands for; the trace's (26 to 31) are among the others.
abbrev pub command_of : ℕ → ConfigCommand
command_of n =
    get_or
      (no_command ∷ reset_into_bootsel ∷ set_config ∷ get_config ∷ clear_mapping ∷ add_mapping
        ∷ get_mapping ∷ persist ∷ get_our_usages ∷ get_their_usages ∷ suspend ∷ resume
        ∷ pair_new_device ∷ clear_bonds ∷ flash_b_side ∷ clear_macros ∷ append_macro ∷ get_macro
        ∷ invalid_command ∷ clear_expressions ∷ append_expression ∷ get_expression
        ∷ set_monitor_enabled ∷ clear_quirks ∷ add_quirk ∷ get_quirk ∷ [])
      n other_command

-- What the handler calls outside config.cc.
pub data Call : Type 0 where
  reset_to_bootloader interval_override_updated reset_state : Call
  pair_new_device clear_bonds flash_b_side : Call
  set_monitor_enabled : Bool → Call

-- The globals that the two handlers use, and the calls made so far, oldest first.
pub record Session : Type 0 where
  pub config : Config
  pub last_config_command : ConfigCommand
  pub requested_index : ℕ
  pub requested_secondary_index : ℕ
  pub need_to_persist_config : Bool
  pub persist_config_return_code : PersistConfigReturnCode
  pub suspended : Bool
  pub resume_pending : Bool
  pub config_updated : Bool
  pub our_usages_rle : List Run
  pub their_usages_rle : List Run
  pub calls : List Call

abbrev pub with_config : Config → Session → Session
with_config c s = record s { config = c }

abbrev pub with_call : Call → Session → Session
with_call call s = record s { calls = s.calls ++ (call ∷ []) }

-- SET_CONFIG: the fields of a `set_config_t`.
unfoldable pub set_config_command : Session → Reader Session
set_config_command s = do
  flags ← get_u8
  unmapped_passthrough_layer_mask ← get_u8
  partial_scroll_timeout ← get_u32
  interval_override ← get_u8
  tap_hold_threshold ← get_u32
  gpio_debounce_time_ms ← get_u8
  our_descriptor_number ← get_u8
  macro_entry_duration ← get_u8
  done (
      with_config
        (record s.config {
          unmapped_passthrough_layer_mask = unmapped_passthrough_layer_mask;
          ignore_auth_dev_inputs = flag_set flags 4;
          gpio_output_mode = flag_set flags 5;
          normalize_gamepad_inputs = flag_set flags 6;
          partial_scroll_timeout = partial_scroll_timeout;
          tap_hold_threshold = tap_hold_threshold;
          gpio_debounce_time = gpio_debounce_time_ms * 1000;
          interval_override = interval_override;
          our_descriptor_number = checked_descriptor our_descriptor_number;
          macro_entry_duration = macro_entry_duration;
        })
        (if s.config.interval_override == interval_override
          then s
          else with_call interval_override_updated s))

unfoldable pub add_mapping_command : Session → Reader Session
add_mapping_command s = do
  mapping ← load_mapping
  done (
      with_config (record s.config { config_mappings = s.config.config_mappings ++ (mapping ∷ []) })
        s)

unfoldable pub add_quirk_command : Session → Reader Session
add_quirk_command s = do
  quirk ← load_quirk
  done (with_config (record s.config { quirks = s.config.quirks ++ (quirk ∷ []) }) s)

-- `get_indexed_t`
unfoldable pub get_indexed_command : Session → Reader Session
get_indexed_command s = do
  requested_index ← get_u32
  done (record s { requested_index = requested_index })

-- `get_macro_t` and `get_expr_t`
unfoldable pub get_part_command : Session → Reader Session
get_part_command s = do
  requested_index ← get_u32
  requested_secondary_index ← get_u32
  done (record s {
    requested_index = requested_index;
    requested_secondary_index = requested_secondary_index;
  })

-- The macro of that number, with the items appended; `none` where there is none: the code does not
-- test the number, and writes outside the array.
abbrev pub with_appended : Option (List (List ℕ)) → ℕ → ℕ → List ℕ → Session → Option Session
with_appended none macro nitems usages s = none
with_appended (some entries) macro nitems usages s = some (
    with_config
      (record s.config {
        macros = set s.config.macros macro (append_to_macro entries nitems usages);
      })
      s)

-- A step that does not read, behind the reads of a command.
abbrev pub ended : Option Session → Reader Session
ended none bytes = none
ended (some s) bytes = some (s, bytes)

unfoldable pub append_to : ℕ → ℕ → List ℕ → Session → Reader Session
unfolding append_to_macro
append_to macro nitems usages s =
    ended (with_appended (get_elem? s.config.macros macro) macro nitems usages s)

unfoldable pub append_macro_command : Session → Reader Session
unfolding append_to
append_macro_command s = do
  macro ← get_u8
  nitems ← get_u8
  usages ← read_n macro_items_in_packet get_u32
  append_to macro nitems usages s

unfoldable pub append_expression_command : Session → Reader Session
unfolding append_elems
append_expression_command s = do
  expr ← get_u8
  nelems ← get_u8
  elem_data ← read_n 24 get_u8
  done (
      if leb nexpressions expr
      then s
      else with_config
          (record s.config {
            expressions =
                set s.config.expressions expr
                  (append_elems nelems elem_data (get_or s.config.expressions expr []));
          })
          s)

unfoldable pub set_monitor_command : Session → Reader Session
set_monitor_command s = do
  enabled ← get_u8
  done (with_call (set_monitor_enabled (not (enabled == 0))) s)

-- The switch. The first statement before it stores the command.
unfoldable pub run_command : ConfigCommand → Session → Reader Session
unfolding set_config_command add_mapping_command add_quirk_command append_macro_command
run_command no_command s = done s
run_command reset_into_bootsel s = done (with_call reset_to_bootloader s)
run_command set_config s = set_config_command s
run_command get_config s = done s
run_command clear_mapping s = done (with_config (record s.config { config_mappings = [] }) s)
run_command add_mapping s = add_mapping_command s
run_command get_mapping s = get_indexed_command s
run_command get_our_usages s = get_indexed_command s
run_command get_their_usages s = get_indexed_command s
run_command get_quirk s = get_indexed_command s
run_command persist s =
    done (record s { need_to_persist_config = true; persist_config_return_code = unknown })
run_command suspend s = done (record s { suspended = true })
run_command resume s =
    done (with_call reset_state (record s { resume_pending = true; config_updated = true }))
run_command pair_new_device s = done (with_call Call.pair_new_device s)
run_command clear_bonds s = done (with_call Call.clear_bonds s)
run_command flash_b_side s = done (with_call Call.flash_b_side s)
run_command clear_macros s =
    done (with_config (record s.config { macros = replicate nmacros [] }) s)
run_command append_macro s = append_macro_command s
run_command get_macro s = get_part_command s
run_command clear_expressions s =
    done (with_config (record s.config { expressions = replicate nexpressions [] }) s)
run_command append_expression s = append_expression_command s
run_command get_expression s = get_part_command s
run_command set_monitor_enabled s = set_monitor_command s
run_command clear_quirks s = done (with_config (record s.config { quirks = [] }) s)
run_command add_quirk s = add_quirk_command s
run_command invalid_command s = done (record s { last_config_command = invalid_command })
run_command other_command s = done (record s { last_config_command = invalid_command })

abbrev pub report_id_config : ℕ
report_id_config = 100

abbrev pub config_size_in_report : ℕ
config_size_in_report = 32

abbrev pub command_version_ok : List ℕ → Bool
command_version_ok buffer = get_or buffer 0 0 == config_version

abbrev pub session_of : Option (Session × List ℕ) → Option Session
session_of none = none
session_of (some (s, rest)) = some s

-- `none` is a write outside the array of macros.
unfoldable pub handle_set_report1 : ℕ → List ℕ → Session → Option Session
unfolding run_command
handle_set_report1 report_id buffer s =
    let command = command_of (get_or buffer 1 0) in
    if (report_id == report_id_config) && leb config_size_in_report (length buffer)
    then if checksum_ok buffer config_size_in_report && command_version_ok buffer
      then session_of
          (run_command command (record s { last_config_command = command }) (drop 2 buffer))
      else some (record s { last_config_command = invalid_command })
    else some s
