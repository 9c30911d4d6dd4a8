-- ===== src/Config/Tests.antt =====
-- config.cc at work on small configurations and reports.
use usb_hid_wireless_bridge.Base.{
  ℕ, zero, suc, ◌+◌, ◌≤◌, ◌<◌, ◌≡◌, ◌⊎◌, refl, true, false, List, [], ◌∷◌, ◌++◌, none, some, length,
  take, drop, replicate, arith,
}
use usb_hid_wireless_bridge.Base.Int.{negsuc}
use usb_hid_wireless_bridge.Base.Each.{Each, none_left, and_then}
use usb_hid_wireless_bridge.Crc.{crc32}
use usb_hid_wireless_bridge.Config.{
  Mapping, Quirk, ConfigElem, Config, initial_config, persisted_config_size,
}
use usb_hid_wireless_bridge.Config.Persist.{
  elem_bytes, PersistConfigReturnCode, unknown, persist_config, config_size,
}
use usb_hid_wireless_bridge.Config.Versions.{load_config, checksum_ok}
use usb_hid_wireless_bridge.Config.RoundTrip.{IsElem}
use usb_hid_wireless_bridge.Config.Stored.{IsStorable, on_top_of}
use usb_hid_wireless_bridge.Config.Saved.{load_config-persist_config}
use usb_hid_wireless_bridge.Config.Shape.{HasShape}
use usb_hid_wireless_bridge.Config.Loaded.{load_config-HasShape}
use usb_hid_wireless_bridge.Config.Exprs.{get_expression, elem_data_size}
use usb_hid_wireless_bridge.Config.Uploads.{Packet, send_packets, send_packets-items_of, items_of}
use usb_hid_wireless_bridge.Packed.{write_each}
use usb_hid_wireless_bridge.Config.Downloads.{get_expression-elem_bytes}
use usb_hid_wireless_bridge.Config.Session.{
  Session, no_command, get_config, handle_set_report1, report_id_config, config_size_in_report,
}
use usb_hid_wireless_bridge.Config.Answer.{handle_get_report1, answer, fill_get_config}
use usb_hid_wireless_bridge.Config.Answers.{handle_get_report1-checksum}
use usb_hid_wireless_bridge.Config.Commands.{Shaped}
use usb_hid_wireless_bridge.Config.Reports.{handle_all, handle_all-Shaped, handle_set_report1-none}

abbrev mapping : Mapping
mapping = record {
  target_usage = 0x00070004;
  source_usage = 0x00070005;
  scaling = negsuc 999;
  layer_mask = 1;
  flags = 2;
  hub_ports = 0;
}

abbrev quirk : Quirk
quirk = record {
  vendor_id = 0x046d;
  product_id = 0xc52b;
  interface = 1;
  report_id = 2;
  usage = 0x00010030;
  bitpos = 16;
  size_flags = 0xcc;
}

abbrev elems : List ConfigElem
elems = record { op = 0; val = 1000 } ∷ record { op = 3; val = 0 } ∷ []

abbrev config : Config
config = record initial_config {
  gpio_output_mode = true;
  our_descriptor_number = 2;
  config_mappings = mapping ∷ [];
  macros = ((4 ∷ 5 ∷ []) ∷ [] ∷ []) ∷ replicate 31 [];
  expressions = elems ∷ replicate 7 [];
  quirks = quirk ∷ [];
}

Each-replicate {ℓ κ} : {A : Type ℓ} {P : A → Type κ} (n : ℕ) (x : A) → P x → Each P (replicate n x)
Each-replicate zero x p = none_left
Each-replicate (suc n) x p = and_then p (Each-replicate n x p)

elems-IsElem : Each IsElem elems
elems-IsElem =
    and_then record { op-lt = omega arith; val-lt = omega arith; val_or_zero = refl }
      (and_then record { op-lt = omega arith; val-lt = omega arith; val_or_zero = refl } none_left)

config-IsStorable : IsStorable config
config-IsStorable = record {
  layer_mask-lt = omega arith;
  scroll_timeout-lt = omega arith;
  threshold-lt = omega arith;
  debounce_in_ms = refl;
  debounce-lt = omega arith;
  interval-lt = omega arith;
  descriptor-lt = omega arith;
  duration-lt = omega arith;
  mappings_count = omega arith;
  mappings-IsMapping =
      and_then
        record {
          target_usage-lt = omega arith;
          source_usage-lt = omega arith;
          scaling_ge = omega arith;
          scaling_le = omega arith;
          layer_mask-lt = omega arith;
          flags-lt = omega arith;
          hub_ports-lt = omega arith;
        }
        none_left;
  macros_count = refl;
  macros-IsMacro =
      and_then
        record {
          entries_count = omega arith;
          entries-IsEntry =
              and_then
                record {
                  usages_count = omega arith;
                  usages-lt = and_then (omega arith) (and_then (omega arith) none_left);
                }
                (and_then record { usages_count = omega arith; usages-lt = none_left } none_left);
        }
        (Each-replicate 31 [] record { entries_count = omega arith; entries-IsEntry = none_left });
  expressions_count = refl;
  expressions-IsExpr =
      and_then record { elems_count = omega arith; elems-IsElem = elems-IsElem }
        (Each-replicate 7 [] record { elems_count = omega arith; elems-IsElem = none_left });
  quirks_count = omega arith;
  quirks-IsQuirk =
      and_then
        record {
          vendor_id-lt = omega arith;
          product_id-lt = omega arith;
          interface-lt = omega arith;
          report_id-lt = omega arith;
          usage-lt = omega arith;
          bitpos-lt = omega arith;
          size_flags-lt = omega arith;
        }
        none_left;
}

config_size_test : config_size config ≡ 19 + 15 + 42 + 22 + 13
unfolding config_size
config_size_test = refl

fits : config_size config + 4 ≤ persisted_config_size
fits = omega (arith, config_size_test)

load_config-persist_config_example :
    (buffer : List ℕ) × (persist_config config ≡ (PersistConfigReturnCode.success, some buffer))
    × (load_config buffer initial_config ≡ some (on_top_of initial_config config))
load_config-persist_config_example =
    load_config-persist_config config initial_config config-IsStorable fits

initial-HasShape : HasShape initial_config
initial-HasShape = record {
  macros-length = refl;
  expressions-length = refl;
  descriptor-lt = omega arith;
}

load_config-HasShape_example : HasShape (on_top_of initial_config config)
load_config-HasShape_example =
    load_config-HasShape load_config-persist_config_example.0 initial_config
      (on_top_of initial_config config) initial-HasShape load_config-persist_config_example.2

-- Eight items go in two packets; the second one has old bytes behind its two.
abbrev packets : List Packet
packets =
    record { items = 4 ∷ 5 ∷ 0 ∷ 6 ∷ 0 ∷ 0 ∷ []; unused = [] }
    ∷ record { items = 7 ∷ 8 ∷ []; unused = 9 ∷ 9 ∷ 9 ∷ 9 ∷ [] }
    ∷ []

send_packets-items_of_example :
    send_packets [] packets ≡ (4 ∷ 5 ∷ []) ∷ (6 ∷ []) ∷ [] ∷ (7 ∷ 8 ∷ []) ∷ []
send_packets-items_of_example =
    send_packets-items_of (4 ∷ 5 ∷ []) ((6 ∷ []) ∷ [] ∷ (7 ∷ 8 ∷ []) ∷ [])
      record { items = 4 ∷ 5 ∷ 0 ∷ 6 ∷ 0 ∷ 0 ∷ []; unused = [] }
      (record { items = 7 ∷ 8 ∷ []; unused = 9 ∷ 9 ∷ 9 ∷ 9 ∷ [] } ∷ [])
      (and_then (and_then (λ e. omega (arith, e)) (and_then (λ e. omega (arith, e)) none_left)) (
        and_then (and_then (λ e. omega (arith, e)) none_left) (
          and_then none_left (
            and_then (and_then (λ e. omega (arith, e)) (and_then (λ e. omega (arith, e)) none_left))
              none_left))))
      (and_then (omega arith) (and_then (omega arith) none_left)) (unfold items_of in refl)

get_expression-elem_bytes_example :
    ((get_expression elems 1).1
      ≡ write_each elem_bytes (take (get_expression elems 1).0 (drop 1 elems)))
    × ((get_expression elems 1).0 ≤ length (drop 1 elems))
    × (length (get_expression elems 1).1 ≤ elem_data_size)
    × (((get_expression elems 1).0 ≡ length (drop 1 elems))
        ⊎ (elem_data_size < length (get_expression elems 1).1 + 5))
get_expression-elem_bytes_example = get_expression-elem_bytes elems 1

abbrev session : Session
session = record {
  config = initial_config;
  last_config_command = get_config;
  requested_index = 0;
  requested_secondary_index = 0;
  need_to_persist_config = false;
  persist_config_return_code = unknown;
  suspended = false;
  resume_pending = false;
  config_updated = false;
  our_usages_rle = [];
  their_usages_rle = [];
  calls = [];
}

-- APPEND_TO_MACRO with the item 7: for macro 31, and for a macro 40.
abbrev append_7 : ℕ → List ℕ → List ℕ
append_7 macro crc = 18 ∷ 16 ∷ macro ∷ 1 ∷ 7 ∷ (replicate 23 0 ++ crc)

abbrev append_to_31 : List ℕ
append_to_31 = append_7 31 (205 ∷ 93 ∷ 27 ∷ 117 ∷ [])

abbrev append_to_40 : List ℕ
append_to_40 = append_7 40 (34 ∷ 205 ∷ 95 ∷ 136 ∷ [])

handle_all-Shaped_example :
    (t : Session) × (handle_all (append_to_31 ∷ []) session ≡ some t) × Shaped t
handle_all-Shaped_example =
    handle_all-Shaped (append_to_31 ∷ []) session initial-HasShape (and_then refl none_left)

append_to_40_checksum : checksum_ok append_to_40 config_size_in_report ≡ true
unfolding checksum_ok crc32
append_to_40_checksum = refl

handle_set_report1-none_example : handle_set_report1 report_id_config append_to_40 session ≡ none
handle_set_report1-none_example =
    handle_set_report1-none 40 1 (7 ∷ (replicate 23 0 ++ (34 ∷ 205 ∷ 95 ∷ 136 ∷ []))) session
      initial-HasShape (omega arith) (omega arith) append_to_40_checksum

answer_lem :
    handle_get_report1 report_id_config 32 session
    ≡ (some (answer (fill_get_config session)), record session { last_config_command = no_command })
unfolding handle_get_report1
answer_lem = refl

handle_get_report1-checksum_example :
    (length (answer (fill_get_config session)) ≡ 32)
    × (checksum_ok (answer (fill_get_config session)) config_size_in_report ≡ true)
    × (no_command ≡ no_command)
handle_get_report1-checksum_example =
    handle_get_report1-checksum report_id_config 32 session
      (record session { last_config_command = no_command }) (answer (fill_get_config session))
      answer_lem
