-- ===== src/Config/Stored.antt =====
-- A whole configuration through the image of `persist_config` and back, and the size that it counts.
use usb_hid_wireless_bridge.Base.{
  ℕ, zero, suc, ◌+◌, ◌*◌, ◌/◌, ◌%◌, ◌^◌, ◌<◌, ◌≡◌, refl, ap, sym, Bool, true, false, List, [], ◌∷◌,
  ◌++◌, length, take, arith, bit_or,
}
use usb_hid_wireless_bridge.Base.Each.{Each, Each-map}
use usb_hid_wireless_bridge.Packed.{◌>>=◌, read_n, write_each}
use usb_hid_wireless_bridge.Packed.RoundTrip.{u32_back, Reads, read_exactly, four_parts}
use usb_hid_wireless_bridge.Config.{
  nmacros, nexpressions, Config, config_flags, flag_set, checked_descriptor, bit_if,
  nour_descriptors,
}
use usb_hid_wireless_bridge.Config.Persist.{
  mapping_count, fill_persist_config, mapping_bytes, quirk_bytes, macro_bytes, expr_bytes,
  config_content,
}
use usb_hid_wireless_bridge.Config.Load.{
  load_mapping, load_quirk, load_macro, load_expr, load_config_v13, load_config_v18,
}
use usb_hid_wireless_bridge.Config.RoundTrip.{
  IsMapping, IsQuirk, IsMacro, IsExpr, mapping_back, quirk_back, macro_back, expr_back, u8_back,
}

-- A configuration that the stored form has room for, field by field.
pub record IsStorable (c : Config) : Type 0 where
  pub layer_mask-lt : c.unmapped_passthrough_layer_mask < 2 ^ 8
  pub scroll_timeout-lt : c.partial_scroll_timeout < 2 ^ 32
  pub threshold-lt : c.tap_hold_threshold < 2 ^ 32
  pub debounce_in_ms : c.gpio_debounce_time ≡ c.gpio_debounce_time / 1000 * 1000
  pub debounce-lt : c.gpio_debounce_time / 1000 < 2 ^ 8
  pub interval-lt : c.interval_override < 2 ^ 8
  pub descriptor-lt : c.our_descriptor_number < nour_descriptors
  pub duration-lt : c.macro_entry_duration < 2 ^ 8
  pub mappings_count : length c.config_mappings < 2 ^ 16
  pub mappings-IsMapping : Each IsMapping c.config_mappings
  pub macros_count : length c.macros ≡ nmacros
  pub macros-IsMacro : Each IsMacro c.macros
  pub expressions_count : length c.expressions ≡ nexpressions
  pub expressions-IsExpr : Each IsExpr c.expressions
  pub quirks_count : length c.quirks < 2 ^ 16
  pub quirks-IsQuirk : Each IsQuirk c.quirks

-- What the loader makes of a state that had mappings and quirks of its own.
abbrev pub on_top_of : Config → Config → Config
on_top_of before c = record c {
  config_mappings = before.config_mappings ++ c.config_mappings;
  quirks = before.quirks ++ c.quirks;
}

take_all {ℓ} : {A : Type ℓ} (n : ℕ) (xs : List A) → length xs ≡ n → take n xs ≡ xs
take_all zero [] h = refl
take_all (suc n) [] h = refl
take_all zero (x ∷ xs) h = absurd (omega (arith, h))
take_all (suc n) (x ∷ xs) h = ap (λ l. x ∷ l) (take_all n xs (omega (arith, h)))

-- A count, as its two bytes are read.
abbrev two_bytes : ℕ → ℕ
two_bytes n = n % 256 + n / 2 ^ 8 % 256 * 2 ^ 8

flags_back :
    (a b d : Bool)
    → let flags = bit_or (bit_or (bit_or 0 (bit_if a 4)) (bit_if b 5)) (bit_if d 6) % 256 in
      (flag_set flags 4 ≡ a) × (flag_set flags 5 ≡ b) × (flag_set flags 6 ≡ d)
flags_back true true true = (refl, refl, refl)
flags_back true true false = (refl, refl, refl)
flags_back true false true = (refl, refl, refl)
flags_back true false false = (refl, refl, refl)
flags_back false true true = (refl, refl, refl)
flags_back false true false = (refl, refl, refl)
flags_back false false true = (refl, refl, refl)
flags_back false false false = (refl, refl, refl)

module _ (before c : Config) (h : IsStorable c) where
  flags :
      (flag_set (config_flags c % 256) 4 ≡ c.ignore_auth_dev_inputs)
      × (flag_set (config_flags c % 256) 5 ≡ c.gpio_output_mode)
      × (flag_set (config_flags c % 256) 6 ≡ c.normalize_gamepad_inputs)
  flags = flags_back c.ignore_auth_dev_inputs c.gpio_output_mode c.normalize_gamepad_inputs

  kept_descriptor : checked_descriptor (c.our_descriptor_number % 256) ≡ c.our_descriptor_number
  kept_descriptor = ground (arith, h.descriptor-lt)

  mappings_whole : length c.config_mappings ≡ mapping_count c
  mappings_whole = omega (arith, h.mappings_count)

  pub content_back : Reads (load_config_v18 before) (config_content c) (on_top_of before c)
  unfolding load_config_v18 load_config_v13 config_content fill_persist_config ◌>>=◌
  content_back rest =
      rw
        (
          u8_back c.unmapped_passthrough_layer_mask h.layer_mask-lt,
          u32_back c.partial_scroll_timeout h.scroll_timeout-lt,
          u32_back c.tap_hold_threshold h.threshold-lt,
          u8_back (c.gpio_debounce_time / 1000) h.debounce-lt,
          u8_back c.interval_override h.interval-lt,
          u8_back c.macro_entry_duration h.duration-lt,
          flags.0,
          flags.1,
          flags.2,
          sym h.debounce_in_ms,
          kept_descriptor,
          take_all (mapping_count c) c.config_mappings mappings_whole,
        )
        (four_parts
          (λ mappings macros expressions quirks. record c {
            config_mappings = before.config_mappings ++ mappings;
            macros = macros;
            expressions = expressions;
            quirks = before.quirks ++ quirks;
          })
          (read_n (two_bytes (mapping_count c)) load_mapping) (read_n nmacros load_macro)
          (read_n nexpressions load_expr) (read_n (two_bytes (length c.quirks)) load_quirk)
          (write_each mapping_bytes c.config_mappings) (write_each macro_bytes c.macros)
          (write_each expr_bytes c.expressions) (write_each quirk_bytes c.quirks) c.config_mappings
          c.macros c.expressions c.quirks
          (read_exactly (two_bytes (mapping_count c)) load_mapping mapping_bytes c.config_mappings
            (omega (arith, h.mappings_count)) (Each-map mapping_back h.mappings-IsMapping))
          (read_exactly nmacros load_macro macro_bytes c.macros h.macros_count
            (Each-map macro_back h.macros-IsMacro))
          (read_exactly nexpressions load_expr expr_bytes c.expressions h.expressions_count
            (Each-map expr_back h.expressions-IsExpr))
          (read_exactly (two_bytes (length c.quirks)) load_quirk quirk_bytes c.quirks
            (omega (arith, h.quirks_count)) (Each-map quirk_back h.quirks-IsQuirk))
          rest)
