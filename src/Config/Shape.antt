-- ===== src/Config/Shape.antt =====
-- What the loaders of config.cc keep, whatever bytes they are given.
use usb_hid_wireless_bridge.Base.{
  ℕ, ◌<◌, ◌≡◌, refl, Bool, true, false, List, length, arith, length-append, drop, length-drop,
  get_or, leb, if◌then◌else◌, [],
}
use usb_hid_wireless_bridge.Packed.{Reader, done, read_n}
use usb_hid_wireless_bridge.Packed.Results.{
  Yields, done-Yields, then-Yields, any-Yields, read_n-length,
}
use usb_hid_wireless_bridge.Config.{
  nmacros, nmacros_8, nexpressions, nour_descriptors, Mapping, Config, flag_set, checked_descriptor,
}
use usb_hid_wireless_bridge.Config.Load.{load_macro, load_expr, load_config_v13, load_config_v18}
use usb_hid_wireless_bridge.Config.Older.{
  load_expr6, load_config_v3_v4, load_config_v5, load_config_v6, load_config_v7_v8, load_config_v9,
  load_config_v10, load_config_v11, load_config_v12, load_with_duration, set_macros_8,
}

-- The arrays have their fixed lengths, and the descriptor is one of those that exist.
pub record HasShape (c : Config) : Type 0 where
  pub macros-length : length c.macros ≡ nmacros
  pub expressions-length : length c.expressions ≡ nexpressions
  pub descriptor-lt : c.our_descriptor_number < nour_descriptors

checked_descriptor-lt : (n : ℕ) → checked_descriptor n < nour_descriptors
checked_descriptor-lt n = ground arith

abbrev pub KeepsShape : (Config → Reader Config) → Type 0
KeepsShape load = (c : Config) → HasShape c → Yields HasShape (load c)

-- Eight new macros in front of the others.
macros_8_lem :
    (c : Config) (macros : List (List (List ℕ)))
    → HasShape c
    → length macros ≡ nmacros_8
    → length (set_macros_8 c macros) ≡ nmacros
macros_8_lem c macros h e = omega (
  arith,
  e,
  h.macros-length,
  length-append macros (drop nmacros_8 c.macros),
  length-drop nmacros_8 c.macros,
)

pub load_config_v13-HasShape : KeepsShape load_config_v13
unfolding load_config_v13
load_config_v13-HasShape c h = any-Yields _ _ λ version. any-Yields _ _ λ flags.
    any-Yields _ _ λ mask. any-Yields _ _ λ timeout. any-Yields _ _ λ count.
      any-Yields _ _ λ interval. any-Yields _ _ λ threshold. any-Yields _ _ λ debounce.
        any-Yields _ _ λ descriptor. any-Yields _ _ λ duration. any-Yields _ _ λ quirk_count.
          any-Yields _ _ λ mappings. then-Yields _ _ (read_n-length nmacros load_macro) λ macros e.
            then-Yields _ _ (read_n-length nexpressions load_expr) λ expressions f.
              any-Yields _ _ λ quirks. done-Yields _ (record {
                macros-length = e;
                expressions-length = f;
                descriptor-lt = checked_descriptor-lt descriptor;
              })

pub load_config_v18-HasShape : KeepsShape load_config_v18
unfolding load_config_v18
load_config_v18-HasShape c h = record {
  at = λ bytes.
      (load_config_v13-HasShape
          (record c { normalize_gamepad_inputs = flag_set (get_or bytes 1 0) 6 })
          record {
            macros-length = h.macros-length;
            expressions-length = h.expressions-length;
            descriptor-lt = h.descriptor-lt;
          }).at
        bytes;
}

pub load_config_v12-HasShape : KeepsShape load_config_v12
unfolding load_config_v12
load_config_v12-HasShape c h = any-Yields _ _ λ version. any-Yields _ _ λ flags.
    any-Yields _ _ λ mask. any-Yields _ _ λ timeout. any-Yields _ _ λ count.
      any-Yields _ _ λ interval. any-Yields _ _ λ threshold. any-Yields _ _ λ debounce.
        any-Yields _ _ λ descriptor. any-Yields _ _ λ duration. any-Yields _ _ λ quirk_count.
          any-Yields _ _ λ mappings. then-Yields _ _ (read_n-length nmacros load_macro) λ macros e.
            then-Yields _ _ (read_n-length nexpressions load_expr6) λ expressions f.
              any-Yields _ _ λ quirks. done-Yields _ (record {
                macros-length = e;
                expressions-length = f;
                descriptor-lt = checked_descriptor-lt descriptor;
              })

load_with_duration-HasShape :
    (load_mappings : ℕ → Reader (List Mapping)) → KeepsShape (load_with_duration load_mappings)
unfolding load_with_duration
load_with_duration-HasShape load_mappings c h = any-Yields _ _ λ version. any-Yields _ _ λ flags.
    any-Yields _ _ λ timeout. any-Yields _ _ λ count. any-Yields _ _ λ interval.
      any-Yields _ _ λ threshold. any-Yields _ _ λ debounce. any-Yields _ _ λ descriptor.
        any-Yields _ _ λ duration. any-Yields _ _ λ mappings.
          then-Yields _ _ (read_n-length nmacros load_macro) λ macros e.
            then-Yields _ _ (read_n-length nexpressions load_expr6) λ expressions f.
              done-Yields _ (record {
                macros-length = e;
                expressions-length = f;
                descriptor-lt = checked_descriptor-lt descriptor;
              })

pub load_config_v11-HasShape : KeepsShape load_config_v11
unfolding load_config_v11
load_config_v11-HasShape = load_with_duration-HasShape _

pub load_config_v10-HasShape : KeepsShape load_config_v10
unfolding load_config_v10
load_config_v10-HasShape = load_with_duration-HasShape _

pub load_config_v9-HasShape : KeepsShape load_config_v9
unfolding load_config_v9
load_config_v9-HasShape c h = any-Yields _ _ λ version. any-Yields _ _ λ flags.
    any-Yields _ _ λ timeout. any-Yields _ _ λ count. any-Yields _ _ λ interval.
      any-Yields _ _ λ threshold. any-Yields _ _ λ debounce. any-Yields _ _ λ descriptor.
        any-Yields _ _ λ mappings. then-Yields _ _ (read_n-length nmacros load_macro) λ macros e.
          then-Yields _ _ (read_n-length nexpressions load_expr6) λ expressions f.
            done-Yields _ (record {
              macros-length = e;
              expressions-length = f;
              descriptor-lt = checked_descriptor-lt descriptor;
            })

pub load_config_v7_v8-HasShape : KeepsShape load_config_v7_v8
unfolding load_config_v7_v8
load_config_v7_v8-HasShape c h = any-Yields _ _ λ version. any-Yields _ _ λ flags.
    any-Yields _ _ λ timeout. any-Yields _ _ λ count. any-Yields _ _ λ interval.
      any-Yields _ _ λ threshold. any-Yields _ _ λ debounce. any-Yields _ _ λ mappings.
        then-Yields _ _ (read_n-length nmacros load_macro) λ macros e.
          then-Yields _ _ (read_n-length nexpressions load_expr6) λ expressions f.
            done-Yields _ (record {
              macros-length = e;
              expressions-length = f;
              descriptor-lt = h.descriptor-lt;
            })

pub load_config_v5-HasShape : KeepsShape load_config_v5
unfolding load_config_v5
load_config_v5-HasShape c h = any-Yields _ _ λ version. any-Yields _ _ λ flags.
    any-Yields _ _ λ timeout. any-Yields _ _ λ count. any-Yields _ _ λ interval.
      any-Yields _ _ λ threshold. any-Yields _ _ λ mappings.
        then-Yields _ _ (read_n-length nmacros_8 load_macro) λ macros e. done-Yields _ (record {
          macros-length = macros_8_lem c macros h e;
          expressions-length = h.expressions-length;
          descriptor-lt = h.descriptor-lt;
        })

pub load_config_v6-HasShape : KeepsShape load_config_v6
unfolding load_config_v6
load_config_v6-HasShape c h = then-Yields _ _ (load_config_v5-HasShape c h) λ loaded g.
    then-Yields _ _ (read_n-length nexpressions load_expr6) λ expressions f. done-Yields _ (record {
      macros-length = g.macros-length;
      expressions-length = f;
      descriptor-lt = g.descriptor-lt;
    })

-- Version 3 has no macros.
macros_from-length :
    (b : Bool)
    → Yields
        (λ macros. length macros ≡ (if b then nmacros_8 else 0))
        (if b then read_n nmacros_8 load_macro else done [])
macros_from-length true = read_n-length nmacros_8 load_macro
macros_from-length false = done-Yields [] refl

macros_from_lem :
    (b : Bool) (c : Config) (macros : List (List (List ℕ)))
    → HasShape c
    → length macros ≡ (if b then nmacros_8 else 0)
    → length (if b then set_macros_8 c macros else c.macros) ≡ nmacros
macros_from_lem true c macros h e = macros_8_lem c macros h e
macros_from_lem false c macros h e = h.macros-length

pub load_config_v3_v4-HasShape : KeepsShape load_config_v3_v4
unfolding load_config_v3_v4
load_config_v3_v4-HasShape c h = any-Yields _ _ λ version. any-Yields _ _ λ flags.
    any-Yields _ _ λ timeout. any-Yields _ _ λ count. any-Yields _ _ λ interval.
      any-Yields _ _ λ mappings. then-Yields _ _ (macros_from-length (leb 4 version)) λ macros e.
        done-Yields _ (record {
          macros-length = macros_from_lem (leb 4 version) c macros h e;
          expressions-length = h.expressions-length;
          descriptor-lt = h.descriptor-lt;
        })
