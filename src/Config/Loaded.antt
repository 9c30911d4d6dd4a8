-- ===== src/Config/Loaded.antt =====
-- `load_config` of config.cc on an image of any version, whoever wrote it.
use usb_hid_wireless_bridge.Base.{
  ℕ, ◌≡◌, refl, Bool, true, false, not, ◌||◌, List, Option, none, some, ◌==◌, ltb, if◌then◌else◌,
  subst, ap,
}
use usb_hid_wireless_bridge.Packed.{Reader}
use usb_hid_wireless_bridge.Config.{persisted_config_size, Config}
use usb_hid_wireless_bridge.Config.Versions.{
  checksum_ok, persisted_version_ok, version_of, loader_for, before_loading, load_config,
}
use usb_hid_wireless_bridge.Config.Shape.{
  HasShape, KeepsShape, load_config_v3_v4-HasShape, load_config_v5-HasShape,
  load_config_v6-HasShape, load_config_v7_v8-HasShape, load_config_v9-HasShape,
  load_config_v10-HasShape, load_config_v11-HasShape, load_config_v12-HasShape,
  load_config_v13-HasShape, load_config_v18-HasShape,
}

either_keeps :
    (b : Bool) (f g : Config → Reader Config)
    → KeepsShape f
    → KeepsShape g
    → KeepsShape (if b then f else g)
either_keeps true f g hf hg = hf
either_keeps false f g hf hg = hg

loader_for-HasShape : (version : ℕ) → KeepsShape (loader_for version)
loader_for-HasShape v = either_keeps ((v == 3) || (v == 4)) _ _ load_config_v3_v4-HasShape (
    either_keeps (v == 5) _ _ load_config_v5-HasShape (
      either_keeps (v == 6) _ _ load_config_v6-HasShape (
        either_keeps ((v == 7) || (v == 8)) _ _ load_config_v7_v8-HasShape (
          either_keeps (v == 9) _ _ load_config_v9-HasShape (
            either_keeps (v == 10) _ _ load_config_v10-HasShape (
              either_keeps (v == 11) _ _ load_config_v11-HasShape (
                either_keeps (v == 12) _ _ load_config_v12-HasShape (
                  either_keeps ((v == 13) || (v == 14) || (v == 15) || (v == 16) || (v == 17)) _ _
                    load_config_v13-HasShape load_config_v18-HasShape))))))))

before_loading-HasShape : (v : ℕ) (c : Config) → HasShape c → HasShape (before_loading v c)
before_loading-HasShape v c h = by_case (ltb v 18)
  where
    by_case : (b : Bool) → HasShape (if b then record c { normalize_gamepad_inputs = false } else c)
    by_case true = record {
      macros-length = h.macros-length;
      expressions-length = h.expressions-length;
      descriptor-lt = h.descriptor-lt;
    }
    by_case false = h

config_or : Config → Option Config → Config
config_or c none = c
config_or c (some d) = d

-- Whatever image is found in flash, damaged or of any version: when loading ends, all 32 macros and 8
-- expressions exist and the number of the device descriptor is one of the six that exist.
pub load_config-HasShape :
    (buffer : List ℕ) (c d : Config) → HasShape c → load_config buffer c ≡ some d → HasShape d
unfolding load_config config_or
load_config-HasShape buffer c d h =
    by_case (not (checksum_ok buffer persisted_config_size) || not (persisted_version_ok buffer))
      (loader_for v (before_loading v c) buffer) refl
  where
    v : ℕ
    v = version_of buffer

    by_case :
        (b : Bool) (o : Option (Config × List ℕ))
        → loader_for v (before_loading v c) buffer ≡ o
        → (if b then some c else elim o [ none ↦ none | some (loaded, rest) ↦ some loaded ])
          ≡ some d
        → HasShape d
    by_case true o e p = subst HasShape (ap (config_or c) p) h
    by_case false none e p = absurd (cc)
    by_case false (some (loaded, rest)) e p = subst HasShape (ap (config_or c) p) (
        (loader_for-HasShape v (before_loading v c) (before_loading-HasShape v c h)).at buffer rest
          loaded e)
