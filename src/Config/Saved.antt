-- ===== src/Config/Saved.antt =====
-- `persist_config` and, after the next start, `load_config`.
use usb_hid_wireless_bridge.Base.{
  ◌+◌, ◌≤◌, ◌<◌, ◌≡◌, ◌↔◌, refl, ap, subst, sym, not, Bool, true, false, List, Option, none, some,
  ltb, length, get_or, arith, if◌then◌else◌, ℕ,
}
use usb_hid_wireless_bridge.Config.{persisted_config_size, Config}
use usb_hid_wireless_bridge.Config.Persist.{
  PersistConfigReturnCode, fill_persist_config, config_content, config_size, image, persist_config,
}
use usb_hid_wireless_bridge.Config.Versions.{load_config}
use usb_hid_wireless_bridge.Config.Stored.{IsStorable, on_top_of, content_back}
use usb_hid_wireless_bridge.Config.Image.{length-config_content, load_config-image}

first_byte : (c : Config) → get_or (image (config_content c)) 0 0 ≡ 18
unfolding image config_content fill_persist_config
first_byte c = refl

-- A configuration whose fields and counts fit their stored form, and whose size fits the flash area,
-- is saved with the code SUCCESS, and loading the saved image gives every setting, macro and
-- expression as it was; the mappings and the quirks are appended to those that were there before.
pub load_config-persist_config :
    (c before : Config)
    → IsStorable c
    → config_size c + 4 ≤ persisted_config_size
    → (buffer : List ℕ) × (persist_config c ≡ (PersistConfigReturnCode.success, some buffer))
      × (load_config buffer before ≡ some (on_top_of before c))
unfolding persist_config
load_config-persist_config c before h fits = (
  image (config_content c),
  ground (arith, fits),
  load_config-image (config_content c) before (on_top_of before c)
      (omega (arith, length-config_content c, fits)) (first_byte c) (content_back before c h),
)

outcome : ℕ → List ℕ → PersistConfigReturnCode × Option (List ℕ)
outcome n buffer =
    if ltb persisted_config_size n
    then (PersistConfigReturnCode.config_too_big, none)
    else (PersistConfigReturnCode.success, some buffer)

was_some : PersistConfigReturnCode × Option (List ℕ) → Bool
was_some (code, none) = false
was_some (code, some buffer) = true

outcome-big :
    (n : ℕ) (buffer : List ℕ) → was_some (outcome n buffer) ≡ not (ltb persisted_config_size n)
unfolding outcome was_some
outcome-big n buffer = ground arith

refused :
    (n : ℕ) (buffer : List ℕ)
    → (outcome n buffer ≡ (PersistConfigReturnCode.config_too_big, none))
      ↔ (persisted_config_size < n)
unfolding outcome was_some
refused n buffer =
    (λ p. ground (arith, outcome-big n buffer, ap was_some p), λ h. ground (arith, h))

-- Saving is refused with CONFIG_TOO_BIG, and flash is left alone, exactly when the bytes to be stored
-- and their checksum do not fit the flash area.
pub persist_config-too_big :
    (c : Config)
    → (persist_config c ≡ (PersistConfigReturnCode.config_too_big, none))
      ↔ (persisted_config_size < length (config_content c) + 4)
unfolding persist_config outcome
persist_config-too_big c =
    subst
      (λ k.
        (persist_config c ≡ (PersistConfigReturnCode.config_too_big, none))
        ↔ (persisted_config_size < k + 4))
      (sym (length-config_content c)) (refused (config_size c + 4) (image (config_content c)))
