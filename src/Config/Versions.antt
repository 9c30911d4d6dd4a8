-- ===== src/Config/Versions.antt =====
-- `load_config` of config.cc: the checksum, the version, and the loader for it.
use usb_hid_wireless_bridge.Base.{
  ℕ, ◌-◌, Bool, false, not, ◌||◌, ◌&&◌, List, Option, none, some, ◌==◌, leb, ltb, take, drop,
  get_or, if◌then◌else◌,
}
use usb_hid_wireless_bridge.Crc.{crc32}
use usb_hid_wireless_bridge.Packed.{Reader, get_u32}
use usb_hid_wireless_bridge.Config.{config_version, persisted_config_size, Config}
use usb_hid_wireless_bridge.Config.Load.{load_config_v13, load_config_v18}
use usb_hid_wireless_bridge.Config.Older.{
  load_config_v3_v4, load_config_v5, load_config_v6, load_config_v7_v8, load_config_v9,
  load_config_v10, load_config_v11, load_config_v12,
}

-- `==` with the four bytes that are read; a buffer without them does not occur.
abbrev pub crc_matches : ℕ → Option (ℕ × List ℕ) → Bool
crc_matches crc none = false
crc_matches crc (some (stored, rest)) = crc == stored

unfoldable pub checksum_ok : List ℕ → ℕ → Bool
checksum_ok buffer data_size =
    crc_matches (crc32 (take (data_size - 4) buffer)) (get_u32 (drop (data_size - 4) buffer))

abbrev pub version_of : List ℕ → ℕ
version_of buffer = get_or buffer 0 0

unfoldable pub persisted_version_ok : List ℕ → Bool
persisted_version_ok buffer = leb 3 (version_of buffer) && leb (version_of buffer) config_version

abbrev pub loader_for : ℕ → Config → Reader Config
loader_for version =
    if (version == 3) || (version == 4)
    then load_config_v3_v4
    else if version == 5
    then load_config_v5
    else if version == 6
    then load_config_v6
    else if (version == 7) || (version == 8)
    then load_config_v7_v8
    else if version == 9
    then load_config_v9
    else if version == 10
    then load_config_v10
    else if version == 11
    then load_config_v11
    else if version == 12
    then load_config_v12
    else if (version == 13)
        || (version == 14)
        || (version == 15)
        || (version == 16)
        || (version == 17)
    then load_config_v13
    else load_config_v18

-- The state before the loader runs: an old configuration keeps the old behaviour.
abbrev pub before_loading : ℕ → Config → Config
before_loading version c =
    if ltb version 18 then record c { normalize_gamepad_inputs = false } else c

-- `none` is a read past the end of the buffer. The code goes on there; no such image is ever written.
unfoldable pub load_config : List ℕ → Config → Option Config
unfolding persisted_version_ok
load_config persisted_config c =
    if not (checksum_ok persisted_config persisted_config_size)
      || not (persisted_version_ok persisted_config)
    then some c
    else (let version = version_of persisted_config in
        elim (loader_for version (before_loading version c) persisted_config) [
          | none ↦ none
          | some (loaded, rest) ↦ some loaded
        ])
