-- ===== src/Config/Commands.antt =====
-- Every command of the configuration tool, on a report of the right size.
use usb_hid_wireless_bridge.Base.{
  ℕ, ◌<◌, ◌≡◌, refl, ap, sym, ◌∙◌, subst, Bool, true, false, [], length, length-set, get_or, set,
  leb, arith, if◌then◌else◌,
}
use usb_hid_wireless_bridge.Packed.{get_u8}
use usb_hid_wireless_bridge.Packed.Total.{
  Gives, Any, done-Gives, then-Gives, get_u8-Gives, get_u16-Gives, get_u32-Gives, read_n-Gives,
}
use usb_hid_wireless_bridge.Config.{Config, nexpressions, nour_descriptors}
use usb_hid_wireless_bridge.Config.Load.{load_mapping, load_quirk}
use usb_hid_wireless_bridge.Config.Shape.{HasShape}
use usb_hid_wireless_bridge.Config.Exprs.{append_elems}
use usb_hid_wireless_bridge.Config.Session.{
  Session, set_config_command, add_mapping_command, add_quirk_command, get_indexed_command,
  get_part_command, append_expression_command, set_monitor_command, with_config,
}

abbrev pub Shaped : Session → Type 0
Shaped s = HasShape s.config

-- A change of the configuration that leaves the three alone.
pub same_shape :
    (c d : Config)
    → HasShape c
    → d.macros ≡ c.macros
    → d.expressions ≡ c.expressions
    → d.our_descriptor_number ≡ c.our_descriptor_number
    → HasShape d
same_shape c d h m e n = record {
  macros-length = ap length m ∙ h.macros-length;
  expressions-length = ap length e ∙ h.expressions-length;
  descriptor-lt = subst (λ k. k < nour_descriptors) (sym n) h.descriptor-lt;
}

load_mapping-Gives : Gives 15 Any load_mapping
unfolding load_mapping
load_mapping-Gives = then-Gives 4 11 _ _ get_u32-Gives λ target p.
    then-Gives 4 7 _ _ get_u32-Gives λ source p. then-Gives 4 3 _ _ get_u32-Gives λ scaling p.
      then-Gives 1 2 _ _ get_u8-Gives λ layer_mask p.
        then-Gives 1 1 _ _ get_u8-Gives
          λ flags p. then-Gives 1 0 _ _ get_u8-Gives λ hub_ports p. done-Gives _ refl

load_quirk-Gives : Gives 13 Any load_quirk
unfolding load_quirk
load_quirk-Gives = then-Gives 2 11 _ _ get_u16-Gives λ vendor p.
    then-Gives 2 9 _ _ get_u16-Gives λ product p. then-Gives 1 8 _ _ get_u8-Gives λ interface p.
      then-Gives 1 7 _ _ get_u8-Gives λ report_id p. then-Gives 4 3 _ _ get_u32-Gives λ usage p.
        then-Gives 2 1 _ _ get_u16-Gives
          λ bitpos p. then-Gives 1 0 _ _ get_u8-Gives λ size_flags p. done-Gives _ refl

module _ (s : Session) (h : Shaped s) where
  pub set_config-Gives : Gives 14 Shaped (set_config_command s)
  unfolding set_config_command
  set_config-Gives = then-Gives 1 13 _ _ get_u8-Gives λ flags p.
      then-Gives 1 12 _ _ get_u8-Gives λ mask p. then-Gives 4 8 _ _ get_u32-Gives λ timeout p.
        then-Gives 1 7 _ _ get_u8-Gives λ interval p.
          then-Gives 4 3 _ _ get_u32-Gives λ threshold p.
            then-Gives 1 2 _ _ get_u8-Gives λ debounce p.
              then-Gives 1 1 _ _ get_u8-Gives λ descriptor p.
                then-Gives 1 0 _ _ get_u8-Gives λ duration p. done-Gives _ (record {
                  macros-length = h.macros-length;
                  expressions-length = h.expressions-length;
                  descriptor-lt = ground arith;
                })

  pub add_mapping-Gives : Gives 15 Shaped (add_mapping_command s)
  unfolding add_mapping_command
  add_mapping-Gives =
      then-Gives 15 0 _ _ load_mapping-Gives
        λ mapping p. done-Gives _ (same_shape s.config _ h refl refl refl)

  pub add_quirk-Gives : Gives 13 Shaped (add_quirk_command s)
  unfolding add_quirk_command
  add_quirk-Gives =
      then-Gives 13 0 _ _ load_quirk-Gives
        λ quirk p. done-Gives _ (same_shape s.config _ h refl refl refl)

  pub get_indexed-Gives : Gives 4 Shaped (get_indexed_command s)
  unfolding get_indexed_command
  get_indexed-Gives = then-Gives 4 0 _ _ get_u32-Gives λ index p. done-Gives _ h

  pub get_part-Gives : Gives 8 Shaped (get_part_command s)
  unfolding get_part_command
  get_part-Gives =
      then-Gives 4 4 _ _ get_u32-Gives
        λ index p. then-Gives 4 0 _ _ get_u32-Gives λ secondary_index p. done-Gives _ h

  pub set_monitor-Gives : Gives 1 Shaped (set_monitor_command s)
  unfolding set_monitor_command
  set_monitor-Gives = then-Gives 1 0 _ _ get_u8-Gives λ enabled p. done-Gives _ h

  pub append_expression-Gives : Gives 26 Shaped (append_expression_command s)
  unfolding append_expression_command
  append_expression-Gives = then-Gives 1 25 _ _ get_u8-Gives λ expr p.
      then-Gives 1 24 _ _ get_u8-Gives λ nelems p.
        then-Gives 24 0 _ _ (read_n-Gives 24 1 get_u8 get_u8-Gives) λ elem_data p. done-Gives _ (
          appended (leb nexpressions expr) expr
            (append_elems nelems elem_data (get_or s.config.expressions expr [])))
    where
      appended :
          (b : Bool) (expr : ℕ) (elems : _)
          → Shaped (
              if b
              then s
              else with_config
                  (record s.config { expressions = set s.config.expressions expr elems })
                  s)
      appended true expr elems = h
      appended false expr elems = record {
        macros-length = h.macros-length;
        expressions-length = length-set s.config.expressions expr elems ∙ h.expressions-length;
        descriptor-lt = h.descriptor-lt;
      }
