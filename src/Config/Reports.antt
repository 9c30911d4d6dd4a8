-- ===== src/Config/Reports.antt =====
-- `handle_set_report1` of config.cc on any reports, one after the other.
use usb_hid_wireless_bridge.Base.{
  ℕ, zero, suc, ◌≤◌, ◌<◌, ◌≡◌, refl, ap, ap₂, ◌∙◌, Bool, true, false, ◌&&◌, List, [], ◌∷◌, Option,
  none, some, length, length-set, length-drop, get_or, get_elem?, drop, leb, ◌==◌, arith,
  if◌then◌else◌, leb→le,
}
use usb_hid_wireless_bridge.Base.Each.{Each, none_left, and_then}
use usb_hid_wireless_bridge.Packed.{Reader, ◌>>=◌, get_u8, get_u32, read_n}
use usb_hid_wireless_bridge.Packed.Total.{
  Gives, then-Gives, get_u8-Gives, get_u32-Gives, read_n-Gives,
}
use usb_hid_wireless_bridge.Config.{nmacros}
use usb_hid_wireless_bridge.Config.Versions.{checksum_ok}
use usb_hid_wireless_bridge.Config.Macros.{append_to_macro, macro_items_in_packet}
use usb_hid_wireless_bridge.Config.Session.{
  Session, ConfigCommand, no_command, reset_into_bootsel, set_config, get_config, clear_mapping,
  add_mapping, get_mapping, persist, get_our_usages, get_their_usages, suspend, resume,
  pair_new_device, clear_bonds, flash_b_side, clear_macros, append_macro, get_macro,
  invalid_command, clear_expressions, append_expression, get_expression, set_monitor_enabled,
  clear_quirks, add_quirk, get_quirk, other_command, command_of, with_appended, ended, session_of,
  append_to, append_macro_command, run_command, handle_set_report1, report_id_config,
  config_size_in_report, command_version_ok,
}
use usb_hid_wireless_bridge.Config.Commands.{
  Shaped, same_shape, set_config-Gives, add_mapping-Gives, add_quirk-Gives, get_indexed-Gives,
  get_part-Gives, set_monitor-Gives, append_expression-Gives,
}

get_elem?-some {ℓ} :
    {A : Type ℓ} (xs : List A) (i : ℕ) → i < length xs → (x : A) × (get_elem? xs i ≡ some x)
get_elem?-some [] i h = absurd (omega (arith, h))
get_elem?-some (x ∷ xs) zero h = (x, refl)
get_elem?-some (x ∷ xs) (suc i) h = get_elem?-some xs i (omega (arith, h))

get_or-drop : (buffer : List ℕ) → get_or (drop 2 buffer) 0 0 ≡ get_or buffer 2 0
get_or-drop [] = refl
get_or-drop (a ∷ []) = refl
get_or-drop (a ∷ b ∷ []) = refl
get_or-drop (a ∷ b ∷ c ∷ rest) = refl

Ran : Option (Session × List ℕ) → Type 0
Ran o = (t : Session) × (rest : List ℕ) × (o ≡ some (t, rest)) × Shaped t

module _ (s : Session) (h : Shaped s) where
  append_to-Gives :
      (macro nitems : ℕ) (usages : List ℕ)
      → macro < nmacros
      → Gives 0 Shaped (append_to macro nitems usages s)
  unfolding append_to
  append_to-Gives macro nitems usages k =
      let (entries, e) = get_elem?-some s.config.macros macro (omega (arith, k, h.macros-length)) in
      record {
        at = λ bytes l. (
          _,
          bytes,
          ap (λ o. ended (with_appended o macro nitems usages s) bytes) e,
          omega arith,
          record {
            macros-length =
                length-set s.config.macros macro (append_to_macro entries nitems usages)
                ∙ h.macros-length;
            expressions-length = h.expressions-length;
            descriptor-lt = h.descriptor-lt;
          },
        );
      }

  append_macro_runs :
      (macro : ℕ) (rest : List ℕ)
      → 25 ≤ length rest
      → macro < nmacros
      → Ran (append_macro_command s (macro ∷ rest))
  unfolding append_macro_command ◌>>=◌ Ran
  append_macro_runs macro rest l k =
      let (t, more, e, j, q) =
        (then-Gives 1 24 get_u8
            (λ nitems.
              read_n macro_items_in_packet get_u32 >>= (λ usages. append_to macro nitems usages s))
            get_u8-Gives
            (λ nitems p.
              then-Gives 24 0 (read_n macro_items_in_packet get_u32)
                (λ usages. append_to macro nitems usages s) (read_n-Gives 6 4 get_u32 get_u32-Gives)
                (λ usages q. append_to-Gives macro nitems usages k))).at
          rest l in
      (t, more, e, q)

  ran :
      (n : ℕ) (m : Reader Session) (bytes : List ℕ)
      → Gives n Shaped m
      → n ≤ 30
      → 30 ≤ length bytes
      → Ran (m bytes)
  unfolding Ran
  ran n m bytes g k l = let (t, rest, e, j, q) = g.at bytes (omega (arith, k, l)) in (t, rest, e, q)

abbrev pub is_append : ConfigCommand → Bool
is_append append_macro = true
is_append _ = false

-- APPEND_TO_MACRO for a macro that does not exist.
abbrev pub outside_macros : List ℕ → Bool
outside_macros buffer =
    is_append (command_of (get_or buffer 1 0)) && leb nmacros (get_or buffer 2 0)

run_command_runs :
    (command : ConfigCommand) (s : Session) (bytes : List ℕ)
    → Shaped s
    → 30 ≤ length bytes
    → (is_append command && leb nmacros (get_or bytes 0 0)) ≡ false
    → Ran (run_command command s bytes)
unfolding run_command Ran
run_command_runs no_command s bytes h l k = (_, _, refl, h)
run_command_runs reset_into_bootsel s bytes h l k = (_, _, refl, h)
run_command_runs set_config s bytes h l k =
    ran s h 14 _ bytes (set_config-Gives s h) (omega arith) l
run_command_runs get_config s bytes h l k = (_, _, refl, h)
run_command_runs clear_mapping s bytes h l k = (_, _, refl, same_shape s.config _ h refl refl refl)
run_command_runs add_mapping s bytes h l k =
    ran s h 15 _ bytes (add_mapping-Gives s h) (omega arith) l
run_command_runs get_mapping s bytes h l k =
    ran s h 4 _ bytes (get_indexed-Gives s h) (omega arith) l
run_command_runs persist s bytes h l k = (_, _, refl, h)
run_command_runs get_our_usages s bytes h l k =
    ran s h 4 _ bytes (get_indexed-Gives s h) (omega arith) l
run_command_runs get_their_usages s bytes h l k =
    ran s h 4 _ bytes (get_indexed-Gives s h) (omega arith) l
run_command_runs suspend s bytes h l k = (_, _, refl, h)
run_command_runs resume s bytes h l k = (_, _, refl, h)
run_command_runs pair_new_device s bytes h l k = (_, _, refl, h)
run_command_runs clear_bonds s bytes h l k = (_, _, refl, h)
run_command_runs flash_b_side s bytes h l k = (_, _, refl, h)
run_command_runs clear_macros s bytes h l k = (
  _,
  _,
  refl,
  record {
    macros-length = refl;
    expressions-length = h.expressions-length;
    descriptor-lt = h.descriptor-lt;
  },
)
run_command_runs append_macro s [] h l k = absurd (omega (arith, l))
run_command_runs append_macro s (m ∷ rest) h l k =
    append_macro_runs s h m rest (omega (arith, l)) (ground (arith, k))
run_command_runs get_macro s bytes h l k = ran s h 8 _ bytes (get_part-Gives s h) (omega arith) l
run_command_runs invalid_command s bytes h l k = (_, _, refl, h)
run_command_runs clear_expressions s bytes h l k = (
  _,
  _,
  refl,
  record {
    macros-length = h.macros-length;
    expressions-length = refl;
    descriptor-lt = h.descriptor-lt;
  },
)
run_command_runs append_expression s bytes h l k =
    ran s h 26 _ bytes (append_expression-Gives s h) (omega arith) l
run_command_runs get_expression s bytes h l k =
    ran s h 8 _ bytes (get_part-Gives s h) (omega arith) l
run_command_runs set_monitor_enabled s bytes h l k =
    ran s h 1 _ bytes (set_monitor-Gives s h) (omega arith) l
run_command_runs clear_quirks s bytes h l k = (_, _, refl, same_shape s.config _ h refl refl refl)
run_command_runs add_quirk s bytes h l k = ran s h 13 _ bytes (add_quirk-Gives s h) (omega arith) l
run_command_runs get_quirk s bytes h l k = ran s h 4 _ bytes (get_indexed-Gives s h) (omega arith) l
run_command_runs other_command s bytes h l k = (_, _, refl, h)

-- A report to the configuration interface ends in a state that has its 32 macros, its 8 expressions and
-- an existing descriptor, whatever its bytes are, unless it is an APPEND_TO_MACRO for a macro that does
-- not exist.
pub handle_set_report1-Shaped :
    (report_id : ℕ) (buffer : List ℕ) (s : Session)
    → Shaped s
    → outside_macros buffer ≡ false
    → (t : Session) × (handle_set_report1 report_id buffer s ≡ some t) × Shaped t
unfolding handle_set_report1 Ran
handle_set_report1-Shaped report_id buffer s h k =
    by_case ((report_id == report_id_config) && leb config_size_in_report (length buffer))
      (checksum_ok buffer config_size_in_report && command_version_ok buffer) refl
  where
    command : ConfigCommand
    command = command_of (get_or buffer 1 0)

    by_case :
        (a b : Bool)
        → ((report_id == report_id_config) && leb config_size_in_report (length buffer)) ≡ a
        → (t : Session) × ((if a
              then if b
                then session_of (
                    run_command command
                      (record s { last_config_command = command })
                      (drop 2 buffer))
                else some (record s { last_config_command = invalid_command })
              else some s)
            ≡ some t)
          × Shaped t
    by_case false b p = (s, refl, h)
    by_case true false p = (_, refl, h)
    by_case true true p =
        let (t, rest, e, q) =
          run_command_runs command (record s { last_config_command = command }) (drop 2 buffer) h
            (omega (
              arith,
              length-drop 2 buffer,
              leb→le config_size_in_report (length buffer) (ground (arith, p)),
            ))
            (ap (λ n. is_append command && leb nmacros n) (get_or-drop buffer) ∙ k) in
        (t, ap session_of e, q)

-- Reports in the order in which the host sends them.
abbrev pub handle_all : List (List ℕ) → Session → Option Session
handle_all [] s = some s
handle_all (buffer ∷ buffers) s = elim (handle_set_report1 report_id_config buffer s) [
  | none ↦ none
  | some t ↦ handle_all buffers t
]

-- So do any number of them, one after the other.
pub handle_all-Shaped :
    (buffers : List (List ℕ)) (s : Session)
    → Shaped s
    → Each (λ buffer. outside_macros buffer ≡ false) buffers
    → (t : Session) × (handle_all buffers s ≡ some t) × Shaped t
handle_all-Shaped [] s h none_left = (s, refl, h)
handle_all-Shaped (buffer ∷ buffers) s h (and_then k ks) =
    let (t, e, q) = handle_set_report1-Shaped report_id_config buffer s h k in
    let (u, d, r) = handle_all-Shaped buffers t q ks in
    (
      u,
      ap (λ (o : Option Session). elim o [ none ↦ none | some v ↦ handle_all buffers v ]) e ∙ d,
      r,
    )

get_elem?-none {ℓ} : {A : Type ℓ} (xs : List A) (i : ℕ) → length xs ≤ i → get_elem? xs i ≡ none
get_elem?-none [] i h = refl
get_elem?-none (x ∷ xs) zero h = absurd (omega (arith, h))
get_elem?-none (x ∷ xs) (suc i) h = get_elem?-none xs i (omega (arith, h))

-- An APPEND_TO_MACRO that passes the checksum and the version and names one of the macros 32 to 255
-- makes the code write outside the array of macros.
pub handle_set_report1-none :
    (macro nitems : ℕ) (rest : List ℕ) (s : Session)
    → Shaped s
    → nmacros ≤ macro
    → 28 ≤ length rest
    → checksum_ok (18 ∷ 16 ∷ macro ∷ nitems ∷ rest) config_size_in_report ≡ true
    → handle_set_report1 report_id_config (18 ∷ 16 ∷ macro ∷ nitems ∷ rest) s ≡ none
unfolding handle_set_report1 run_command append_macro_command append_to ◌>>=◌
handle_set_report1-none macro nitems rest s h k l e =
    let t : Session = record s { last_config_command = append_macro } in
    let (usages, more, d, j, q) =
      (read_n-Gives 6 4 get_u32 get_u32-Gives).at rest (omega (arith, l)) in
    ap₂
      (λ b c.
        if b
        then if c && true
          then session_of (run_command append_macro t (macro ∷ nitems ∷ rest))
          else some (record s { last_config_command = invalid_command })
        else some s)
      {x = leb 32 (suc (suc (suc (suc (length rest)))))} {y = true} (ground (arith, l)) e
    ∙ ap session_of (
        ap
          (λ (o : Option (List ℕ × List ℕ)). elim o [
            | none ↦ none
            | some (v, r) ↦ append_to macro nitems v t r
          ])
          d
        ∙ ap (λ o. ended (with_appended o macro nitems usages t) more)
            (get_elem?-none s.config.macros macro (omega (arith, k, h.macros-length))))
