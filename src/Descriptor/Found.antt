-- ===== src/Descriptor/Found.antt =====
-- Looking a usage up in the usage maps after `mark_usage`.
use usb_hid_wireless_bridge.Base.{
  ℕ, Bool, true, false, ◌&&◌, List, [], ◌∷◌, ◌++◌, Option, none, some, leb, ◌==◌, ◌≡◌, refl, ap,
  ◌∙◌, if◌then◌else◌, arith,
}
use usb_hid_wireless_bridge.Usages.{UsageDef}
use usb_hid_wireless_bridge.Descriptor.{
  ReportType, input, output, feature, same_type, Entry, is_entry, find_usage, bit_limit,
  keep_or_add, mark_usage,
}

pub same_type_refl : (t : ReportType) → same_type t t ≡ true
same_type_refl input = refl
same_type_refl output = refl
same_type_refl feature = refl

abbrev pub or_else : Option UsageDef → Option UsageDef → Option UsageDef
or_else (some d) o = some d
or_else none o = o

find_usage-append :
    (t : ReportType) (id v : ℕ) (es : List Entry) (e : Entry)
    → find_usage t id v (es ++ (e ∷ []))
      ≡ or_else (find_usage t id v es) (if is_entry t id v e then some e.usage_def else none)
unfolding find_usage
find_usage-append t id v [] e = refl
find_usage-append t id v (x ∷ es) e = by_case (is_entry t id v x) (find_usage-append t id v es e)
  where
    last : Option UsageDef
    last = if is_entry t id v e then some e.usage_def else none

    by_case :
        (b : Bool)
        → find_usage t id v (es ++ (e ∷ [])) ≡ or_else (find_usage t id v es) last
        → (if b then some x.usage_def else find_usage t id v (es ++ (e ∷ [])))
          ≡ or_else (if b then some x.usage_def else find_usage t id v es) last
    by_case true ih = refl
    by_case false ih = ih

module _ (t : ReportType) (u : ℕ) (d : UsageDef) (es : List Entry) where
  -- What `mark_usage` makes of the map, for any usage that is looked up.
  abbrev pub marked : Bool → Option UsageDef → ℕ → Option UsageDef
  marked beyond old v =
      if beyond
      then find_usage t d.report_id v es
      else if v == u
      then or_else old (some d)
      else find_usage t d.report_id v es

  pub find_usage-mark_usage :
      (v : ℕ)
      → find_usage t d.report_id v (mark_usage t u d es)
        ≡ marked (leb (bit_limit d.report_id) d.bitpos) (find_usage t d.report_id u es) v
  unfolding mark_usage
  find_usage-mark_usage v =
      by_case (leb (bit_limit d.report_id) d.bitpos) (find_usage t d.report_id u es) refl
    where
      at_usage :
          (o : Option UsageDef)
          → find_usage t d.report_id u es ≡ o
          → v ≡ u
          → find_usage t d.report_id v es ≡ o
      at_usage o e q = ap (λ (w : ℕ). find_usage t d.report_id w es) q ∙ e

      added :
          find_usage t d.report_id u es ≡ none
          → or_else
              (find_usage t d.report_id v es)
              (if same_type t t && ((d.report_id == d.report_id) && (u == v)) then some d else none)
            ≡ marked false none v
      added e = ground (arith, at_usage none e, same_type_refl t)

      by_case :
          (b : Bool) (o : Option UsageDef)
          → find_usage t d.report_id u es ≡ o
          → find_usage t d.report_id v (if b then es else keep_or_add t u d es o) ≡ marked b o v
      by_case true o e = refl
      by_case false (some old) e = ground (arith, at_usage (some old) e)
      by_case false none e =
          find_usage-append t d.report_id v es record { report_type = t; usage = u; usage_def = d }
          ∙ added e
