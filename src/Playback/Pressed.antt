-- ===== src/Playback/Pressed.antt =====
-- The items of the first entry in the queue of macros, pressed into the outputs of a frame.
use usb_hid_wireless_bridge.Base.{
  ℕ, zero, suc, ◌+◌, ◌-◌, ◌*◌, ◌/◌, ◌%◌, ◌^◌, ◌≡◌, refl, ap, ◌∙◌, Bool, true, false, ◌&&◌, List, [],
  ◌∷◌, Option, none, some, length, leb, ◌==◌, if◌then◌else◌, update,
}
use usb_hid_wireless_bridge.Base.Int.{uint32}
use usb_hid_wireless_bridge.Bits.{get_bits, put_bits}
use usb_hid_wireless_bridge.Bits.Fields.{length-put_bits}
use usb_hid_wireless_bridge.Usages.{UsageDef}

abbrev pub gpio_usage_page : ℕ
gpio_usage_page = 0xfff40000

abbrev pub dpad_usage_page : ℕ
dpad_usage_page = 0xfff90000

-- `usage_usage_def_t`, for the arrays with a range of usages.
pub record ArrayUsage : Type 0 where
  pub usage : ℕ
  pub usage_def : UsageDef

-- `gpio_out_state`, `dpad_state` and `reports`, each as its bytes.
pub record Outputs : Type 0 where
  pub gpio_out_state : List ℕ
  pub dpad_state : List ℕ
  pub reports : ℕ → List ℕ

abbrev pub page_of : ℕ → ℕ
page_of usage = usage / 2 ^ 16 * 2 ^ 16

-- The loop over the places of an array, `n` of them from place i on: the first empty one is taken.
unfoldable pub place_in_array : UsageDef → ℕ → ℕ → ℕ → List ℕ → List ℕ
place_in_array d value i zero report = report
place_in_array d value i (suc n) report =
    let bitpos = (d.bitpos + i * d.size) % 2 ^ 16 in
    let later = place_in_array d value (i + 1) n report in
    if get_bits report bitpos d.size == 0 then put_bits report bitpos d.size value else later

-- `logical_minimum + usage - array_usage.usage`
abbrev pub array_value : ArrayUsage → ℕ → ℕ
array_value a usage = (uint32 a.usage_def.logical_minimum + usage + 2 ^ 32 - a.usage) % 2 ^ 32

-- The first array whose range has the usage.
unfoldable pub find_array : ℕ → List ArrayUsage → Option ArrayUsage
find_array usage [] = none
find_array usage (a ∷ arrays) =
    let later = find_array usage arrays in
    if leb a.usage usage && leb usage a.usage_def.usage_maximum then some a else later

abbrev pub with_report_of : ℕ → (List ℕ → List ℕ) → Outputs → Outputs
with_report_of report_id f o = record o {
  reports = update o.reports report_id (f (o.reports report_id));
}

abbrev pub press_scalar : Option UsageDef → Outputs → Outputs
press_scalar none o = o
press_scalar (some d) o = with_report_of d.report_id (λ r. put_bits r d.bitpos d.size 1) o

abbrev pub press_in_report : Option ArrayUsage → Option UsageDef → ℕ → Outputs → Outputs
press_in_report none flat usage o = press_scalar flat o
press_in_report (some a) flat usage o =
    with_report_of a.usage_def.report_id
      (place_in_array a.usage_def (array_value a usage) 0 a.usage_def.count) o

module _ (arrays : List ArrayUsage) (our_usages_flat : ℕ → Option UsageDef) where
  unfoldable pub press_usage : ℕ → Outputs → Outputs
  unfolding place_in_array find_array
  press_usage usage o =
      if page_of usage == gpio_usage_page
      then record o { gpio_out_state = put_bits o.gpio_out_state (usage % 2 ^ 16) 1 1 }
      else if page_of usage == dpad_usage_page
      then record o {
        dpad_state = put_bits o.dpad_state ((usage % 2 ^ 16 + 2 ^ 16 - 1) % 2 ^ 16) 1 1;
      }
      else press_in_report (find_array usage arrays) (our_usages_flat usage) usage o

  unfoldable pub press_items : List ℕ → Outputs → Outputs
  unfolding press_usage
  press_items [] o = o
  press_items (usage ∷ items) o = press_items items (press_usage usage o)

-- An array with no empty place is left as it is.
pub place_in_full_array :
    (d : UsageDef) (value i n : ℕ) (report : List ℕ)
    → ((j : ℕ) → (get_bits report ((d.bitpos + j * d.size) % 2 ^ 16) d.size == 0) ≡ false)
    → place_in_array d value i n report ≡ report
unfolding place_in_array
place_in_full_array d value i zero report h = refl
place_in_full_array d value i (suc n) report h =
    ap
      (λ b.
        if b
        then put_bits report ((d.bitpos + i * d.size) % 2 ^ 16) d.size value
        else place_in_array d value (i + 1) n report)
      (h i)
    ∙ place_in_full_array d value (i + 1) n report h

-- A report keeps its length.
pub length-place_in_array :
    (d : UsageDef) (value i n : ℕ) (report : List ℕ)
    → length (place_in_array d value i n report) ≡ length report
unfolding place_in_array
length-place_in_array d value i zero report = refl
length-place_in_array d value i (suc n) report =
    by_case (get_bits report ((d.bitpos + i * d.size) % 2 ^ 16) d.size == 0)
      (length-place_in_array d value (i + 1) n report)
  where
    by_case :
        (b : Bool)
        → length (place_in_array d value (i + 1) n report) ≡ length report
        → length (
            if b
            then put_bits report ((d.bitpos + i * d.size) % 2 ^ 16) d.size value
            else place_in_array d value (i + 1) n report)
          ≡ length report
    by_case true h = length-put_bits report ((d.bitpos + i * d.size) % 2 ^ 16) d.size value
    by_case false h = h
