-- ===== src/Descriptor.antt =====
-- The parser of HID report descriptors, descriptor_parser.cc: its state, `mark_usage`, and the loops
-- that mark the usages of an item. The Main items are in Descriptor.Main, and the walk over the items
-- is in Descriptor.Walk.
use usb_hid_wireless_bridge.Base.{
  ℕ, zero, suc, ◌+◌, ◌-◌, ◌*◌, ◌/◌, ◌%◌, ◌^◌, min, Bool, true, false, ◌&&◌, ◌||◌, not, List, [],
  ◌∷◌, ◌++◌, Option, none, some, ltb, leb, ◌==◌, if◌then◌else◌,
}
use usb_hid_wireless_bridge.Base.Int.{ℤ, pos, ◌+ℤ◌, ◌-ℤ◌, eq_ℤ, uint32, pos_part}
use usb_hid_wireless_bridge.Usages.{UsageDef}
pub mod Main
pub mod Walk
pub mod Positions
pub mod Maximum
pub mod Found
pub mod Marks
pub mod Tests

pub data ReportType : Type 0 where
  input : ReportType
  output : ReportType
  feature : ReportType

abbrev pub same_type : ReportType → ReportType → Bool
same_type input input = true
same_type input output = false
same_type input feature = false
same_type output input = false
same_type output output = true
same_type output feature = false
same_type feature input = false
same_type feature output = false
same_type feature feature = true

-- An entry of one of the three usage maps.
pub record Entry : Type 0 where
  pub report_type : ReportType
  pub usage : ℕ
  pub usage_def : UsageDef

abbrev pub is_entry : ReportType → ℕ → ℕ → Entry → Bool
is_entry report_type report_id usage e =
    same_type e.report_type report_type
    && ((e.usage_def.report_id == report_id) && (e.usage == usage))

unfoldable pub find_usage : ReportType → ℕ → ℕ → List Entry → Option UsageDef
find_usage report_type report_id usage [] = none
find_usage report_type report_id usage (e ∷ es) =
    if is_entry report_type report_id usage e
    then some e.usage_def
    else find_usage report_type report_id usage es

-- The variables of `parse_descriptor`. `bitpos` gives 0 where the map has no entry yet.
pub record Parser : Type 0 where
  pub report_id : ℕ
  pub bitpos : ReportType → ℕ → ℕ
  pub report_size : ℕ
  pub report_count : ℕ
  pub usage_page : ℕ
  pub usages : List ℕ
  pub usage_minimum : ℕ
  pub usage_maximum : ℕ
  pub has_usage_minimum : Bool
  pub has_usage_maximum : Bool
  pub logical_minimum : ℤ
  pub logical_maximum : ℤ
  pub unsigned_logical_maximum : ℤ
  pub has_report_id : Bool
  pub usage_map : List Entry

-- Reports of more than 64 bytes are not handled.
abbrev pub bit_limit : ℕ → ℕ
bit_limit report_id = 8 * (if report_id == 0 then 64 else 63)

-- `try_emplace` keeps an entry that is there.
abbrev pub keep_or_add : ReportType → ℕ → UsageDef → List Entry → Option UsageDef → List Entry
keep_or_add report_type usage d es (some old) = es
keep_or_add report_type usage d es none =
    es ++ (record { report_type = report_type; usage = usage; usage_def = d } ∷ [])

unfoldable pub mark_usage : ReportType → ℕ → UsageDef → List Entry → List Entry
mark_usage report_type usage d es =
    if leb (bit_limit d.report_id) d.bitpos
    then es
    else keep_or_add report_type usage d es (find_usage report_type d.report_id usage es)

-- `bitpos[report_type][report_id] += bits`, as a uint16_t.
unfoldable pub advance : ReportType → ℕ → Parser → Parser
advance report_type bits s = record s {
  bitpos = λ t id.
      if same_type t report_type && (id == s.report_id)
      then (s.bitpos t id + bits) % 2 ^ 16
      else s.bitpos t id;
}

module _ (report_type : ReportType) (relative : Bool) where
  abbrev pub position : Parser → ℕ
  position s = s.bitpos report_type s.report_id

  -- A field at the present position, as `mark_usage` gets it for a scalar.
  abbrev pub scalar_def : Parser → UsageDef
  scalar_def s = record {
    report_id = s.report_id;
    size = s.report_size % 2 ^ 8;
    bitpos = position s;
    is_relative = relative;
    is_array = false;
    logical_minimum = s.logical_minimum;
    logical_maximum = s.logical_maximum;
    index = 0;
    count = 0;
    usage_maximum = 0;
    index_mask = 0;
  }

  -- One round of either loop over scalars.
  unfoldable pub mark_scalar : ℕ → Parser → Parser
  mark_scalar usage s =
      advance report_type s.report_size
        record s { usage_map = mark_usage report_type usage (scalar_def s) s.usage_map }

  -- `n` rounds from a usage on: the last usage of the range is used again when it is short.
  unfoldable pub mark_range : ℕ → ℕ → Parser → Parser
  mark_range zero usage s = s
  mark_range (suc n) usage s =
      mark_range n (if ltb usage s.usage_maximum then usage + 1 else usage) (mark_scalar usage s)

  -- `usages.front()` and `usages.pop_front()`, unless there is none left.
  abbrev pub next_usage : ℕ → List ℕ → ℕ
  next_usage usage [] = usage
  next_usage usage (u ∷ us) = u

  abbrev pub other_usages : List ℕ → List ℕ
  other_usages [] = []
  other_usages (u ∷ us) = us

  unfoldable pub mark_list : ℕ → ℕ → Parser → Parser
  mark_list zero usage s = s
  mark_list (suc n) usage s =
      let u = next_usage usage s.usages in
      mark_list n u (mark_scalar u record s { usages = other_usages s.usages })

  abbrev pub array_def : ℕ → ℕ → Parser → UsageDef
  array_def index usage_maximum s = record (scalar_def s) {
    is_array = true;
    logical_maximum = s.unsigned_logical_maximum;
    index = index;
    count = s.report_count;
    usage_maximum = usage_maximum;
  }

  -- The loop over the values of an array, `n` of them, from `index` on; Descriptor.Main says when the
  -- `int` of the code makes it endless instead (`never_ends`).
  unfoldable pub mark_array : ℕ → ℤ → ℕ → Parser → Parser
  mark_array zero index usage s = s
  mark_array (suc n) index usage s =
      let u = next_usage usage s.usages in
      mark_array n (index +ℤ pos 1) u record s {
        usages = other_usages s.usages;
        usage_map = mark_usage report_type u (array_def (uint32 index) 0 s) s.usage_map;
      }
