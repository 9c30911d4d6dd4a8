-- ===== src/Config/Macros.antt =====
-- The macros in the commands of config.cc: APPEND_TO_MACRO with its packets of six items, in which a 0
-- starts a new step, and GET_MACRO, which gives six items from a position on.
use usb_hid_wireless_bridge.Base.{
  ℕ, ◌+◌, ◌%◌, ◌^◌, Bool, true, false, ◌&&◌, not, List, [], ◌∷◌, ◌++◌, ltb, leb, ◌==◌, take, length,
  min, get_or, if◌then◌else◌, ◌-◌,
}

abbrev pub macro_items_in_packet : ℕ
macro_items_in_packet = 6

-- `back().push_back(usage)`
unfoldable pub push_last : List (List ℕ) → ℕ → List (List ℕ)
push_last [] usage = []
push_last (x ∷ []) usage = (x ++ (usage ∷ [])) ∷ []
push_last (x ∷ y ∷ entries) usage = x ∷ push_last (y ∷ entries) usage

unfoldable pub append_item : List (List ℕ) → ℕ → List (List ℕ)
unfolding push_last
append_item entries usage = if usage == 0 then entries ++ ([] ∷ []) else push_last entries usage

unfoldable pub append_items : List (List ℕ) → List ℕ → List (List ℕ)
unfolding append_item
append_items entries [] = entries
append_items entries (usage ∷ usages) = append_items (append_item entries usage) usages

abbrev pub not_empty : List (List ℕ) → List (List ℕ)
not_empty [] = [] ∷ []
not_empty (x ∷ entries) = x ∷ entries

-- The body of APPEND_TO_MACRO, for the macro that the packet names.
unfoldable pub append_to_macro : List (List ℕ) → ℕ → List ℕ → List (List ℕ)
unfolding append_items
append_to_macro entries nitems usages =
    append_items (not_empty entries) (take (min macro_items_in_packet nitems) usages)

-- The variables of the loop of GET_MACRO: `i` and the usages returned so far (`ret_idx` of them).
pub record Returned : Type 0 where
  pub i : ℕ
  pub usages : List ℕ

abbrev pub packet_full : Returned → Bool
packet_full r = leb macro_items_in_packet (length r.usages)

abbrev pub next_i : Returned → Returned
next_i r = record r { i = (r.i + 1) % 2 ^ 16 }

abbrev pub with_usage : ℕ → Returned → Returned
with_usage usage r = record r { usages = r.usages ++ (usage ∷ []) }

-- The inner loop over one step. On its `break` the item is not counted.
unfoldable pub return_entry : ℕ → List ℕ → Returned → Returned
return_entry index [] r = r
return_entry index (usage ∷ entry) r =
    let with_it = with_usage usage r in
    let after_it = return_entry index entry (next_i with_it) in
    let past_it = return_entry index entry (next_i r) in
    if leb index r.i then if packet_full with_it then with_it else after_it else past_it

-- What follows a step: a 0, if there is room for it.
unfoldable pub close_entry : ℕ → Returned → Returned
close_entry index r = next_i (if not (packet_full r) && leb index r.i then with_usage 0 r else r)

-- The outer loop, with `exhausted`.
unfoldable pub return_entries : ℕ → List (List ℕ) → Returned → Bool × Returned
unfolding return_entry close_entry
return_entries index [] r = (true, r)
return_entries index (entry ∷ entries) r =
    let rest = return_entries index entries (close_entry index (return_entry index entry r)) in
    if packet_full r then (false, r) else rest

abbrev pub drop_last : List ℕ → List ℕ
drop_last usages = take (length usages - 1) usages

-- `exhausted && (ret_idx > 0) && (usages[ret_idx - 1] == 0)`
abbrev pub without_last_zero : Bool → List ℕ → List ℕ
without_last_zero exhausted usages =
    if exhausted && ltb 0 (length usages) && (get_or usages (length usages - 1) 0 == 0)
    then drop_last usages
    else usages

-- The items of the answer to GET_MACRO.
unfoldable pub get_macro : List (List ℕ) → ℕ → List ℕ
unfolding return_entries
get_macro entries index =
    let (exhausted, r) = return_entries index entries record { i = 0; usages = [] } in
    without_last_zero exhausted r.usages
