-- ===== src/Config/Exprs.antt =====
-- The expressions in the commands of config.cc: APPEND_TO_EXPRESSION, with 24 bytes of elements in a
-- packet, and GET_EXPRESSION, with 27 bytes in an answer.
use usb_hid_wireless_bridge.Base.{
  ℕ, zero, suc, ◌+◌, ◌-◌, Bool, true, List, [], ◌∷◌, ◌++◌, none, some, ltb, leb, length,
  if◌then◌else◌,
}
use usb_hid_wireless_bridge.Packed.{u8_bytes, u32_bytes, get_u32}
use usb_hid_wireless_bridge.Config.{ConfigElem, has_val}

-- The loop of APPEND_TO_EXPRESSION; `bytes` is `elem_data`, of 24 bytes in
-- `append_expression_command`, from `ptr` on. It ends early where the
-- bytes end, and where a value would reach past their end.
unfoldable pub append_elems : ℕ → List ℕ → List ConfigElem → List ConfigElem
append_elems zero bytes elems = elems
append_elems (suc n) [] elems = elems
append_elems (suc n) (op ∷ bytes) elems =
    let plain = append_elems n bytes (elems ++ (record { op = op; val = 0 } ∷ [])) in
    if has_val op
    then elim (get_u32 bytes) [
      | none ↦ elems
      | some (val, rest) ↦ append_elems n rest (elems ++ (record { op = op; val = val } ∷ []))
    ]
    else plain

abbrev pub elem_data_size : ℕ
elem_data_size = 27

-- One element of the answer, if it fits: the bytes written and the count.
abbrev pub elem_fits : ConfigElem → List ℕ → Bool
elem_fits e written = if has_val e.op then leb (length written) (elem_data_size - 5) else true

unfoldable pub written_elem : ConfigElem → List ℕ → List ℕ
written_elem e written =
    if has_val e.op then written ++ (u8_bytes e.op ++ u32_bytes e.val) else written ++ u8_bytes e.op

-- The loop of GET_EXPRESSION: `i`, the bytes written up to `ptr`, and `nelems`.
unfoldable pub return_elems : ℕ → List ConfigElem → ℕ → List ℕ → ℕ → ℕ × List ℕ
unfolding written_elem
return_elems index [] i written nelems = (nelems, written)
return_elems index (e ∷ elems) i written nelems =
    let more = written_elem e written in
    let after_it = return_elems index elems (i + 1) more (nelems + 1) in
    let past_it = return_elems index elems (i + 1) written nelems in
    if leb index i
    then if elem_fits e written
      then if ltb (elem_data_size - 1) (length more) then (nelems + 1, more) else after_it
      else (nelems, written)
    else if ltb (elem_data_size - 1) (length written)
    then (nelems, written)
    else past_it

unfoldable pub get_expression : List ConfigElem → ℕ → ℕ × List ℕ
unfolding return_elems
get_expression elems index = return_elems index elems 0 [] 0
