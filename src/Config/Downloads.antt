-- ===== src/Config/Downloads.antt =====
-- The answer to GET_EXPRESSION, against the expression.
use usb_hid_wireless_bridge.Base.{
  ℕ, zero, suc, ◌+◌, ◌-◌, ◌≤◌, ◌<◌, ◌≡◌, ◌⊎◌, inl, inr, refl, ap, sym, ◌∙◌, Bool, true, false, List,
  [], ◌∷◌, ◌++◌, append_assoc, append-nil, length, length-append, take, drop, ltb, ltb→lt, leb,
  subst, arith, if◌then◌else◌,
}
use usb_hid_wireless_bridge.Packed.{write_each, u8_bytes, u32_bytes}
use usb_hid_wireless_bridge.Config.{ConfigElem, has_val}
use usb_hid_wireless_bridge.Config.Persist.{elem_bytes}
use usb_hid_wireless_bridge.Config.Exprs.{
  elem_data_size, elem_fits, written_elem, return_elems, get_expression,
}

written_elem_lem :
    (e : ConfigElem) (written : List ℕ) → written_elem e written ≡ written ++ elem_bytes e
unfolding written_elem elem_bytes
written_elem_lem e written = by_case (has_val e.op)
  where
    by_case :
        (b : Bool)
        → (if b then written ++ (u8_bytes e.op ++ u32_bytes e.val) else written ++ u8_bytes e.op)
          ≡ written ++ (u8_bytes e.op ++ (if b then u32_bytes e.val else []))
    by_case true = refl
    by_case false = refl

length-elem_bytes : (e : ConfigElem) → length (elem_bytes e) ≡ (if has_val e.op then 5 else 1)
unfolding elem_bytes
length-elem_bytes e = ground arith

-- The answer so far has `m` more elements, whole, in at most 27 bytes, and it is complete: there are
-- no more elements, or fewer than 5 bytes are left.
pub record IsFilled (elems : List ConfigElem) (nelems : ℕ) (written : List ℕ) (r : ℕ × List ℕ)
    : Type 0 where
  pub more : ℕ
  pub count_lem : r.0 ≡ nelems + more
  pub bytes_lem : r.1 ≡ written ++ write_each elem_bytes (take more elems)
  pub more_le : more ≤ length elems
  pub size_le : length r.1 ≤ elem_data_size
  pub complete : (more ≡ length elems) ⊎ (elem_data_size < length r.1 + 5)

stops :
    (elems : List ConfigElem) (nelems : ℕ) (written : List ℕ)
    → length written ≤ elem_data_size
    → elem_data_size < length written + 5
    → IsFilled elems nelems written (nelems, written)
unfolding write_each
stops elems nelems written k h = record {
  more = 0;
  count_lem = omega arith;
  bytes_lem = sym (append-nil written);
  more_le = omega arith;
  size_le = k;
  complete = inr h;
}

with_elem :
    (e : ConfigElem) (elems : List ConfigElem) (nelems : ℕ) (written : List ℕ) (r : ℕ × List ℕ)
    → IsFilled elems (nelems + 1) (written_elem e written) r
    → IsFilled (e ∷ elems) nelems written r
unfolding write_each
with_elem e elems nelems written r h = record {
  more = suc h.more;
  count_lem = omega (arith, h.count_lem);
  bytes_lem =
      h.bytes_lem
      ∙ ap (λ l. l ++ write_each elem_bytes (take h.more elems)) (written_elem_lem e written)
      ∙ append_assoc written (elem_bytes e) (write_each elem_bytes (take h.more elems));
  more_le = omega (arith, h.more_le);
  size_le = h.size_le;
  complete = elim h.complete [ inl p ↦ inl (ap suc p) | inr p ↦ inr p ];
}

length-written_elem :
    (e : ConfigElem) (written : List ℕ)
    → elem_fits e written ≡ true
    → length written < elem_data_size
    → (length (written_elem e written) ≤ elem_data_size)
      × (length written < length (written_elem e written))
unfolding written_elem
length-written_elem e written h k = by_case (has_val e.op) refl
  where
    by_case :
        (b : Bool)
        → has_val e.op ≡ b
        → (length (written_elem e written) ≤ elem_data_size)
          × (length written < length (written_elem e written))
    by_case true p = ground (arith, h, p, length-append written (u8_bytes e.op ++ u32_bytes e.val))
    by_case false p = ground (arith, k, p, length-append written (u8_bytes e.op))

no_room :
    (e : ConfigElem) (written : List ℕ)
    → elem_fits e written ≡ false
    → elem_data_size < length written + 5
no_room e written h = ground arith

return_elems-IsFilled :
    (index : ℕ) (elems : List ConfigElem) (i nelems : ℕ) (written : List ℕ)
    → index ≤ i
    → length written < elem_data_size
    → IsFilled elems nelems written (return_elems index elems i written nelems)
unfolding return_elems write_each
return_elems-IsFilled index [] i nelems written h k = record {
  more = 0;
  count_lem = omega arith;
  bytes_lem = sym (append-nil written);
  more_le = omega arith;
  size_le = omega (arith, k);
  complete = inl refl;
}
return_elems-IsFilled index (e ∷ elems) i nelems written h k =
    subst (λ b. IsFilled (e ∷ elems) nelems written (if b then taken else skipped)) {x = true}
      {y = leb index i} (ground arith)
      (by_case (elem_fits e written) (ltb (elem_data_size - 1) (length more)) refl refl
        (return_elems-IsFilled index elems (i + 1) (nelems + 1) more (omega arith)))
  where
    more : List ℕ
    more = written_elem e written

    after_it : ℕ × List ℕ
    after_it = return_elems index elems (i + 1) more (nelems + 1)

    taken : ℕ × List ℕ
    taken =
        if elem_fits e written
        then if ltb (elem_data_size - 1) (length more) then (nelems + 1, more) else after_it
        else (nelems, written)

    skipped : ℕ × List ℕ
    skipped =
        if ltb (elem_data_size - 1) (length written)
        then (nelems, written)
        else return_elems index elems (i + 1) written nelems

    by_case :
        (f g : Bool)
        → elem_fits e written ≡ f
        → ltb (elem_data_size - 1) (length more) ≡ g
        → (length more < elem_data_size → IsFilled elems (nelems + 1) more after_it)
        → IsFilled
            (e ∷ elems)
            nelems
            written
            (if f then if g then (nelems + 1, more) else after_it else (nelems, written))
    by_case true true p q ih =
        with_elem e elems nelems written (nelems + 1, more)
          (stops elems (nelems + 1) more (length-written_elem e written p k).0
            (omega (arith, ltb→lt (elem_data_size - 1) (length more) q)))
    by_case true false p q ih = with_elem e elems nelems written after_it (ih (ground (arith, q)))
    by_case false g p q ih =
        stops (e ∷ elems) nelems written (omega (arith, k)) (no_room e written p)

skip_elems :
    (index d : ℕ) (elems : List ConfigElem) (i : ℕ)
    → i + d ≡ index
    → return_elems index elems i [] 0 ≡ return_elems index (drop d elems) index [] 0
unfolding return_elems
skip_elems index zero elems i h =
    ap (λ (j : ℕ). return_elems index elems j [] 0) {x = i} {y = index} (omega (arith, h))
skip_elems index (suc d) [] i h = refl
skip_elems index (suc d) (e ∷ elems) i h =
    ap
      (λ (b : Bool).
        if b
        then if elem_fits e []
          then if ltb (elem_data_size - 1) (length (written_elem e []))
            then (1, written_elem e [])
            else return_elems index elems (i + 1) (written_elem e []) 1
          else (0, [])
        else return_elems index elems (i + 1) [] 0)
      {x = leb index i} {y = false} (ground (arith, h))
    ∙ skip_elems index d elems (i + 1) (omega (arith, h))

pub get_expression-IsFilled :
    (elems : List ConfigElem) (index : ℕ)
    → IsFilled (drop index elems) 0 [] (get_expression elems index)
unfolding get_expression
get_expression-IsFilled elems index =
    subst (IsFilled (drop index elems) 0 []) (sym (skip_elems index index elems 0 (omega arith)))
      (return_elems-IsFilled index (drop index elems) index 0 [] (omega arith) (omega arith))

-- The answer to GET_EXPRESSION from an element on is whole elements in at most 27 bytes: as many as it
-- counts, in order, each in the bytes that it is stored with. It has all that are left, or fewer than
-- five bytes are free.
pub get_expression-elem_bytes :
    (elems : List ConfigElem) (index : ℕ)
    → let (nelems, written) = get_expression elems index in
      (written ≡ write_each elem_bytes (take nelems (drop index elems)))
      × (nelems ≤ length (drop index elems))
      × (length written ≤ elem_data_size)
      × ((nelems ≡ length (drop index elems)) ⊎ (elem_data_size < length written + 5))
get_expression-elem_bytes elems index =
    let h = get_expression-IsFilled elems index in
    let n_lem : (get_expression elems index).0 ≡ h.more = omega (arith, h.count_lem) in
    (
      h.bytes_lem ∙ ap (λ n. write_each elem_bytes (take n (drop index elems))) (sym n_lem),
      omega (arith, n_lem, h.more_le),
      h.size_le,
      elim h.complete [ inl p ↦ inl (n_lem ∙ p) | inr p ↦ inr p ],
    )
