-- ===== src/Ring/Last.antt =====
-- The last item of a circular buffer, and a write to it.
use native.Mathlib.Nat.{mod-add-mod, add-mod_right}
use usb_hid_wireless_bridge.Base.{
  ℕ, suc, ◌+◌, ◌-◌, ◌%◌, ◌<◌, ◌≡◌, ap, ap₂, ◌∙◌, sym, List, [], ◌∷◌, ◌++◌, update, arith,
}
use usb_hid_wireless_bridge.Ring.{Ring, last_place, change_last, window, contents, IsRing}
use usb_hid_wireless_bridge.Ring.Queue.{update_there, window-update, window_snoc}

module _ {ℓ} {A : Type ℓ} (size : ℕ) where
  -- All items but the last.
  abbrev pub earlier : Ring A → List A
  earlier r = window size r.cells r.head (r.items - 1)

  last_place_lem :
      (r : Ring A)
      → IsRing size r
      → 0 < r.items
      → last_place size r ≡ (r.head + (r.items - 1)) % size
  last_place_lem r v h =
      ap (λ (t : ℕ). (t + size - 1) % size) v.tail_at
      ∙ ap (λ (t : ℕ). t % size) (omega (arith, v.head_in))
      ∙ mod-add-mod (r.head + r.items) size (size - 1)
      ∙ ap (λ (t : ℕ). t % size) (omega (arith, v.head_in))
      ∙ add-mod_right (r.head + (r.items - 1)) size

  pub contents_last :
      (r : Ring A)
      → IsRing size r
      → 0 < r.items
      → contents size r ≡ earlier r ++ (r.cells (last_place size r) ∷ [])
  contents_last r v h =
      ap (window size r.cells r.head) {y = suc (r.items - 1)} (omega arith)
      ∙ window_snoc size r.cells (r.items - 1) r.head v.head_in
      ∙ ap (λ (t : ℕ). earlier r ++ (r.cells t ∷ [])) (sym (last_place_lem r v h))

  pub contents-change_last :
      (x : A) (r : Ring A)
      → IsRing size r
      → 0 < r.items
      → contents size (change_last size x r) ≡ earlier r ++ (x ∷ [])
  unfolding change_last
  contents-change_last x r v h =
      let cells = update r.cells (last_place size r) x in
      ap (window size cells r.head) {y = suc (r.items - 1)} (omega arith)
      ∙ window_snoc size cells (r.items - 1) r.head v.head_in
      ∙ ap₂ (λ l y. l ++ (y ∷ []))
          (window-update size r.cells x (r.items - 1) r.head (r.items - 1) (last_place size r)
            v.head_in (omega arith) (omega (arith, v.items_in)) (last_place_lem r v h))
          (ap cells (sym (last_place_lem r v h)) ∙ update_there r.cells x (last_place size r))

  pub change_last-IsRing : (x : A) (r : Ring A) → IsRing size r → IsRing size (change_last size x r)
  unfolding change_last
  change_last-IsRing x r v = record {
    head_in = v.head_in;
    items_in = v.items_in;
    tail_at = v.tail_at;
  }
