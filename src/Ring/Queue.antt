-- ===== src/Ring/Queue.antt =====
-- The queue that a circular buffer of the firmware stands for.
use native.Mathlib.Nat.{mod-add-mod, mod-eq_of_lt, mod-eq-sub-mod, mod-lt}
use native.Mathlib.Decide.{dec_lt}
use usb_hid_wireless_bridge.Base.{
  ℕ, zero, suc, ◌+◌, ◌-◌, ◌%◌, ◌≤◌, ◌<◌, ◌≡◌, refl, ap, ap₂, ◌∙◌, sym, ◌≢◌, List, [], ◌∷◌, ◌++◌,
  length, append-nil, append_assoc, update, arith,
}
use usb_hid_wireless_bridge.Ring.{Ring, put, drop_first, first, window, contents, IsRing}

-- Going round: a step of `(a + b) % size` in two.
two_steps : (size h d : ℕ) → ((h + 1) % size + d) % size ≡ (h + suc d) % size
two_steps size h d = mod-add-mod (h + 1) size d ∙ ap (λ k. k % size) (omega arith)

-- A position less than a whole turn ahead is another cell.
apart : (size h d : ℕ) → h < size → suc d < size → h ≢ (h + suc d) % size
apart size h d hh hd = elim (dec_lt (h + suc d) size) [
  | yes p ↦ λ e. omega (arith, mod-eq_of_lt p)
  | no p ↦ λ e. omega (
    arith,
    mod-eq-sub-mod {n = h + suc d} {m = size} (omega arith),
    mod-eq_of_lt {n = h + suc d - size} {m = size} (omega arith),
  )
]

next_in : (size h : ℕ) → h < size → (h + 1) % size < size
next_in size h p = mod-lt (h + 1) (omega arith)

module _ {ℓ} {A : Type ℓ} where
  update_away : (cells : ℕ → A) (x : A) (i j : ℕ) → i ≢ j → update cells j x i ≡ cells i
  update_away cells x i j h = ground arith

  pub update_there : (cells : ℕ → A) (x : A) (i : ℕ) → update cells i x i ≡ x
  update_there cells x i = ground arith

  -- A write outside a window is not seen in it.
  pub window-update :
      (size : ℕ) (cells : ℕ → A) (x : A) (n h d j : ℕ)
      → h < size
      → n ≤ d
      → d < size
      → j ≡ (h + d) % size
      → window size (update cells j x) h n ≡ window size cells h n
  window-update size cells x zero h d j p q r e = refl
  window-update size cells x (suc n) h zero j p q r e = absurd (omega arith)
  window-update size cells x (suc n) h (suc d) j p q r e =
      ap₂ ◌∷◌ (update_away cells x h j (λ g. apart size h d p r (g ∙ e))) (
        window-update size cells x n ((h + 1) % size) d j (next_in size h p) (omega arith)
          (omega arith) (e ∙ sym (two_steps size h d)))

  pub window_snoc :
      (size : ℕ) (cells : ℕ → A) (n h : ℕ)
      → h < size
      → window size cells h (suc n) ≡ window size cells h n ++ (cells ((h + n) % size) ∷ [])
  window_snoc size cells zero h p =
      ap (λ k. cells k ∷ []) (sym (mod-eq_of_lt p) ∙ ap (λ k. k % size) (omega arith))
  window_snoc size cells (suc n) h p =
      ap (λ l. cells h ∷ l)
        (window_snoc size cells n ((h + 1) % size) (next_in size h p)
          ∙ ap (λ k. window size cells ((h + 1) % size) n ++ (cells k ∷ [])) (two_steps size h n))

  -- With room left, an item put into the buffer is the last one.
  pub contents-put :
      (size : ℕ) (x : A) (r : Ring A)
      → IsRing size r
      → r.items < size
      → contents size (put size x r) ≡ contents size r ++ (x ∷ [])
  unfolding put
  contents-put size x r v h =
      ap (window size (update r.cells r.tail x) r.head) {y = suc r.items} (omega arith)
      ∙ window_snoc size (update r.cells r.tail x) r.items r.head v.head_in
      ∙ ap₂ (λ l y. l ++ (y ∷ []))
          (window-update size r.cells x r.items r.head r.items r.tail v.head_in (omega arith) h
            v.tail_at)
          (ap (update r.cells r.tail x) (sym v.tail_at) ∙ update_there r.cells x r.tail)

  pub put-IsRing :
      (size : ℕ) (x : A) (r : Ring A) → IsRing size r → r.items < size → IsRing size (put size x r)
  unfolding put
  put-IsRing size x r v h = record {
    head_in = v.head_in;
    items_in = omega arith;
    tail_at =
        ap (λ t. (t + 1) % size) v.tail_at
        ∙ mod-add-mod (r.head + r.items) size 1
        ∙ ap (λ k. k % size) (omega arith);
  }

  -- The first item is at the head, and dropping it leaves the others.
  pub contents-drop_first :
      (size : ℕ) (r : Ring A)
      → 0 < r.items
      → contents size r ≡ first r ∷ contents size (drop_first size r)
  unfolding drop_first
  contents-drop_first size r h =
      ap (window size r.cells r.head) {y = suc (r.items - 1)} (omega arith)

  pub drop_first-IsRing :
      (size : ℕ) (r : Ring A) → IsRing size r → 0 < r.items → IsRing size (drop_first size r)
  unfolding drop_first
  drop_first-IsRing size r v h = record {
    head_in = next_in size r.head v.head_in;
    items_in = omega (arith, v.items_in);
    tail_at =
        v.tail_at
        ∙ ap (λ k. (r.head + k) % size) (omega arith)
        ∙ sym (two_steps size r.head (r.items - 1));
  }

  pub length-contents : (size : ℕ) (r : Ring A) → length (contents size r) ≡ r.items
  length-contents size r = length_window r.items r.head
    where
      length_window : (n h : ℕ) → length (window size r.cells h n) ≡ n
      length_window zero h = refl
      length_window (suc n) h = ap suc (length_window n ((h + 1) % size))

-- From `r` to `t` the items `ins` have been put in and the items `outs` have come out, none lost and
-- none out of turn.
pub record Moves {ℓ} {A : Type ℓ} (size : ℕ) (r : Ring A) (ins outs : List A) (t : Ring A)
    : Type ℓ where
  pub is_ring : IsRing size t
  pub in_order : contents size r ++ ins ≡ outs ++ contents size t

module _ {ℓ} {A : Type ℓ} (size : ℕ) where
  pub Moves-none : (r : Ring A) → IsRing size r → Moves size r [] [] r
  Moves-none r v = record { is_ring = v; in_order = append-nil (contents size r) }

  pub Moves-put :
      (x : A) (r : Ring A)
      → IsRing size r
      → r.items < size
      → Moves size r (x ∷ []) [] (put size x r)
  Moves-put x r v h = record {
    is_ring = put-IsRing size x r v h;
    in_order = sym (contents-put size x r v h);
  }

  pub Moves-drop :
      (r : Ring A)
      → IsRing size r
      → 0 < r.items
      → Moves size r [] (first r ∷ []) (drop_first size r)
  Moves-drop r v h = record {
    is_ring = drop_first-IsRing size r v h;
    in_order = append-nil (contents size r) ∙ contents-drop_first size r h;
  }

  pub Moves-then :
      {r s t : Ring A} (i j o p : List A)
      → Moves size r i o s
      → Moves size s j p t
      → Moves size r (i ++ j) (o ++ p) t
  Moves-then {r} {s} {t} i j o p m n = record {
    is_ring = n.is_ring;
    in_order =
        sym (append_assoc (contents size r) i j)
        ∙ ap (λ l. l ++ j) m.in_order
        ∙ append_assoc o (contents size s) j
        ∙ ap (λ l. o ++ l) n.in_order
        ∙ sym (append_assoc o p (contents size t));
  }
