-- ===== src/Expr/Sound.antt =====
-- What `is_expr_valid` says of a whole run of `eval_expr`.
use usb_hid_wireless_bridge.Base.{
  update, ℕ, ◌-◌, ◌≤◌, ◌≡◌, refl, Bool, true, not, ◌||◌, List, [], ◌∷◌, arith, leb, ltb, Bool-cases,
  inl, inr, none, sym, subst,
}
use usb_hid_wireless_bridge.Base.Int.{ℤ, pos}
use usb_hid_wireless_bridge.Expr.{Op, Elem, stack_size, is_expr_valid, validate_expressions}
use usb_hid_wireless_bridge.Expr.Eval.{
  nexpressions, nullary, binary, result_of, run_expr, eval_expr,
}
use usb_hid_wireless_bridge.Expr.Machine.{
  stack_range, mod_by_zero, unknown_op, Outcome, ok, fault, ◌>>=◌, Stack, peek, push_value, World,
  Fpu,
}
use usb_hid_wireless_bridge.Expr.Ops.{mod_value}
use usb_hid_wireless_bridge.Expr.Safe.{HasModulo, SameCode, EndsAll, eval_elems-EndsAll}

-- The run gives a value and changes nothing of the code but pointer caches, or it stops at a
-- remainder by 0, which the code must then contain; it never leaves the stack.
abbrev pub Completes : List Elem → Outcome (ℤ × List Elem × World) → Type 0
Completes es (ok (v, fs, w)) = SameCode es fs
Completes es (fault mod_by_zero) = HasModulo es
Completes es (fault stack_range) = ⊥
Completes es (fault unknown_op) = ⊥

module _ (fpu : Fpu) (now : ℕ) (repeating : Bool) where
  result_of-ok :
      (s : Stack) → s.depth ≤ stack_size → (v : ℤ) × (result_of fpu now repeating s ≡ ok v)
  unfolding result_of peek
  result_of-ok s h = elim (Bool-cases (ltb 0 s.depth)) [
    | inl e ↦ (s.cells (s.depth - 0 - 1), ground arith)
    | inr e ↦ (pos 0, ground arith)
  ]

  Completes-of :
      (es : List Elem) (r : Outcome (List Elem × Stack × World))
      → EndsAll es r
      → Completes es (do (fs, t, u) ← r; v ← result_of fpu now repeating t; ok (v, fs, u))
  Completes-of es (ok (fs, t, u)) h = let (v, e) = result_of-ok t h.0 in rw e (h.1)
  Completes-of es (fault mod_by_zero) h = h
  Completes-of es (fault stack_range) h = h
  Completes-of es (fault unknown_op) h = h

  -- A valid expression completes, from any cells and any globals: it never reads or writes outside
  -- the sixteen cells of the stack, and fails only at a remainder by 0.
  pub run_expr-Completes :
      (es : List Elem) (cells : ℕ → ℤ) (w : World)
      → is_expr_valid es ≡ true
      → Completes es (run_expr fpu now repeating es cells w)
  unfolding run_expr is_expr_valid
  run_expr-Completes es cells w h =
      Completes-of es _ (eval_elems-EndsAll fpu now repeating es _ w (omega arith) h)

  value_of :
      (es : List Elem) (r : Outcome (ℤ × List Elem × World))
      → Completes es r
      → (HasModulo es → ⊥)
      → (v : ℤ) × (fs : List Elem) × (u : World) × (r ≡ ok (v, fs, u)) × SameCode es fs
  value_of es (ok (v, fs, u)) h n = (v, fs, u, refl, h)
  value_of es (fault mod_by_zero) h n = absurd (n h)
  value_of es (fault stack_range) h n = absurd h
  value_of es (fault unknown_op) h n = absurd h

  SameCode-refl : (es : List Elem) → SameCode es es
  SameCode-refl [] = tt
  SameCode-refl (e ∷ es) = (refl, refl, SameCode-refl es)

  update_here : (f : ℕ → List Elem) (i : ℕ) (fs : List Elem) → update f i fs i ≡ fs
  update_here f i fs = ground arith

  -- Evaluating expression `expr`, with `expression_valid[]` as `validate_expressions` sets it, always
  -- returns a value if that expression has no MOD, be the number in range and the expression valid or
  -- not; the element lists keep their ops and values.
  pub eval_expr_returns :
      (expr : ℕ) (expressions : ℕ → List Elem) (cells : ℕ → ℤ) (w : World)
      → (HasModulo (expressions expr) → ⊥)
      → (v : ℤ) × (after : ℕ → List Elem) × (u : World) × (eval_expr fpu now repeating expr
            (validate_expressions expressions)
            expressions
            cells
            w
          ≡ ok (v, after, u))
        × SameCode (expressions expr) (after expr)
  unfolding eval_expr
  eval_expr_returns expr expressions cells w n =
      elim (Bool-cases (leb nexpressions expr || not (is_expr_valid (expressions expr)))) [
        | inl off ↦ (pos 0, expressions, w, rw off, SameCode-refl (expressions expr))
        | inr on ↦
            let (v, fs, u, e, same) =
              value_of (expressions expr) (run_expr fpu now repeating (expressions expr) cells w)
                (run_expr-Completes (expressions expr) cells w (ground arith)) n in
            (
              v,
              update expressions expr fs,
              u,
              rw (on, e),
              subst (SameCode (expressions expr)) (sym (update_here expressions expr fs)) same,
            )
      ]

-- PUSH v, PUSH 0, MOD
abbrev pub remainder_code : ℕ → List Elem
remainder_code v =
    record { op = Op.push; val = v; cached = none }
    ∷ record { op = Op.push; val = 0; cached = none }
    ∷ record { op = Op.modulo; val = 0; cached = none }
    ∷ []

-- MOD is not guarded as DIV is: for every dividend, PUSH v, PUSH 0, MOD passes `is_expr_valid` and
-- then computes a remainder by 0, whatever the stack held and whatever the globals are.
pub mod_by_zero_passes :
    (fpu : Fpu) (now : ℕ) (repeating : Bool) (v : ℕ) (cells : ℕ → ℤ) (w : World)
    → (is_expr_valid (remainder_code v) ≡ true)
      × (run_expr fpu now repeating (remainder_code v) cells w ≡ fault mod_by_zero)
unfolding is_expr_valid run_expr nullary binary peek push_value mod_value
mod_by_zero_passes fpu now repeating v cells w = (refl, refl)
