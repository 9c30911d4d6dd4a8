-- ===== src/Expr/Safe.antt =====
-- `is_expr_valid` against `eval_expr`, one operation at a time: the cells of the stack that each
-- reads and writes, and the number of values on it.
use usb_hid_wireless_bridge.Base.{
  ℕ, ◌≤◌, ◌≡◌, ◌⊎◌, refl, Bool, true, List, [], ◌∷◌, some, arith, Option-cases, inl, inr,
}
use usb_hid_wireless_bridge.Expr.{Op, Elem, stack_size, check_op, check_from}
use usb_hid_wireless_bridge.Expr.Machine.{
  stack_range, mod_by_zero, unknown_op, Outcome, ok, fault, ◌>>=◌, Stack, World, Fpu,
}
use usb_hid_wireless_bridge.Expr.Eval.{eval_op, eval_elem, eval_elems}
use usb_hid_wireless_bridge.Expr.Shapes.{
  Ends, after_nullary, after_unary, after_pure_binary, after_modulo, after_ternary,
  after_quaternary, after_consume_one, after_consume_two, after_zone_one, after_zone_two,
  duplicate-Ends, exchange-Ends,
}

abbrev pub IsModulo : Op → Type 0
IsModulo Op.modulo = Unit
IsModulo _ = ⊥

-- One op: if `is_expr_valid` lets it pass at this depth, then it ends with the depth that was
-- checked.
module _ (fpu : Fpu) (now : ℕ) (repeating : Bool) where
  eval_op-Ends :
      (op : Op) (v : ℕ) (s : Stack) (w : World) (d : ℕ)
      → s.depth ≤ stack_size
      → check_op op s.depth ≡ some d
      → Ends (IsModulo op) d (eval_op fpu now repeating op v s w)
  unfolding eval_op check_op
  eval_op-Ends Op.push v s w d f h = after_nullary ⊥ s w f d _ h
  eval_op-Ends Op.push_usage v s w d f h = after_nullary ⊥ s w f d _ h
  eval_op-Ends Op.time v s w d f h = after_nullary ⊥ s w f d _ h
  eval_op-Ends Op.auto_repeat v s w d f h = after_nullary ⊥ s w f d _ h
  eval_op-Ends Op.scaling v s w d f h = after_nullary ⊥ s w f d _ h
  eval_op-Ends Op.layer_state v s w d f h = after_nullary ⊥ s w f d _ h
  eval_op-Ends Op.time_sec v s w d f h = after_nullary ⊥ s w f d _ h
  eval_op-Ends Op.plugged_in v s w d f h = after_nullary ⊥ s w f d _ h
  eval_op-Ends Op.not v s w d f h = after_unary ⊥ s w f d _ h
  eval_op-Ends Op.input_state v s w d f h = after_unary ⊥ s w f d _ h
  eval_op-Ends Op.input_state_binary v s w d f h = after_unary ⊥ s w f d _ h
  eval_op-Ends Op.abs v s w d f h = after_unary ⊥ s w f d _ h
  eval_op-Ends Op.sin v s w d f h = after_unary ⊥ s w f d _ h
  eval_op-Ends Op.cos v s w d f h = after_unary ⊥ s w f d _ h
  eval_op-Ends Op.relu v s w d f h = after_unary ⊥ s w f d _ h
  eval_op-Ends Op.sticky_state v s w d f h = after_unary ⊥ s w f d _ h
  eval_op-Ends Op.tap_state v s w d f h = after_unary ⊥ s w f d _ h
  eval_op-Ends Op.hold_state v s w d f h = after_unary ⊥ s w f d _ h
  eval_op-Ends Op.bitwise_not v s w d f h = after_unary ⊥ s w f d _ h
  eval_op-Ends Op.prev_input_state v s w d f h = after_unary ⊥ s w f d _ h
  eval_op-Ends Op.prev_input_state_binary v s w d f h = after_unary ⊥ s w f d _ h
  eval_op-Ends Op.recall v s w d f h = after_unary ⊥ s w f d _ h
  eval_op-Ends Op.sqrt v s w d f h = after_unary ⊥ s w f d _ h
  eval_op-Ends Op.round v s w d f h = after_unary ⊥ s w f d _ h
  eval_op-Ends Op.input_state_fp32 v s w d f h = after_unary ⊥ s w f d _ h
  eval_op-Ends Op.prev_input_state_fp32 v s w d f h = after_unary ⊥ s w f d _ h
  eval_op-Ends Op.input_state_scaled v s w d f h = after_unary ⊥ s w f d _ h
  eval_op-Ends Op.prev_input_state_scaled v s w d f h = after_unary ⊥ s w f d _ h
  eval_op-Ends Op.sign v s w d f h = after_unary ⊥ s w f d _ h
  eval_op-Ends Op.add v s w d f h = after_pure_binary ⊥ s w f d _ h
  eval_op-Ends Op.mul v s w d f h = after_pure_binary ⊥ s w f d _ h
  eval_op-Ends Op.eq v s w d f h = after_pure_binary ⊥ s w f d _ h
  eval_op-Ends Op.gt v s w d f h = after_pure_binary ⊥ s w f d _ h
  eval_op-Ends Op.bitwise_or v s w d f h = after_pure_binary ⊥ s w f d _ h
  eval_op-Ends Op.bitwise_and v s w d f h = after_pure_binary ⊥ s w f d _ h
  eval_op-Ends Op.atan2 v s w d f h = after_pure_binary ⊥ s w f d _ h
  eval_op-Ends Op.min v s w d f h = after_pure_binary ⊥ s w f d _ h
  eval_op-Ends Op.max v s w d f h = after_pure_binary ⊥ s w f d _ h
  eval_op-Ends Op.div v s w d f h = after_pure_binary ⊥ s w f d _ h
  eval_op-Ends Op.sub v s w d f h = after_pure_binary ⊥ s w f d _ h
  eval_op-Ends Op.lt v s w d f h = after_pure_binary ⊥ s w f d _ h
  eval_op-Ends Op.clamp v s w d f h = after_ternary ⊥ s w f d _ h
  eval_op-Ends Op.ifte v s w d f h = after_ternary ⊥ s w f d _ h
  eval_op-Ends Op.dpad v s w d f h = after_quaternary ⊥ s w f d _ h
  eval_op-Ends Op.port v s w d f h = after_consume_one ⊥ s w f d _ h
  eval_op-Ends Op.store v s w d f h = after_consume_two ⊥ s w f d _ h
  eval_op-Ends Op.monitor v s w d f h = after_consume_two ⊥ s w f d _ h
  eval_op-Ends Op.print_if v s w d f h = after_consume_two ⊥ s w f d _ h
  eval_op-Ends Op.deadzone v s w d f h = after_zone_one ⊥ s w f d _ h
  eval_op-Ends Op.deadzone2 v s w d f h = after_zone_two ⊥ s w f d _ h
  eval_op-Ends Op.modulo v s w d f h = after_modulo s w f d h
  eval_op-Ends Op.dup v s w d f h = ground (arith, duplicate-Ends ⊥ s w f)
  eval_op-Ends Op.swap v s w d f h = ground (arith, exchange-Ends ⊥ s w f)
  eval_op-Ends Op.debug v s w d f h = ground arith
  eval_op-Ends Op.eol v s w d f h = ground arith
  eval_op-Ends Op.unknown v s w d f h = cc

check_op-le : (op : Op) (d n : ℕ) → d ≤ stack_size → check_op op d ≡ some n → n ≤ stack_size
unfolding check_op
check_op-le Op.push d n f h = ground arith
check_op-le _ d n f h = ground arith

abbrev pub HasModulo : List Elem → Type 0
HasModulo [] = ⊥
HasModulo (e ∷ es) = IsModulo e.op ⊎ HasModulo es

-- The same code: only the cached pointers may differ.
abbrev pub SameCode : List Elem → List Elem → Type 0
SameCode [] [] = Unit
SameCode [] (_ ∷ _) = ⊥
SameCode (_ ∷ _) [] = ⊥
SameCode (e ∷ es) (f ∷ fs) = (e.op ≡ f.op) × (e.val ≡ f.val) × SameCode es fs

-- What a run over `es` may come to: it ends inside the stack with the code as it was, or at a
-- remainder by 0 if the code has one.
abbrev pub EndsAll : List Elem → Outcome (List Elem × Stack × World) → Type 0
EndsAll es (ok (fs, s, w)) = (s.depth ≤ stack_size) × SameCode es fs
EndsAll es (fault mod_by_zero) = HasModulo es
EndsAll es (fault stack_range) = ⊥
EndsAll es (fault unknown_op) = ⊥

module _ (fpu : Fpu) (now : ℕ) (repeating : Bool) where
  -- What is known of one element, from its op.
  abbrev EndsElem : Elem → ℕ → Outcome (Elem × Stack × World) → Type 0
  EndsElem e d (ok (f, s, w)) = (s.depth ≡ d) × (e.op ≡ f.op) × (e.val ≡ f.val)
  EndsElem e d (fault mod_by_zero) = IsModulo e.op
  EndsElem e d (fault stack_range) = ⊥
  EndsElem e d (fault unknown_op) = ⊥

  EndsElem-of :
      (e : Elem) (d : ℕ) (o : Outcome (Stack × World))
      → Ends (IsModulo e.op) d o
      → EndsElem e d (do (t, w') ← o; ok (record e { cached = w'.cached }, t, w'))
  EndsElem-of e d (ok (t, w')) h = (h, refl, refl)
  EndsElem-of e d (fault mod_by_zero) h = h
  EndsElem-of e d (fault stack_range) h = h
  EndsElem-of e d (fault unknown_op) h = h

  eval_elem-EndsElem :
      (e : Elem) (s : Stack) (w : World) (d : ℕ)
      → s.depth ≤ stack_size
      → check_op e.op s.depth ≡ some d
      → EndsElem e d (eval_elem fpu now repeating e s w)
  unfolding eval_elem
  eval_elem-EndsElem e s w d f h =
      EndsElem-of e d _
        (eval_op-Ends fpu now repeating e.op e.val s (record w { cached = e.cached }) d f h)

  EndsAll-of :
      (e : Elem) (es : List Elem) (r : Outcome (List Elem × Stack × World)) (f : Elem)
      → e.op ≡ f.op
      → e.val ≡ f.val
      → EndsAll es r
      → EndsAll (e ∷ es) (do (fs, t, u) ← r; ok (f ∷ fs, t, u))
  EndsAll-of e es (ok (fs, t, u)) f p q h = (h.0, (p, q, h.1))
  EndsAll-of e es (fault mod_by_zero) f p q h = inr h
  EndsAll-of e es (fault stack_range) f p q h = h
  EndsAll-of e es (fault unknown_op) f p q h = h

  first-EndsAll :
      (e : Elem) (es : List Elem) (d : ℕ) (o : Outcome (Elem × Stack × World))
      → EndsElem e d o
      → ((s : Stack) (w : World) → s.depth ≡ d → EndsAll es (eval_elems fpu now repeating es s w))
      → EndsAll (e ∷ es) (do
        (e', t, u) ← o
        (es', t', u') ← eval_elems fpu now repeating es t u
        ok (e' ∷ es', t', u'))
  first-EndsAll e es d (ok (e', t, u)) h ih = EndsAll-of e es _ e' h.1 h.2 (ih t u h.0)
  first-EndsAll e es d (fault mod_by_zero) h ih = inl h
  first-EndsAll e es d (fault stack_range) h ih = h
  first-EndsAll e es d (fault unknown_op) h ih = h

  pub eval_elems-EndsAll :
      (es : List Elem) (s : Stack) (w : World)
      → s.depth ≤ stack_size
      → check_from es s.depth ≡ true
      → EndsAll es (eval_elems fpu now repeating es s w)
  unfolding eval_elems check_from
  eval_elems-EndsAll [] s w f h = (f, tt)
  eval_elems-EndsAll (e ∷ es) s w f h = elim (Option-cases (check_op e.op s.depth)) [
    | inl refused ↦ cc (rw refused at h)
    | inr (d, passed) ↦ first-EndsAll e es d _ (eval_elem-EndsElem e s w d f passed) (λ t u same.
        eval_elems-EndsAll es t u (rw same (check_op-le e.op s.depth d f passed))
          (rw same (rw passed at h)))
  ]
