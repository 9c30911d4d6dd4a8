-- ===== src/Expr/Eval.antt =====
-- The loop of `eval_expr` and its switch. Printing (DEBUG, PRINT_IF, the debug dump) is left out.
use usb_hid_wireless_bridge.Base.{
  update, ℕ, ◌+◌, ◌%◌, ◌^◌, Bool, true, false, not, ◌||◌, List, [], ◌∷◌, leb, ltb, if◌then◌else◌,
}
use usb_hid_wireless_bridge.Base.Int.{ℤ, pos, ltb_ℤ, eq_ℤ, signed32}
use usb_hid_wireless_bridge.Slots.{prev_state_offset}
use usb_hid_wireless_bridge.Expr.{Op, Elem}
use usb_hid_wireless_bridge.Expr.Deadzone.{add32, sub32, deadzone_value, deadzone2_value}
use usb_hid_wireless_bridge.Expr.Machine.{
  Outcome, ok, fault, unknown_op, ◌>>=◌, Stack, peek, poke, push_value, drop_cells, World, Fpu,
}
use usb_hid_wireless_bridge.Expr.Ops.{
  bool_value, is_zero, mul_value, time_value, mod_value, abs_value, clamp_value, or_value,
  and_value, not_value, round_value, div_value, sign_value, dpad_value, input_value,
  input_binary_value, load, load_or_keep, store_value, recall_value, port_value, monitor_value,
  plugged_in_value,
}

abbrev pub Effect : Type 0
Effect = Stack → World → Outcome (Stack × World)

-- The stack traffic that the cases share: one value on top, the top replaced, two values into
-- one, and so on. `a`, `b`, `c`, `d` are the values read, the deepest first.
unfoldable pub nullary : (World → ℤ) → Effect
nullary g s w = do t ← push_value (g w) s; ok (t, w)

unfoldable pub unary : (ℤ → World → ℤ × World) → Effect
unary g s w = do a ← peek 0 s; let r = g a w; t ← poke 0 (r.0) s; ok (t, r.1)

unfoldable pub binary : (ℤ → ℤ → Outcome ℤ) → Effect
binary g s w = do b ← peek 0 s; a ← peek 1 s; v ← g a b; t ← poke 1 v s; ok (drop_cells 1 t, w)

unfoldable pub ternary : (ℤ → ℤ → ℤ → ℤ) → Effect
ternary g s w = do
  c ← peek 0 s
  b ← peek 1 s
  a ← peek 2 s
  t ← poke 2 (g a b c) s
  ok (drop_cells 2 t, w)

unfoldable pub quaternary : (ℤ → ℤ → ℤ → ℤ → ℤ) → Effect
quaternary g s w = do
  d ← peek 0 s
  c ← peek 1 s
  b ← peek 2 s
  a ← peek 3 s
  t ← poke 3 (g a b c d) s
  ok (drop_cells 3 t, w)

unfoldable pub consume_one : (ℤ → World → World) → Effect
consume_one g s w = do a ← peek 0 s; ok (drop_cells 1 s, g a w)

unfoldable pub consume_two : (ℤ → ℤ → World → World) → Effect
consume_two g s w = do b ← peek 0 s; a ← peek 1 s; ok (drop_cells 2 s, g a b w)

unfoldable pub duplicate : Effect
duplicate s w = do a ← peek 0 s; t ← push_value a s; ok (t, w)

unfoldable pub exchange : Effect
exchange s w = do b ← peek 0 s; a ← peek 1 s; t ← poke 1 b s; u ← poke 0 a t; ok (u, w)

unfoldable pub zone_one : (ℤ → ℤ → ℤ → ℤ × ℤ) → Effect
zone_one g s w = do
  c ← peek 0 s
  b ← peek 1 s
  a ← peek 2 s
  let r = g a b c
  t ← poke 2 (r.0) s
  u ← poke 1 (r.1) t
  ok (drop_cells 1 u, w)

unfoldable pub zone_two : (ℤ → ℤ → ℤ → ℤ → ℤ × ℤ) → Effect
zone_two g s w = do
  d ← peek 0 s
  c ← peek 1 s
  b ← peek 2 s
  a ← peek 3 s
  let r = g a b c d
  t ← poke 3 (r.0) s
  u ← poke 2 (r.1) t
  ok (drop_cells 2 u, w)

abbrev pub pure_unary : (ℤ → ℤ) → Effect
pure_unary g = unary (λ a w. (g a, w))

abbrev pub pure_binary : (ℤ → ℤ → ℤ) → Effect
pure_binary g = binary (λ a b. ok (g a b))

abbrev pub nexpressions : ℕ
nexpressions = 8

abbrev pub skip : Effect
skip s w = ok (s, w)

-- The switch: `now` is the frame counter, `fpu` the C library's floating point. The default
-- case is a fault here; `is_expr_valid` refuses its ops beforehand.
module _ (fpu : Fpu) (now : ℕ) (repeating : Bool) where
  unfoldable pub eval_op : Op → ℕ → Effect
  eval_op Op.push v = nullary (λ _. signed32 v)
  eval_op Op.push_usage v = nullary (λ _. signed32 v)
  eval_op Op.input_state v = unary (load true input_value)
  eval_op Op.add v = pure_binary add32
  eval_op Op.mul v = pure_binary mul_value
  eval_op Op.eq v = pure_binary (λ a b. bool_value (eq_ℤ a b))
  eval_op Op.time v = nullary (λ _. time_value now)
  eval_op Op.modulo v = binary mod_value
  eval_op Op.gt v = pure_binary (λ a b. bool_value (ltb_ℤ b a))
  eval_op Op.not v = pure_unary (λ a. bool_value (is_zero a))
  eval_op Op.input_state_binary v = unary (load false input_binary_value)
  eval_op Op.abs v = pure_unary abs_value
  eval_op Op.dup v = duplicate
  eval_op Op.sin v = pure_unary fpu.sin
  eval_op Op.cos v = pure_unary fpu.cos
  eval_op Op.debug v = skip
  eval_op Op.auto_repeat v = nullary (λ _. bool_value repeating)
  eval_op Op.relu v = pure_unary (λ a. if ltb_ℤ a (pos 0) then pos 0 else a)
  eval_op Op.clamp v = ternary clamp_value
  eval_op Op.scaling v = nullary (λ _. pos 1000)
  eval_op Op.layer_state v = nullary (λ w. pos w.layer_state_mask)
  eval_op Op.sticky_state v = unary (load_or_keep (λ w i. pos (w.sticky_state i)))
  eval_op Op.tap_state v = unary (load_or_keep (λ w i. bool_value (w.tap_hold_state i).tap))
  eval_op Op.hold_state v = unary (load_or_keep (λ w i. bool_value (w.tap_hold_state i).hold))
  eval_op Op.bitwise_or v = pure_binary or_value
  eval_op Op.bitwise_and v = pure_binary and_value
  eval_op Op.bitwise_not v = pure_unary not_value
  eval_op Op.prev_input_state v = unary (load true (λ w i. input_value w (i + prev_state_offset)))
  eval_op Op.prev_input_state_binary v =
      unary (load false (λ w i. input_binary_value w (i + prev_state_offset)))
  eval_op Op.store v = consume_two store_value
  eval_op Op.recall v = unary (λ a w. (recall_value a w, w))
  eval_op Op.sqrt v = pure_unary (λ a. if ltb_ℤ a (pos 0) then a else fpu.sqrt a)
  eval_op Op.atan2 v = pure_binary fpu.atan2
  eval_op Op.round v = pure_unary round_value
  eval_op Op.port v = consume_one port_value
  eval_op Op.dpad v = quaternary dpad_value
  eval_op Op.eol v = skip
  eval_op Op.input_state_fp32 v = unary (load true (λ w i. fpu.fp32 (w.input_state i)))
  eval_op Op.prev_input_state_fp32 v =
      unary (load true (λ w i. fpu.fp32 (w.input_state (i + prev_state_offset))))
  eval_op Op.min v = pure_binary (λ a b. if ltb_ℤ a b then a else b)
  eval_op Op.max v = pure_binary (λ a b. if ltb_ℤ b a then a else b)
  eval_op Op.ifte v = ternary (λ a b c. if is_zero a then c else b)
  eval_op Op.div v = pure_binary div_value
  eval_op Op.swap v = exchange
  eval_op Op.monitor v = consume_two monitor_value
  eval_op Op.sign v = pure_unary sign_value
  eval_op Op.sub v = pure_binary sub32
  eval_op Op.print_if v = consume_two (λ _ _ w. w)
  eval_op Op.time_sec v = nullary (λ _. pos (now % 2 ^ 31))
  eval_op Op.lt v = pure_binary (λ a b. bool_value (ltb_ℤ a b))
  eval_op Op.plugged_in v = nullary plugged_in_value
  eval_op Op.input_state_scaled v = unary (load false input_value)
  eval_op Op.prev_input_state_scaled v =
      unary (load false (λ w i. input_value w (i + prev_state_offset)))
  eval_op Op.deadzone v = zone_one (deadzone_value fpu.radius)
  eval_op Op.deadzone2 v = zone_two (deadzone2_value fpu.radius)
  eval_op Op.unknown v = (λ s w. fault unknown_op)

  -- One element, with its own pointer cache: the element comes back with the cache updated.
  unfoldable pub eval_elem : Elem → Stack → World → Outcome (Elem × Stack × World)
  unfolding eval_op
  eval_elem e s w = do
    (t, w') ← eval_op e.op e.val s (record w { cached = e.cached })
    ok (record e { cached = w'.cached }, t, w')

  unfoldable pub eval_elems : List Elem → Stack → World → Outcome (List Elem × Stack × World)
  unfolding eval_elem
  eval_elems [] s w = ok ([], s, w)
  eval_elems (e ∷ es) s w = do
    (e', t, u) ← eval_elem e s w
    (es', t', u') ← eval_elems es t u
    ok (e' ∷ es', t', u')

  -- `if (ptr >= 0) return stack[ptr]; return 0;`
  unfoldable pub result_of : Stack → Outcome ℤ
  result_of s = if ltb 0 s.depth then peek 0 s else ok (pos 0)

  -- The run of an expression that is known to be valid, on an empty stack (its cells are static,
  -- so whatever they held before comes in).
  unfoldable pub run_expr : List Elem → (ℕ → ℤ) → World → Outcome (ℤ × List Elem × World)
  unfolding eval_elems result_of
  run_expr es cells w = do
    (es', t, w') ← eval_elems es (record { depth = 0; cells = cells }) w
    v ← result_of t
    ok (v, es', w')

  -- `eval_expr` on the number of an expression: the value, the expressions with their pointer
  -- caches updated, and the globals. An element list that the run changes is put back.
  unfoldable pub eval_expr :
      ℕ → (ℕ → Bool) → (ℕ → List Elem) → (ℕ → ℤ) → World → Outcome (ℤ × (ℕ → List Elem) × World)
  unfolding run_expr
  eval_expr expr expression_valid expressions cells w =
      if leb nexpressions expr || not (expression_valid expr)
      then ok (pos 0, expressions, w)
      else do
        (v, es, w') ← run_expr (expressions expr) cells w
        ok (v, update expressions expr es, w')
