-- ===== src/Expr/Shapes.antt =====
-- The stack traffic of each shape of operation of `eval_expr`.
use usb_hid_wireless_bridge.Base.{ℕ, ◌+◌, ◌-◌, ◌≤◌, ◌<◌, ◌≡◌, some, arith}
use usb_hid_wireless_bridge.Base.Int.{ℤ}
use usb_hid_wireless_bridge.Expr.{stack_size, grow, shrink}
use usb_hid_wireless_bridge.Expr.Machine.{
  stack_range, mod_by_zero, unknown_op, Outcome, ok, fault, Stack, peek, poke, push_value, World,
}
use usb_hid_wireless_bridge.Expr.Ops.{mod_value}
use usb_hid_wireless_bridge.Expr.Eval.{
  nullary, unary, binary, ternary, quaternary, consume_one, consume_two, duplicate, exchange,
  zone_one, zone_two,
}

-- The run ends with `d` values on the stack, or at a remainder by 0 where `P` allows that.
abbrev pub Ends : Type 0 → ℕ → Outcome (Stack × World) → Type 0
Ends P d (ok (s, w)) = s.depth ≡ d
Ends P d (fault mod_by_zero) = P
Ends P d (fault stack_range) = ⊥
Ends P d (fault unknown_op) = ⊥

-- A computation that is no other fault than a remainder by 0.
abbrev Total : Type 0 → Outcome ℤ → Type 0
Total P (ok v) = Unit
Total P (fault mod_by_zero) = P
Total P (fault stack_range) = ⊥
Total P (fault unknown_op) = ⊥

module _ (P : Type 0) (s : Stack) (w : World) (fits : s.depth ≤ stack_size) where
  nullary-Ends : (g : World → ℤ) → s.depth < stack_size → Ends P (s.depth + 1) (nullary g s w)
  unfolding nullary push_value
  nullary-Ends g h = ground arith

  unary-Ends : (g : ℤ → World → ℤ × World) → 1 ≤ s.depth → Ends P s.depth (unary g s w)
  unfolding unary peek poke
  unary-Ends g h = ground arith

  binary-Ends :
      (g : ℤ → ℤ → Outcome ℤ)
      → ((a b : ℤ) → Total P (g a b))
      → 2 ≤ s.depth
      → Ends P (s.depth - 1) (binary g s w)
  unfolding binary peek poke
  binary-Ends g total h =
      ground (arith, total (s.cells (s.depth - 1 - 1)) (s.cells (s.depth - 0 - 1)))

  ternary-Ends : (g : ℤ → ℤ → ℤ → ℤ) → 3 ≤ s.depth → Ends P (s.depth - 2) (ternary g s w)
  unfolding ternary peek poke
  ternary-Ends g h = ground arith

  quaternary-Ends : (g : ℤ → ℤ → ℤ → ℤ → ℤ) → 4 ≤ s.depth → Ends P (s.depth - 3) (quaternary g s w)
  unfolding quaternary peek poke
  quaternary-Ends g h = ground arith

  consume_one-Ends :
      (g : ℤ → World → World) → 1 ≤ s.depth → Ends P (s.depth - 1) (consume_one g s w)
  unfolding consume_one peek
  consume_one-Ends g h = ground arith

  consume_two-Ends :
      (g : ℤ → ℤ → World → World) → 2 ≤ s.depth → Ends P (s.depth - 2) (consume_two g s w)
  unfolding consume_two peek
  consume_two-Ends g h = ground arith

  pub duplicate-Ends : 1 ≤ s.depth → s.depth < stack_size → Ends P (s.depth + 1) (duplicate s w)
  unfolding duplicate peek push_value
  duplicate-Ends h l = ground arith

  pub exchange-Ends : 2 ≤ s.depth → Ends P s.depth (exchange s w)
  unfolding exchange peek poke
  exchange-Ends h = ground arith

  zone_one-Ends : (g : ℤ → ℤ → ℤ → ℤ × ℤ) → 3 ≤ s.depth → Ends P (s.depth - 1) (zone_one g s w)
  unfolding zone_one peek poke
  zone_one-Ends g h = ground arith

  zone_two-Ends : (g : ℤ → ℤ → ℤ → ℤ → ℤ × ℤ) → 4 ≤ s.depth → Ends P (s.depth - 2) (zone_two g s w)
  unfolding zone_two peek poke
  zone_two-Ends g h = ground arith

-- The same with the checked depth: `d` is what `check_op` makes of the depth before.
module _ (P : Type 0) (s : Stack) (w : World) (fits : s.depth ≤ stack_size) (d : ℕ) where
  pub after_nullary : (g : World → ℤ) → grow s.depth ≡ some d → Ends P d (nullary g s w)
  after_nullary g h = ground (arith, nullary-Ends P s w fits g)

  pub after_unary :
      (g : ℤ → World → ℤ × World) → shrink 1 0 s.depth ≡ some d → Ends P d (unary g s w)
  after_unary g h = ground (arith, unary-Ends P s w fits g)

  pub after_pure_binary :
      (g : ℤ → ℤ → ℤ) → shrink 2 1 s.depth ≡ some d → Ends P d (binary (λ a b. ok (g a b)) s w)
  after_pure_binary g h = ground (arith, binary-Ends P s w fits (λ a b. ok (g a b)) (λ a b. tt))

  pub after_ternary : (g : ℤ → ℤ → ℤ → ℤ) → shrink 3 2 s.depth ≡ some d → Ends P d (ternary g s w)
  after_ternary g h = ground (arith, ternary-Ends P s w fits g)

  pub after_quaternary :
      (g : ℤ → ℤ → ℤ → ℤ → ℤ) → shrink 4 3 s.depth ≡ some d → Ends P d (quaternary g s w)
  after_quaternary g h = ground (arith, quaternary-Ends P s w fits g)

  pub after_consume_one :
      (g : ℤ → World → World) → shrink 1 1 s.depth ≡ some d → Ends P d (consume_one g s w)
  after_consume_one g h = ground (arith, consume_one-Ends P s w fits g)

  pub after_consume_two :
      (g : ℤ → ℤ → World → World) → shrink 2 2 s.depth ≡ some d → Ends P d (consume_two g s w)
  after_consume_two g h = ground (arith, consume_two-Ends P s w fits g)

  pub after_zone_one :
      (g : ℤ → ℤ → ℤ → ℤ × ℤ) → shrink 3 1 s.depth ≡ some d → Ends P d (zone_one g s w)
  after_zone_one g h = ground (arith, zone_one-Ends P s w fits g)

  pub after_zone_two :
      (g : ℤ → ℤ → ℤ → ℤ → ℤ × ℤ) → shrink 4 2 s.depth ≡ some d → Ends P d (zone_two g s w)
  after_zone_two g h = ground (arith, zone_two-Ends P s w fits g)

mod_value-Total : (a b : ℤ) → Total Unit (mod_value a b)
unfolding mod_value
mod_value-Total a b = ground arith

pub after_modulo :
    (s : Stack) (w : World)
    → s.depth ≤ stack_size
    → (d : ℕ) → shrink 2 1 s.depth ≡ some d
    → Ends Unit d (binary mod_value s w)
after_modulo s w fits d h = ground (arith, binary-Ends Unit s w fits mod_value mod_value-Total)
