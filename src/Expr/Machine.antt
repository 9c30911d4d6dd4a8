-- ===== src/Expr/Machine.antt =====
-- What `eval_expr` works on: the stack, and the globals that it reads and writes.
use usb_hid_wireless_bridge.Base.{update, ℕ, ◌+◌, ◌-◌, Bool, List, Option, ltb, leb, if◌then◌else◌}
use usb_hid_wireless_bridge.Base.Int.{ℤ}
use usb_hid_wireless_bridge.Slots.{Slots}
use usb_hid_wireless_bridge.Expr.{stack_size}

-- `stack_range`: an access to stack[] outside its sixteen cells. `mod_by_zero`: `%` by 0, which C
-- leaves undefined. `unknown_op`: the case that prints "unknown op!" and leaves the function.
pub data Fault : Type 0 where
  stack_range mod_by_zero unknown_op : Fault

pub data Outcome {ℓ} (A : Type ℓ) : Type ℓ where
  ok : A → Outcome A
  fault : Fault → Outcome A

infixl 5 ◌>>=◌
abbrev pub ◌>>=◌ {ℓ κ} : {A : Type ℓ} {B : Type κ} → Outcome A → (A → Outcome B) → Outcome B
ok a >>= f = f a
fault e >>= f = fault e

-- `depth` is `ptr + 1`.
pub record Stack : Type 0 where
  pub depth : ℕ
  pub cells : ℕ → ℤ

-- `stack[ptr - k]`
unfoldable pub peek : ℕ → Stack → Outcome ℤ
peek k s =
    if ltb k s.depth
    then if leb (s.depth - k) stack_size then ok (s.cells (s.depth - k - 1)) else fault stack_range
    else fault stack_range

-- `stack[ptr - k] = v`
unfoldable pub poke : ℕ → ℤ → Stack → Outcome Stack
poke k v s =
    if ltb k s.depth
    then if leb (s.depth - k) stack_size
      then ok (record s { cells = update s.cells (s.depth - k - 1) v })
      else fault stack_range
    else fault stack_range

-- `stack[++ptr] = v`
unfoldable pub push_value : ℤ → Stack → Outcome Stack
push_value v s =
    if ltb s.depth stack_size
    then ok (record { depth = s.depth + 1; cells = update s.cells s.depth v })
    else fault stack_range

-- `ptr -= n`, where at least `n` cells have just been read
abbrev pub drop_cells : ℕ → Stack → Stack
drop_cells n s = record s { depth = s.depth - n }

-- The two bits that `eval_expr` reads of a `tap_hold_state_t`.
pub record TapHold : Type 0 where
  pub tap : Bool
  pub hold : Bool

-- The globals. `cached` is the pointer of the element being run; `monitored` logs the calls of
-- `monitor_usage` (always for port 0).
pub record World : Type 0 where
  pub slots : Slots
  pub cached : Option ℕ
  pub input_state : ℕ → ℤ
  pub tap_hold_state : ℕ → TapHold
  pub sticky_state : ℕ → ℕ
  pub registers : ℕ → ℤ
  pub port_register : ℕ
  pub layer_state_mask : ℕ
  pub active_ports_mask : ℕ
  pub monitor_enabled : Bool
  pub monitor_input_state : ℕ → ℤ
  pub monitored : List (ℕ × ℤ)

-- What the C library computes in floating point, on the int32_t values that go in and come out.
pub record Fpu : Type 0 where
  pub sin : ℤ → ℤ
  pub cos : ℤ → ℤ
  pub sqrt : ℤ → ℤ
  pub atan2 : ℤ → ℤ → ℤ
  pub radius : ℤ → ℤ  -- (int32_t) sqrt of a sum of squares
  pub fp32 : ℤ → ℤ  -- 1000.0f times the float whose bits these are
