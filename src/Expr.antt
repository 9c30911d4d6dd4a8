-- ===== src/Expr.antt =====
-- firmware/hid-remapper/firmware/src/remapper.cc and types.h: the stack expressions of a
-- configuration. `is_expr_valid` checks one before it is used, and `eval_expr` (the children) runs it
-- on a stack of sixteen cells.
pub mod Machine
pub mod Ops
pub mod Deadzone
pub mod Eval
pub mod Shapes
pub mod Safe
pub mod Sound
pub mod Values
mod Tests
use usb_hid_wireless_bridge.Base.{
  ℕ, ◌+◌, ◌-◌, Bool, true, false, ◌||◌, List, [], ◌∷◌, Option, none, some, ltb, leb, if◌then◌else◌,
}

-- `enum class Op`; `unknown` stands for a byte outside the enumeration (an element is read from
-- the configuration by a cast).
pub data Op : Type 0 where
  push push_usage input_state add mul eq time modulo gt not input_state_binary abs dup : Op
  sin cos debug auto_repeat relu clamp scaling layer_state sticky_state tap_state hold_state : Op
  bitwise_or bitwise_and bitwise_not prev_input_state prev_input_state_binary store recall : Op
  sqrt atan2 round port dpad eol input_state_fp32 prev_input_state_fp32 min max ifte div : Op
  swap monitor sign sub print_if time_sec lt plugged_in input_state_scaled : Op
  prev_input_state_scaled deadzone deadzone2 unknown : Op

-- `expr_elem_t`; `cached` is the union of pointers, all of which are set from a slot index.
pub record Elem : Type 0 where
  pub op : Op
  pub val : ℕ
  pub cached : Option ℕ

abbrev pub stack_size : ℕ
stack_size = 16

abbrev pub grow : ℕ → Option ℕ
grow on_stack = if leb stack_size on_stack then none else some (on_stack + 1)

-- At least `n` on the stack, of which `k` go.
abbrev pub shrink : ℕ → ℕ → ℕ → Option ℕ
shrink n k on_stack = if ltb on_stack n then none else some (on_stack - k)

-- The switch of `is_expr_valid`: `none` where it returns false, else the new `on_stack`.
unfoldable pub check_op : Op → ℕ → Option ℕ
check_op debug d = some d
check_op eol d = some d
check_op push d = grow d
check_op push_usage d = grow d
check_op auto_repeat d = grow d
check_op time d = grow d
check_op scaling d = grow d
check_op layer_state d = grow d
check_op time_sec d = grow d
check_op plugged_in d = grow d
check_op not d = shrink 1 0 d
check_op input_state d = shrink 1 0 d
check_op input_state_binary d = shrink 1 0 d
check_op abs d = shrink 1 0 d
check_op sin d = shrink 1 0 d
check_op cos d = shrink 1 0 d
check_op relu d = shrink 1 0 d
check_op sticky_state d = shrink 1 0 d
check_op tap_state d = shrink 1 0 d
check_op hold_state d = shrink 1 0 d
check_op bitwise_not d = shrink 1 0 d
check_op prev_input_state d = shrink 1 0 d
check_op prev_input_state_binary d = shrink 1 0 d
check_op recall d = shrink 1 0 d
check_op sqrt d = shrink 1 0 d
check_op round d = shrink 1 0 d
check_op input_state_fp32 d = shrink 1 0 d
check_op prev_input_state_fp32 d = shrink 1 0 d
check_op input_state_scaled d = shrink 1 0 d
check_op prev_input_state_scaled d = shrink 1 0 d
check_op sign d = shrink 1 0 d
check_op dup d = if ltb d 1 || leb stack_size d then none else some (d + 1)
check_op add d = shrink 2 1 d
check_op mul d = shrink 2 1 d
check_op eq d = shrink 2 1 d
check_op gt d = shrink 2 1 d
check_op modulo d = shrink 2 1 d
check_op bitwise_or d = shrink 2 1 d
check_op bitwise_and d = shrink 2 1 d
check_op atan2 d = shrink 2 1 d
check_op min d = shrink 2 1 d
check_op max d = shrink 2 1 d
check_op div d = shrink 2 1 d
check_op sub d = shrink 2 1 d
check_op lt d = shrink 2 1 d
check_op clamp d = shrink 3 2 d
check_op ifte d = shrink 3 2 d
check_op store d = shrink 2 2 d
check_op monitor d = shrink 2 2 d
check_op print_if d = shrink 2 2 d
check_op port d = shrink 1 1 d
check_op dpad d = shrink 4 3 d
check_op swap d = shrink 2 0 d
check_op deadzone d = shrink 3 1 d
check_op deadzone2 d = shrink 4 2 d
check_op unknown d = none

abbrev pub continue_check : Option ℕ → (ℕ → Bool) → Bool
continue_check none k = false
continue_check (some d) k = k d

unfoldable pub check_from : List Elem → ℕ → Bool
unfolding check_op
check_from [] d = true
check_from (e ∷ es) d = continue_check (check_op e.op d) (check_from es)

unfoldable pub is_expr_valid : List Elem → Bool
unfolding check_from
is_expr_valid es = check_from es 0

-- `validate_expressions`: what it stores in `expression_valid[]` (it prints the invalid ones).
abbrev pub validate_expressions : (ℕ → List Elem) → ℕ → Bool
validate_expressions expressions i = is_expr_valid (expressions i)
