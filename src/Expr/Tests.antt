-- ===== src/Expr/Tests.antt =====
-- Expressions run on concrete stacks.
use usb_hid_wireless_bridge.Base.{ℕ, ◌≡◌, refl, true, false, List, [], ◌∷◌, none}
use usb_hid_wireless_bridge.Base.Int.{int32, uint32, tdiv, ◌*ℤ◌, ◌-ℤ◌, ℤ, pos, negsuc}
use usb_hid_wireless_bridge.Expr.{Op, Elem, is_expr_valid}
use usb_hid_wireless_bridge.Expr.Eval.{run_expr}
use usb_hid_wireless_bridge.Expr.Machine.{Fpu, World}
use usb_hid_wireless_bridge.Expr.Ops.{
  mul_value, div_value, abs_value, time_value, or_value, and_value, not_value, dpad_value,
  plugged_in_value, dpad,
}
use usb_hid_wireless_bridge.Expr.Sound.{Completes, run_expr-Completes}

abbrev whole : ℤ → ℤ
whole a = a

abbrev soft : Fpu
soft = record {
  sin = whole;
  cos = whole;
  sqrt = whole;
  atan2 = λ a b. a;
  radius = whole;
  fp32 = whole;
}

abbrev world : World
world = record {
  slots = record { usage_state_ptr = []; used_state_slots = 0; their_descriptor_updated = false };
  cached = none;
  input_state = λ _. pos 7;
  tap_hold_state = λ _. record { tap = false; hold = false };
  sticky_state = λ _. 0;
  registers = λ _. pos 0;
  port_register = 0;
  layer_state_mask = 1;
  active_ports_mask = 0;
  monitor_enabled = false;
  monitor_input_state = λ _. pos 0;
  monitored = [];
}

abbrev elem : Op → ℕ → Elem
elem op val = record { op = op; val = val; cached = none }

abbrev cells : ℕ → ℤ
cells _ = pos 0

-- (usage 0x10030 * 1000 + 2000) clamped to 0 .. 5000
abbrev code : List Elem
code =
    elem Op.push_usage 0x10030
    ∷ elem Op.input_state 0
    ∷ elem Op.push 2000
    ∷ elem Op.add 0
    ∷ elem Op.push 0
    ∷ elem Op.push 5000
    ∷ elem Op.clamp 0
    ∷ []

code_valid : is_expr_valid code ≡ true
unfolding is_expr_valid
code_valid = refl

run_expr-Completes_example : Completes code (run_expr soft 5 true code cells world)
run_expr-Completes_example = run_expr-Completes soft 5 true code cells world code_valid

-- Values of single operations, in thousandths: 2 * 1.5, -7 / 2, |-3|, bits, the time and the directions.
mul_test : mul_value (pos 2000) (pos 1500) ≡ pos 3000
unfolding mul_value int32 tdiv ◌*ℤ◌
mul_test = refl

div_test : div_value (negsuc 6999) (pos 2000) ≡ negsuc 3499
unfolding div_value int32 tdiv ◌*ℤ◌
div_test = refl

div_by_zero_test : div_value (pos 5000) (pos 0) ≡ pos 0
unfolding div_value int32 tdiv ◌*ℤ◌
div_by_zero_test = refl

abs_test : abs_value (negsuc 2999) ≡ pos 3000
unfolding abs_value int32 ◌-ℤ◌
abs_test = refl

time_test : time_value 5 ≡ pos 5000
unfolding time_value
time_test = refl

bitwise_test :
    (or_value (pos 12) (pos 10) ≡ pos 14)
    × (and_value (pos 12) (negsuc 0) ≡ pos 12)
    × (not_value (pos 0) ≡ negsuc 0)
unfolding or_value and_value not_value uint32
bitwise_test = (refl, refl, refl)

dpad_test : dpad_value (pos 0) (pos 1000) (pos 1000) (pos 0) ≡ pos 1000
unfolding dpad_value dpad
dpad_test = refl

plugged_in_test : plugged_in_value world ≡ pos 1000
unfolding plugged_in_value
plugged_in_test = refl
