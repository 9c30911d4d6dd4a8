-- ===== src/Expr/Ops.antt =====
-- The values that the operations of `eval_expr` compute, one function per case of its switch
-- (three-place decimals: 1000 stands for 1), with int32_t wrap-around.
use usb_hid_wireless_bridge.Base.{
  update, ℕ, ◌+◌, ◌-◌, ◌*◌, ◌%◌, ◌^◌, Bool, true, false, not, ◌&&◌, ◌||◌, List, [], ◌∷◌, ◌++◌,
  Option, none, some, ltb, ◌==◌, if◌then◌else◌, bit_and, bit_or, get_or,
}
use usb_hid_wireless_bridge.Base.Int.{
  ℤ, pos, negsuc, ◌+ℤ◌, ◌-ℤ◌, ◌*ℤ◌, ltb_ℤ, eq_ℤ, tdiv, tmod, uint32, int32, signed32, pos_part,
}
use usb_hid_wireless_bridge.Slots.{get_state_ptr}
use usb_hid_wireless_bridge.Expr.Machine.{World, Outcome, ok, fault, mod_by_zero}

-- `b * 1000`
abbrev pub bool_value : Bool → ℤ
bool_value b = if b then pos 1000 else pos 0

abbrev pub is_zero : ℤ → Bool
is_zero a = eq_ℤ a (pos 0)

abbrev pub thousandfold : ℤ → ℤ
thousandfold a = int32 (a *ℤ pos 1000)

unfoldable pub mul_value : ℤ → ℤ → ℤ
mul_value a b = int32 (tdiv (a *ℤ b) (pos 1000))

-- `(now * 1000) & 0x7fffffff` in uint64_t
unfoldable pub time_value : ℕ → ℤ
time_value now = pos (now * 1000 % 2 ^ 64 % 2 ^ 31)

unfoldable pub mod_value : ℤ → ℤ → Outcome ℤ
mod_value a b = if is_zero b then fault mod_by_zero else ok (tmod a b)

unfoldable pub abs_value : ℤ → ℤ
abs_value a = if ltb_ℤ a (pos 0) then int32 (pos 0 -ℤ a) else a

unfoldable pub clamp_value : ℤ → ℤ → ℤ → ℤ
clamp_value x lo hi = let y = if ltb_ℤ x lo then lo else x in if ltb_ℤ hi y then hi else y

unfoldable pub or_value : ℤ → ℤ → ℤ
or_value a b = signed32 (bit_or (uint32 a) (uint32 b))

unfoldable pub and_value : ℤ → ℤ → ℤ
and_value a b = signed32 (bit_and (uint32 a) (uint32 b))

unfoldable pub not_value : ℤ → ℤ
not_value a = signed32 (2 ^ 32 - 1 - uint32 a)

unfoldable pub round_value : ℤ → ℤ
round_value a =
    let up = int32 (a +ℤ pos 500) in int32 (up -ℤ tmod (tmod up (pos 1000) +ℤ pos 1000) (pos 1000))

-- DIV's guard makes its divisor non-zero.
unfoldable pub div_value : ℤ → ℤ → ℤ
div_value a b = if is_zero b then pos 0 else int32 (tdiv (pos 1000 *ℤ a) b)

unfoldable pub sign_value : ℤ → ℤ
sign_value a =
    if ltb_ℤ (pos 0) a then pos 1000 else if ltb_ℤ a (pos 0) then int32 (negsuc 999) else pos 0

abbrev pub dpad_table : List ℕ
dpad_table = 8 ∷ 6 ∷ 2 ∷ 8 ∷ 0 ∷ 7 ∷ 1 ∷ 0 ∷ 4 ∷ 5 ∷ 3 ∷ 4 ∷ 8 ∷ 6 ∷ 2 ∷ 8 ∷ []

abbrev pub bit : Bool → ℕ
bit b = if b then 1 else 0

unfoldable pub dpad : Bool → Bool → Bool → Bool → ℕ
dpad left right up down = get_or dpad_table (bit left + bit right * 2 + bit up * 4 + bit down * 8) 0

unfoldable pub dpad_value : ℤ → ℤ → ℤ → ℤ → ℤ
unfolding dpad
dpad_value left right up down =
    pos (
      1000
      * dpad (not (is_zero left)) (not (is_zero right)) (not (is_zero up)) (not (is_zero down)))

-- The pointer of the element: cached, or looked up (and a slot assigned) and then cached.
unfoldable pub resolve : Bool → ℤ → World → Option ℕ × World
resolve raw usage w = elim w.cached [
  | some slot ↦ (some slot, w)
  | none ↦
      let (ptr, t) = get_state_ptr (uint32 usage) w.port_register true raw w.slots in
      (ptr, record w { slots = t; cached = ptr })
]

-- What a pointer case puts on the stack: `g` of the slot, `d` for a null pointer.
abbrev pub at_slot : Option ℕ → (ℕ → ℤ) → ℤ → ℤ
at_slot none g d = d
at_slot (some slot) g d = g slot

abbrev pub input_value : World → ℕ → ℤ
input_value w slot = thousandfold (w.input_state slot)

abbrev pub input_binary_value : World → ℕ → ℤ
input_binary_value w slot = bool_value (not (is_zero (w.input_state slot)))

-- INPUT_STATE and its like: look the usage on top up, and put the value there.
unfoldable pub load : Bool → (World → ℕ → ℤ) → ℤ → World → ℤ × World
unfolding resolve
load raw g usage w = let (ptr, w') = resolve raw usage w in (at_slot ptr (g w') (pos 0), w')

-- STICKY_STATE, TAP_STATE and HOLD_STATE leave the top as it is for a null pointer.
unfoldable pub load_or_keep : (World → ℕ → ℤ) → ℤ → World → ℤ × World
unfolding resolve
load_or_keep g usage w = let (ptr, w') = resolve false usage w in (at_slot ptr (g w') usage, w')

abbrev pub nregisters : ℕ
nregisters = 32

-- `stack[ptr] / 1000 - 1`, where it is the number of a register.
abbrev pub register_of : ℤ → Option ℕ
register_of v =
    let n = tdiv v (pos 1000) in
    if ltb_ℤ (pos 0) n && ltb (pos_part n - 1) nregisters then some (pos_part n - 1) else none

abbrev pub store_at : Option ℕ → ℤ → World → World
store_at none v w = w
store_at (some r) v w = record w { registers = update w.registers r v }

unfoldable pub store_value : ℤ → ℤ → World → World
store_value v reg w = store_at (register_of reg) v w

unfoldable pub recall_value : ℤ → World → ℤ
recall_value reg w = at_slot (register_of reg) w.registers reg

abbrev pub nports : ℕ
nports = 15

-- `port_register` is a uint8_t.
unfoldable pub port_value : ℤ → World → World
port_value v w =
    let p = uint32 (tdiv v (pos 1000)) % 256 in
    record w { port_register = if ltb nports p then 0 else p }

unfoldable pub monitor_value : ℤ → ℤ → World → World
monitor_value v usage w =
    if w.monitor_enabled && not (eq_ℤ v (w.monitor_input_state (uint32 usage)))
    then record w {
      monitored = w.monitored ++ (uint32 usage, v) ∷ [];
      monitor_input_state = update w.monitor_input_state (uint32 usage) v;
    }
    else w

unfoldable pub plugged_in_value : World → ℤ
plugged_in_value w =
    bool_value
      (w.port_register == 0 || not (bit_and w.active_ports_mask (2 ^ w.port_register) == 0))
