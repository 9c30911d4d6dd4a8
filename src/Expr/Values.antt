-- ===== src/Expr/Values.antt =====
-- What single operations compute.
use usb_hid_wireless_bridge.Base.{
  ◌⊎◌, ℕ, ◌*◌, ◌-◌, ◌%◌, ◌^◌, ◌≤◌, sym, subst, ap, ◌∙◌, ◌≡◌, Bool, true, false, arith, ltb,
  if◌then◌else◌,
}
use usb_hid_wireless_bridge.Base.Int.{
  ℤ, pos, negsuc, ◌+ℤ◌, ◌-ℤ◌, ◌*ℤ◌, ◌≤ℤ◌, pos_part, neg_part, tmod, tdiv, int32, int32_fits,
  int_laws,
}
use usb_hid_wireless_bridge.Expr.Deadzone.{
  stretch, zoned, to_byte, mul32, add32, sub32, axis, deadzone_value, deadzone2_value,
}
use usb_hid_wireless_bridge.Expr.Ops.{dpad, clamp_value, round_value}

-- Left and right pressed together count as neither, and so do up and down; the answer is one of
-- the eight directions clockwise from up, or 8 for none.
pub dpad_cancels :
    (left right up down : Bool)
    → (dpad true true up down ≡ dpad false false up down)
      × (dpad left right true true ≡ dpad left right false false)
      × (dpad left right up down ≤ 8)
unfolding dpad
dpad_cancels left right up down = ground arith

-- An axis value: three-place decimals of 0 to 255.
abbrev pub InAxis : ℤ → Type 0
InAxis v = (pos 0 ≤ℤ v) × (v ≤ℤ pos 255000)

to_byte_bounds : (v : ℤ) → (n : ℕ) × (to_byte v ≡ pos n) × (n ≤ 255)
to_byte_bounds (pos n) = (if ltb 255 n then 255 else n, ground arith, ground arith)
to_byte_bounds (negsuc n) = (0, ground arith, ground arith)

byte_times : (n : ℕ) → n ≤ 255 → mul32 (pos n) (pos 1000) ≡ pos (n * 1000)
unfolding ◌*ℤ◌ int32
byte_times n h = ground arith

byte_axis : (v : ℤ) → InAxis (mul32 (to_byte v) (pos 1000))
byte_axis v =
    let (n, e, h) = to_byte_bounds v in
    subst InAxis (sym (ap (λ b. mul32 b (pos 1000)) e ∙ byte_times n h)) (omega arith, omega arith)

stretch-InAxis : (x radius inner span : ℤ) → InAxis (stretch x radius inner span)
unfolding stretch
stretch-InAxis x radius inner span =
    byte_axis (add32 (pos 128) (int32 (tdiv (mul32 (mul32 x (pos 128)) (sub32 radius inner)) span)))

zoned-InAxis :
    (x y radius inner room : ℤ)
    → InAxis (zoned x y radius inner room).0 × InAxis (zoned x y radius inner room).1
unfolding zoned
zoned-InAxis x y radius inner room = ground (
  arith,
  stretch-InAxis x radius inner (mul32 radius room),
  stretch-InAxis y radius inner (mul32 radius room),
)

-- Whatever the square root gives, both dead zones put both axes into the range 0 to 255.
pub deadzones-InAxis :
    (sqrt : ℤ → ℤ) (x y inner outer : ℤ)
    → (InAxis (deadzone_value sqrt x y inner).0 × InAxis (deadzone_value sqrt x y inner).1)
      × (InAxis (deadzone2_value sqrt x y inner outer).0
          × InAxis (deadzone2_value sqrt x y inner outer).1)
unfolding deadzone_value deadzone2_value
deadzones-InAxis sqrt x y inner outer =
    let square = add32 (mul32 (axis x) (axis x)) (mul32 (axis y) (axis y)) in
    let room = sub32 (pos 128) (tdiv inner (pos 1000)) in
    let room2 = sub32 room (tdiv outer (pos 1000)) in
    (
      zoned-InAxis (axis x) (axis y) (sqrt square) (tdiv inner (pos 1000)) room,
      zoned-InAxis (axis x) (axis y) (sqrt square) (tdiv inner (pos 1000)) room2,
    )

-- For lo ≤ hi, CLAMP's result is its argument if that lies between the bounds, and else the bound
-- that the argument has passed.
pub clamp_value_cases :
    (x lo hi : ℤ)
    → lo ≤ℤ hi
    → ((x ≤ℤ lo) × (clamp_value x lo hi ≡ lo))
      ⊎ ((hi ≤ℤ x) × (clamp_value x lo hi ≡ hi))
      ⊎ ((lo ≤ℤ x) × (x ≤ℤ hi) × (clamp_value x lo hi ≡ x))
unfolding clamp_value
clamp_value_cases x lo hi h = ground arith

-- The multiple of 1000 at or below an integer, as ROUND computes it.
floored : ℤ → ℤ
floored u = u -ℤ tmod (tmod u (pos 1000) +ℤ pos 1000) (pos 1000)

record IsFloor (u v : ℤ) : Type 0 where
  pos_whole : pos_part v % 1000 ≡ 0
  neg_whole : neg_part v % 1000 ≡ 0
  below : v ≤ℤ u
  near : u ≤ℤ v +ℤ pos 999

floored-IsFloor : (u : ℤ) → IsFloor u (floored u)
unfolding floored ◌-ℤ◌ ◌+ℤ◌ tmod
floored-IsFloor (pos n) = ground arith
floored-IsFloor (negsuc n) = ground arith

round_value-floored :
    (a : ℤ)
    → negsuc (2 ^ 31 - 1000) ≤ℤ a
    → a ≤ℤ pos (2 ^ 31 - 1000)
    → round_value a ≡ floored (a +ℤ pos 500)
unfolding round_value floored
round_value-floored a lo hi =
    let fits = int32_fits (a +ℤ pos 500) (omega int_laws) (omega int_laws) in
    let f = floored-IsFloor (a +ℤ pos 500) in
    rw fits (
      int32_fits (floored (a +ℤ pos 500)) (omega (int_laws, f.below, f.near))
        (omega (int_laws, f.below, f.near)))

-- ROUND gives the whole number nearest to its argument (halves go up), if adding one half does not
-- overflow: a multiple of 1000, at most 500 below the argument plus one half, and above that less
-- 1000.
pub round_value_nearest :
    (a : ℤ)
    → negsuc (2 ^ 31 - 1000) ≤ℤ a
    → a ≤ℤ pos (2 ^ 31 - 1000)
    → (pos_part (round_value a) % 1000 ≡ 0)
      × (neg_part (round_value a) % 1000 ≡ 0)
      × (round_value a ≤ℤ a +ℤ pos 500)
      × (a +ℤ pos 500 ≤ℤ round_value a +ℤ pos 999)
round_value_nearest a lo hi =
    rw (round_value-floored a lo hi)
      (let f = floored-IsFloor (a +ℤ pos 500) in (f.pos_whole, f.neg_whole, f.below, f.near))
