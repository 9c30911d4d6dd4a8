-- ===== src/Expr/Deadzone.antt =====
-- The two joystick dead zones of `eval_expr`, on axes of 0 to 255 with the centre at 128.
use usb_hid_wireless_bridge.Base.{◌||◌, if◌then◌else◌}
use usb_hid_wireless_bridge.Base.Int.{ℤ, pos, ◌+ℤ◌, ◌-ℤ◌, ◌*ℤ◌, ltb_ℤ, tdiv, int32}

-- int32_t arithmetic
abbrev pub add32 : ℤ → ℤ → ℤ
add32 a b = int32 (a +ℤ b)

abbrev pub sub32 : ℤ → ℤ → ℤ
sub32 a b = int32 (a -ℤ b)

abbrev pub mul32 : ℤ → ℤ → ℤ
mul32 a b = int32 (a *ℤ b)

abbrev pub axis : ℤ → ℤ
axis v = sub32 (tdiv v (pos 1000)) (pos 128)

abbrev pub to_byte : ℤ → ℤ
to_byte v = let w = if ltb_ℤ v (pos 0) then pos 0 else v in if ltb_ℤ (pos 255) w then pos 255 else w

-- `128 + x * 128 * (radius - inner) / span`, cut to a byte, times 1000
unfoldable pub stretch : ℤ → ℤ → ℤ → ℤ → ℤ
stretch x radius inner span =
    let v = add32 (pos 128) (int32 (tdiv (mul32 (mul32 x (pos 128)) (sub32 radius inner)) span)) in
    mul32 (to_byte v) (pos 1000)

-- The two axes after either dead zone; `room` is what is left between the inner and outer zone.
unfoldable pub zoned : ℤ → ℤ → ℤ → ℤ → ℤ → ℤ × ℤ
unfolding stretch
zoned x y radius inner room =
    let span = mul32 radius room in
    if ltb_ℤ radius inner || ltb_ℤ span (pos 1)
    then (pos 128000, pos 128000)
    else (stretch x radius inner span, stretch y radius inner span)

unfoldable pub deadzone_value : (ℤ → ℤ) → ℤ → ℤ → ℤ → ℤ × ℤ
unfolding zoned
deadzone_value sqrt x y zone =
    let a = axis x in
    let b = axis y in
    let inner = tdiv zone (pos 1000) in
    zoned a b (sqrt (add32 (mul32 a a) (mul32 b b))) inner (sub32 (pos 128) inner)

unfoldable pub deadzone2_value : (ℤ → ℤ) → ℤ → ℤ → ℤ → ℤ → ℤ × ℤ
unfolding zoned
deadzone2_value sqrt x y inner_zone outer_zone =
    let a = axis x in
    let b = axis y in
    let inner = tdiv inner_zone (pos 1000) in
    let outer = tdiv outer_zone (pos 1000) in
    zoned a b (sqrt (add32 (mul32 a a) (mul32 b b))) inner (sub32 (sub32 (pos 128) inner) outer)
