-- ===== src/Scroll/Notches.antt =====
-- No movement of a wheel is lost between two notches.
use usb_hid_wireless_bridge.Base.{
  ℕ, ◌+◌, ◌-◌, ◌^◌, ◌<◌, leb, if◌then◌else◌, false, ◌≡◌, ap, ap₂, subst, sym, ◌∙◌, arith,
}
use usb_hid_wireless_bridge.Base.Int.{
  ℤ, pos, negsuc, ◌+ℤ◌, ◌-ℤ◌, ◌*ℤ◌, ◌≤ℤ◌, tdiv, int32, int32_fits,
}
use usb_hid_wireless_bridge.Scroll.{Source, notch, left_over, ticks, handle_scroll}

-- Less than a notch, either way.
abbrev pub IsPart : ℤ → Type 0
IsPart z = (negsuc 119998 ≤ℤ z) × (z ≤ℤ pos 119999)

-- A movement that a wheel can report at once.
abbrev pub Moderate : ℤ → Type 0
Moderate z = (negsuc (2 ^ 30) ≤ℤ z) × (z ≤ℤ pos (2 ^ 30))

left_over-IsPart :
    (timeout now : ℕ) (s : Source) → IsPart s.accumulated_scroll → IsPart (left_over timeout now s)
unfolding left_over
left_over-IsPart timeout now s h = ground arith

-- Division by the size of a notch.
divided :
    (a : ℤ)
    → (ticks a *ℤ pos notch +ℤ (a -ℤ ticks a *ℤ pos notch) ≡ a) × IsPart (a -ℤ ticks a *ℤ pos notch)
unfolding ticks tdiv ◌*ℤ◌ ◌+ℤ◌ ◌-ℤ◌
divided (pos n) = ground arith
divided (negsuc n) = ground arith

abbrev Small : ℤ → Type 0
Small z = (negsuc (2 ^ 31 - 1) ≤ℤ z) × (z ≤ℤ pos (2 ^ 31 - 1))

-- The products and the remainder fit 32 bits if the sum does.
products-Small :
    (a : ℤ)
    → Small a
    → Small (ticks a *ℤ pos notch) × Small (ticks a *ℤ pos 1000) × Small (a -ℤ ticks a *ℤ pos notch)
unfolding ticks tdiv ◌*ℤ◌ ◌-ℤ◌
products-Small (pos n) h = ground arith
products-Small (negsuc n) h = ground arith

same_movement : (a : ℤ) → (ticks a *ℤ pos 1000) *ℤ pos 120 ≡ ticks a *ℤ pos notch
unfolding ticks tdiv ◌*ℤ◌
same_movement (pos n) = ground arith
same_movement (negsuc n) = ground arith

sum-Small : (x m : ℤ) → IsPart x → Moderate m → Small (x +ℤ m)
unfolding ◌+ℤ◌
sum-Small x m h k = ground arith

fits : (z : ℤ) → Small z → int32 z ≡ z
fits z h = int32_fits z h.0 h.1

-- What was kept before, if the pause since was no longer than the timeout.
abbrev pub carried : ℕ → ℕ → Source → ℤ
carried timeout pause s = if leb pause timeout then s.accumulated_scroll else pos 0

left_over-carried :
    (timeout now pause : ℕ) (s : Source)
    → now ≡ s.last_scroll_timestamp + pause
    → now < 2 ^ 64
    → left_over timeout now s ≡ carried timeout pause s
unfolding left_over
left_over-carried timeout now pause s e h = ground arith

-- Without hi-res scrolling, for a movement of at most 2^30 either way, less than a notch kept before,
-- and a clock below 2^64 that has gone on by `pause` since the last movement: the notches that the
-- host gets and what is kept for later make up the movement and what was kept before, which counts
-- only if the pause was no longer than the timeout; and less than a notch is kept.
pub handle_scroll-IsPart :
    (timeout now pause : ℕ) (movement : ℤ) (s : Source)
    → now ≡ s.last_scroll_timestamp + pause
    → now < 2 ^ 64
    → IsPart s.accumulated_scroll
    → Moderate movement
    → let r = handle_scroll false timeout now movement s in
      (r.0 *ℤ pos 120 +ℤ r.1.accumulated_scroll ≡ carried timeout pause s +ℤ movement)
      × IsPart r.1.accumulated_scroll
unfolding handle_scroll
handle_scroll-IsPart timeout now pause movement s t b h k =
    let small = sum-Small (left_over timeout now s) movement (left_over-IsPart timeout now s h) k in
    let (sum, part) = subst (Good a) (sym (fits a small)) (exact a small) in
    (sum ∙ ap (λ (z : ℤ). z +ℤ movement) (left_over-carried timeout now pause s t b), part)
  where
    a : ℤ
    a = left_over timeout now s +ℤ movement

    Good : ℤ → ℤ → Type 0
    Good b c =
        (int32 (ticks c *ℤ pos 1000) *ℤ pos 120 +ℤ int32 (c -ℤ int32 (ticks c *ℤ pos notch)) ≡ b)
        × IsPart (int32 (c -ℤ int32 (ticks c *ℤ pos notch)))

    exact : (b : ℤ) → Small b → Good b b
    exact b small =
        let p = products-Small b small in
        let kept =
          ap (λ (z : ℤ). int32 (b -ℤ z)) (fits (ticks b *ℤ pos notch) p.0)
          ∙ fits (b -ℤ ticks b *ℤ pos notch) p.2 in
        let d = divided b in
        (
          ap₂ (λ (x y : ℤ). x *ℤ pos 120 +ℤ y) (fits (ticks b *ℤ pos 1000) p.1) kept
              ∙ ap (λ (x : ℤ). x +ℤ (b -ℤ ticks b *ℤ pos notch)) (same_movement b)
              ∙ d.0,
          subst IsPart (sym kept) d.1,
        )
