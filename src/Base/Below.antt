-- ===== src/Base/Below.antt =====
-- A test on every number below a bound, by evaluation.
use usb_hid_wireless_bridge.Base.{ℕ, zero, suc, ◌<◌, Bool, true, false, ◌≡◌, if◌then◌else◌, arith}

unfoldable pub all_below : ℕ → (ℕ → Bool) → Bool
all_below zero p = true
all_below (suc n) p = if p n then all_below n p else false

pub all_below_holds : (n : ℕ) (p : ℕ → Bool) → all_below n p ≡ true → (x : ℕ) → x < n → p x ≡ true
unfolding all_below
all_below_holds zero p e x h = absurd (omega arith)
all_below_holds (suc n) p e x h = ground (arith, all_below_holds n p (ground arith) x)
