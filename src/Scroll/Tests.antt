-- ===== src/Scroll/Tests.antt =====
-- A wheel of 120 steps for each notch, at half a notch and more.
use usb_hid_wireless_bridge.Base.{false, ◌≡◌, refl, arith}
use usb_hid_wireless_bridge.Base.Int.{pos, negsuc, ◌+ℤ◌, ◌*ℤ◌, ◌-ℤ◌, uint32, int32, tdiv}
use usb_hid_wireless_bridge.Scroll.{Source, left_over, ticks, handle_scroll}
use usb_hid_wireless_bridge.Scroll.Notches.{IsPart, carried, handle_scroll-IsPart}

abbrev half : Source
half = record { accumulated_scroll = pos 60000; last_scroll_timestamp = 5000 }

test_notch :
    handle_scroll false 1000000 6000 (pos 200000) half
    ≡ (pos 2000, record { accumulated_scroll = pos 20000; last_scroll_timestamp = 6000 })
unfolding handle_scroll left_over ticks int32 uint32 tdiv ◌+ℤ◌ ◌*ℤ◌ ◌-ℤ◌
test_notch = refl

test_pause :
    handle_scroll false 1000000 2000000 (negsuc 59999) half
    ≡ (pos 0, record { accumulated_scroll = negsuc 59999; last_scroll_timestamp = 2000000 })
unfolding handle_scroll left_over ticks int32 uint32 tdiv ◌+ℤ◌ ◌*ℤ◌ ◌-ℤ◌
test_pause = refl

handle_scroll-IsPart_example :
    let r = handle_scroll false 1000000 6000 (pos 200000) half in
    (r.0 *ℤ pos 120 +ℤ r.1.accumulated_scroll ≡ carried 1000000 1000 half +ℤ pos 200000)
    × IsPart r.1.accumulated_scroll
handle_scroll-IsPart_example =
    handle_scroll-IsPart 1000000 6000 1000 (pos 200000) half (omega arith) (omega arith)
      (omega arith, omega arith) (omega arith, omega arith)
