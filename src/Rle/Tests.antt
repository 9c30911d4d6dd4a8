-- ===== src/Rle/Tests.antt =====
-- Ranges that overlap, touch and stand alone.
use usb_hid_wireless_bridge.Base.{List, [], ◌∷◌, ◌≡◌, refl, arith}
use usb_hid_wireless_bridge.Rle.{Range, encode, rlencode}
use usb_hid_wireless_bridge.Rle.Covers.{
  in_runs, in_ranges, Ascending, no_more, one_more, in_runs-rlencode,
}

abbrev ranges : List Range
ranges =
    record { usage_minimum = 5; usage_maximum = 9 }
    ∷ record { usage_minimum = 7; usage_maximum = 8 }
    ∷ record { usage_minimum = 10; usage_maximum = 12 }
    ∷ record { usage_minimum = 20; usage_maximum = 20 }
    ∷ []

test_runs :
    rlencode ranges ≡ record { usage = 5; count = 8 } ∷ record { usage = 20; count = 1 } ∷ []
unfolding rlencode encode
test_runs = refl

ranges-Ascending : Ascending 1 ranges
ranges-Ascending = one_more (omega arith) (omega arith) (omega arith) (
    one_more (omega arith) (omega arith) (omega arith) (
      one_more (omega arith) (omega arith) (omega arith)
        (one_more (omega arith) (omega arith) (omega arith) no_more)))

in_runs-rlencode_example : in_runs 11 (rlencode ranges) ≡ in_ranges 11 ranges
in_runs-rlencode_example = in_runs-rlencode 11 ranges ranges-Ascending
