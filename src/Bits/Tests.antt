-- ===== src/Bits/Tests.antt =====
-- Fields of a report that cross a byte.
use usb_hid_wireless_bridge.Base.{ℕ, List, [], ◌∷◌, ◌%◌, ◌^◌, ◌≡◌, refl, arith}
use usb_hid_wireless_bridge.Base.Int.{negsuc}
use usb_hid_wireless_bridge.Bits.{
  get_bit, get_bits, put_into, put_bit, put_bits, sign_extend_hid_value,
}
use usb_hid_wireless_bridge.Bits.Fields.{IsBytes, all_bytes-IsBytes}
use usb_hid_wireless_bridge.Bits.RoundTrip.{get_bits-put_bits}

abbrev report : List ℕ
report = 0xff ∷ 0x00 ∷ 0xa5 ∷ []

report-IsBytes : IsBytes report
report-IsBytes = all_bytes-IsBytes report refl

test_put : put_bits report 4 12 0xabc ≡ 0xcf ∷ 0xab ∷ 0xa5 ∷ []
unfolding put_bits put_bit put_into
test_put = refl

test_get : get_bits report 12 8 ≡ 0x50
unfolding get_bits get_bit
test_get = refl

test_sign : sign_extend_hid_value 0xffe 12 ≡ negsuc 1
unfolding sign_extend_hid_value
test_sign = refl

get_bits-put_bits_example : get_bits (put_bits report 4 12 0xffabc) 4 12 ≡ 0xffabc % 2 ^ 12
get_bits-put_bits_example =
    get_bits-put_bits report 4 12 0xffabc report-IsBytes
      record { inside = omega arith; addressed = omega arith } (omega arith)
