-- ===== src/Bits.antt =====
-- Fields of a report, at any bit position: `get_bit`, `get_bits`, `put_bit` and `put_bits` of
-- remapper.cc and `sign_extend_hid_value` of hid_report_bits.h. A report is the list of its bytes,
-- so that `len` is its length.
use usb_hid_wireless_bridge.Base.{
  ℕ, zero, suc, ◌+◌, ◌-◌, ◌*◌, ◌/◌, ◌%◌, ◌^◌, List, ◌||◌, length, get_or, set, bit_and, bit_or, ltb,
  leb, ◌==◌, if◌then◌else◌,
}
use usb_hid_wireless_bridge.Base.Int.{ℤ, signed32}
pub mod Byte
pub mod Fields
pub mod RoundTrip
pub mod Signed
pub mod Tests

unfoldable pub get_bit : List ℕ → ℕ → ℕ
get_bit bytes bitpos =
    if ltb (bitpos / 8) (length bytes)
    then if bit_and (get_or bytes (bitpos / 8) 0) (2 ^ (bitpos % 8)) == 0 then 0 else 1
    else 0

-- `bitpos + i` is passed on as a uint16_t. For each i the bit is put into `value` at i.
unfoldable pub get_bits : List ℕ → ℕ → ℕ → ℕ
get_bits bytes bitpos zero = 0
get_bits bytes bitpos (suc i) =
    bit_or (get_bits bytes bitpos i) (get_bit bytes ((bitpos + i) % 2 ^ 16) * 2 ^ i % 2 ^ 32)

-- The byte with its bit `bit_no` as the lowest bit of `value`.
unfoldable pub put_into : ℕ → ℕ → ℕ → ℕ
put_into byte bit_no value = bit_or (bit_and byte (255 - 2 ^ bit_no)) (value % 2 * 2 ^ bit_no)

unfoldable pub put_bit : List ℕ → ℕ → ℕ → List ℕ
put_bit bytes bitpos value =
    if ltb (bitpos / 8) (length bytes)
    then set bytes (bitpos / 8) (put_into (get_or bytes (bitpos / 8) 0) (bitpos % 8) value)
    else bytes

unfoldable pub put_bits : List ℕ → ℕ → ℕ → ℕ → List ℕ
put_bits bytes bitpos zero value = bytes
put_bits bytes bitpos (suc i) value =
    put_bit (put_bits bytes bitpos i value) ((bitpos + i) % 2 ^ 16) (value / 2 ^ i % 2)

unfoldable pub sign_extend_hid_value : ℕ → ℕ → ℤ
sign_extend_hid_value value size =
    if (size == 0) || leb 32 size
    then signed32 value
    else if bit_and value (2 ^ (size - 1)) == 0
    then signed32 value
    else signed32 (bit_or value (2 ^ 32 - 2 ^ size))
