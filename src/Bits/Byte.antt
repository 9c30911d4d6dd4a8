-- ===== src/Bits/Byte.antt =====
-- One bit of a byte: reading it, and what writing it does to each bit of the byte.
use usb_hid_wireless_bridge.Base.{
  ℕ, ◌*◌, ◌/◌, ◌%◌, ◌^◌, ◌<◌, Bool, true, false, ◌&&◌, bit_or, bit_and, ◌==◌, ◌≡◌, ap, bit_or,
  bit_and, ◌*◌, ◌-◌, refl, ltb, arith, if◌then◌else◌,
}
use usb_hid_wireless_bridge.Base.Below.{all_below, all_below_holds}
use usb_hid_wireless_bridge.Bits.{put_into}

-- The bits 0 and 1 are the only values of `value` here.
abbrev bit_right : ℕ → ℕ → ℕ → ℕ → Bool
bit_right byte i v j = put_into byte i v / 2 ^ j % 2 == (if j == i then v else byte / 2 ^ j % 2)

abbrev all_right : ℕ → ℕ → Bool
all_right byte i =
    if ltb (put_into byte i 0) 256 && ltb (put_into byte i 1) 256
    then all_below 8 (λ j. bit_right byte i 0 j && bit_right byte i 1 j)
    else false

every_byte : all_below 256 (λ byte. all_below 8 (all_right byte)) ≡ true
unfolding all_below put_into
every_byte = refl

-- For the bits of the table.
put_into_table :
    (byte i j : ℕ)
    → byte < 256
    → i < 8
    → j < 8
    → all_right byte i && (bit_right byte i 0 j && bit_right byte i 1 j) ≡ true
put_into_table byte i j hb hi hj =
    let row = all_below_holds 8 (all_right byte) (all_below_holds 256 _ every_byte byte hb) i hi in
    both row (all_below_holds 8 _ (last row) j hj)
  where
    both : {a b : Bool} → a ≡ true → b ≡ true → a && b ≡ true
    both p q = ground arith

    last :
        all_right byte i ≡ true
        → all_below 8 (λ j. bit_right byte i 0 j && bit_right byte i 1 j) ≡ true
    last p = ground arith

-- Only the lowest bit of the value counts.
put_into_low : (byte i value : ℕ) → put_into byte i value ≡ put_into byte i (value % 2)
unfolding put_into
put_into_low byte i value =
    ap (λ (t : ℕ). bit_or (bit_and byte (255 - 2 ^ i)) (t * 2 ^ i)) (omega arith)

pub put_into-lt : (byte i value : ℕ) → byte < 256 → i < 8 → put_into byte i value < 256
put_into-lt byte i value hb hi =
    let t = put_into_table byte i 0 hb hi (omega arith) in
    grind (arith, put_into_low byte i value, t)

pub put_into-bit :
    (byte i j value : ℕ)
    → byte < 256
    → i < 8
    → j < 8
    → put_into byte i value / 2 ^ j % 2 ≡ (if j == i then value % 2 else byte / 2 ^ j % 2)
put_into-bit byte i j value hb hi hj =
    let t = put_into_table byte i j hb hi hj in grind (arith, put_into_low byte i value, t)
