-- ===== src/Crc/Table.antt =====
-- The table of crc.cc against the division by the polynomial 0xEDB88320.
use usb_hid_wireless_bridge.Base.{
  List, ◌∙◌, ap, ◌+◌, length, ℕ, zero, suc, ◌/◌, ◌%◌, ◌<◌, ◌≡◌, refl, Bool, true, ◌&&◌, bit_xor,
  get_or, ◌==◌, if◌then◌else◌, arith, [], ◌∷◌,
}
use usb_hid_wireless_bridge.Crc.{crc_table, crc32}

-- One step of the division: the bit that is shifted out decides whether the polynomial is added.
abbrev pub divide_bit : ℕ → ℕ
divide_bit c = if c % 2 == 1 then bit_xor (c / 2) 0xedb88320 else c / 2

unfoldable pub divide_byte : ℕ → ℕ
divide_byte c =
    divide_bit
      (divide_bit (divide_bit (divide_bit (divide_bit (divide_bit (divide_bit (divide_bit c)))))))

-- Whether the entries of a table, the first of them number n, are what the division gives.
unfoldable divides : ℕ → List ℕ → Bool
divides n [] = true
divides n (v ∷ vs) = (v == divide_byte n) && divides (n + 1) vs

divides-get :
    (n i : ℕ) (vs : List ℕ)
    → divides n vs ≡ true
    → i < length vs
    → get_or vs i 0 ≡ divide_byte (n + i)
unfolding divides
divides-get n i [] d h = absurd (omega arith)
divides-get n zero (v ∷ vs) d h = ground arith ∙ ap divide_byte {x = n} {y = n + 0} (omega arith)
divides-get n (suc i) (v ∷ vs) d h =
    divides-get (n + 1) i vs (ground arith) (omega arith)
    ∙ ap divide_byte {x = n + 1 + i} {y = n + suc i} (omega arith)

table_divides : divides 0 crc_table ≡ true
unfolding divides divide_byte
table_divides = refl

-- Each of the 256 entries of the table is its own index after eight steps of the division by the
-- reflected CRC-32 polynomial.
pub crc_table_lem : (i : ℕ) → i < 256 → get_or crc_table i 0 ≡ divide_byte i
crc_table_lem i h =
    divides-get 0 i crc_table table_divides h ∙ ap divide_byte {x = 0 + i} {y = i} (omega arith)

-- The check value of CRC-32: the checksum of the text "123456789".
check_value : crc32 (49 ∷ 50 ∷ 51 ∷ 52 ∷ 53 ∷ 54 ∷ 55 ∷ 56 ∷ 57 ∷ []) ≡ 0xcbf43926
unfolding crc32
check_value = refl
