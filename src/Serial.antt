-- ===== src/Serial.antt =====
-- The serial link between the two boards, serial.cc: frames of SLIP with a checksum, a ring of bytes
-- that wait for the UART, and the receiver.
use usb_hid_wireless_bridge.Base.{
  ℕ, zero, suc, ◌+◌, ◌-◌, ◌*◌, ◌/◌, ◌%◌, ◌^◌, Bool, true, false, ◌&&◌, ◌||◌, List, [], ◌∷◌, ◌++◌,
  length, Option, none, some, ltb, ◌==◌, if◌then◌else◌, not,
}
use usb_hid_wireless_bridge.Crc.{crc32}
use usb_hid_wireless_bridge.Ring.{Ring, put, drop_first, first}
pub mod Receive
pub mod Order
pub mod Write
pub mod Bytes
pub mod Frame
pub mod Tests

abbrev pub buffer_size : ℕ
buffer_size = 512

-- END, ESC, ESC_END and ESC_ESC
abbrev pub end_code : ℕ
end_code = 0xc0

abbrev pub esc : ℕ
esc = 0xdb

abbrev pub esc_end : ℕ
esc_end = 0xdc

abbrev pub esc_esc : ℕ
esc_esc = 0xdd

-- `(crc >> (i * 8)) & 0xFF` for i = 0 .. 3
abbrev pub crc_bytes : ℕ → List ℕ
crc_bytes crc = crc % 256 ∷ crc / 2 ^ 8 % 256 ∷ crc / 2 ^ 16 % 256 ∷ crc / 2 ^ 24 % 256 ∷ []

abbrev pub is_escaped : ℕ → Bool
is_escaped b = (b == end_code) || (b == esc)

abbrev pub count_escaped : List ℕ → ℕ
count_escaped [] = 0
count_escaped (b ∷ bs) = if is_escaped b then count_escaped bs + 1 else count_escaped bs

-- `bytes_to_send`, a uint16_t
abbrev pub bytes_to_send : List ℕ → ℕ → ℕ
bytes_to_send bytes crc =
    (length bytes + 2 + 4 + count_escaped bytes + count_escaped (crc_bytes crc)) % 2 ^ 16

-- The outgoing ring, the bytes that the UART has been given, oldest first, and the number of times
-- that it has been asked whether it is writable (or would have been).
pub record Sender : Type 0 where
  pub buffer : Ring ℕ
  pub wire : List ℕ
  pub asked : ℕ

-- `writable n` is the UART's answer to the question number `n`.
module _ (writable : ℕ → Bool) where
  unfoldable pub my_putc : ℕ → Sender → Sender
  my_putc c s =
      let now = writable s.asked in
      if (s.buffer.items == 0) && now
      then record s { wire = s.wire ++ (c ∷ []); asked = s.asked + 1 }
      else if ltb s.buffer.items buffer_size
      then record s { buffer = put buffer_size c s.buffer; asked = s.asked + 1 }
      else record {
        buffer = put buffer_size c (drop_first buffer_size s.buffer);
        wire = s.wire ++ (first s.buffer ∷ []);
        asked = s.asked + 1;
      }

  unfoldable pub send_escaped_byte : ℕ → Sender → Sender
  send_escaped_byte b s =
      if b == end_code
      then my_putc esc_end (my_putc esc s)
      else if b == esc
      then my_putc esc_esc (my_putc esc s)
      else my_putc b s

  unfoldable pub send_bytes : List ℕ → Sender → Sender
  send_bytes [] s = s
  send_bytes (b ∷ bs) s = send_bytes bs (send_escaped_byte b s)

  -- END, the escaped bytes, the escaped checksum, END
  unfoldable pub send_frame : List ℕ → ℕ → Sender → Sender
  send_frame bytes crc s =
      my_putc end_code (send_bytes (crc_bytes crc) (send_bytes bytes (my_putc end_code s)))

  unfoldable pub serial_write : List ℕ → Bool → Sender → Bool × Sender
  serial_write bytes drop_if_blocking s =
      let crc = crc32 bytes in
      if drop_if_blocking && ltb (buffer_size - s.buffer.items) (bytes_to_send bytes crc)
      then (false, s)
      else (true, send_frame bytes crc s)

  unfoldable pub serial_write_nonblocking : List ℕ → Sender → Bool × Sender
  serial_write_nonblocking bytes s = serial_write bytes true s

  -- The first loop of `serial_read`: at most as many rounds as there are items.
  unfoldable pub drain : ℕ → Sender → Sender
  drain zero s = s
  drain (suc n) s =
      let rest = drain n (record {
        buffer = drop_first buffer_size s.buffer;
        wire = s.wire ++ (first s.buffer ∷ []);
        asked = s.asked + 1;
      }) in
      if (s.buffer.items == 0) || not (writable s.asked) then s else rest
