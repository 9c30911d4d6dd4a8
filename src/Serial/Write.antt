-- ===== src/Serial/Write.antt =====
-- `serial_write` of serial.cc as a whole: when it sends, and what.
use usb_hid_wireless_bridge.Base.{
  ℕ, ◌+◌, ◌-◌, ◌≤◌, ◌<◌, ◌≡◌, refl, Bool, true, false, ◌&&◌, List, [], ◌∷◌, ◌++◌, length,
  length-append, ltb→lt, ltb, if◌then◌else◌, arith, inl, inr, ◌⊎◌,
}
use usb_hid_wireless_bridge.Crc.{crc32}
use usb_hid_wireless_bridge.Ring.{IsRing}
use usb_hid_wireless_bridge.Serial.{
  buffer_size, end_code, Sender, send_frame, serial_write, crc_bytes, bytes_to_send, count_escaped,
}
use usb_hid_wireless_bridge.Serial.Order.{escape_all, frame, Gives, send_frame-Gives}

length-escape_all : (bs : List ℕ) → length (escape_all bs) ≡ length bs + count_escaped bs
length-escape_all [] = refl
length-escape_all (b ∷ bs) = ground (arith, length-escape_all bs)

length-frame :
    (bytes : List ℕ)
    → length (frame bytes)
      ≡ length bytes + 2 + 4 + count_escaped bytes + count_escaped (crc_bytes (crc32 bytes))
unfolding frame
length-frame bytes = omega (
  arith,
  length-append (escape_all bytes) (escape_all (crc_bytes (crc32 bytes)) ++ (end_code ∷ [])),
  length-append (escape_all (crc_bytes (crc32 bytes))) (end_code ∷ []),
  length-escape_all bytes,
  length-escape_all (crc_bytes (crc32 bytes)),
)

count_escaped-le : (bs : List ℕ) → count_escaped bs ≤ length bs
count_escaped-le [] = omega arith
count_escaped-le (b ∷ bs) = ground (arith, count_escaped-le bs)

bytes_to_send_lem :
    (bytes : List ℕ)
    → length bytes ≤ 30000
    → bytes_to_send bytes (crc32 bytes) ≡ length (frame bytes)
bytes_to_send_lem bytes h =
    omega (
      arith,
      length-frame bytes,
      count_escaped-le bytes,
      count_escaped-le (crc_bytes (crc32 bytes)),
    )

abbrev dropped_or : Bool → Sender → Sender → Bool × Sender
dropped_or b s t = if b then (false, s) else (true, t)

-- Whatever the UART answers, `serial_write` either puts the whole frame of its bytes, in order and
-- with nothing in between, behind all that was sent before it, and answers true; or it was asked
-- not to block, the frame does not fit into the ring, and it changes nothing and answers false.
-- (A message that may be dropped has at most 30000 bytes.)
pub serial_write-Gives :
    (writable : ℕ → Bool) (bytes : List ℕ) (drop_if_blocking : Bool) (s : Sender)
    → IsRing buffer_size s.buffer
    → length bytes ≤ 30000
    → let (ok, t) = serial_write writable bytes drop_if_blocking s in
      ((ok ≡ true) × Gives s (frame bytes) t)
      ⊎ ((ok ≡ false)
          × (drop_if_blocking ≡ true)
          × (t ≡ s)
          × (buffer_size < length (frame bytes) + s.buffer.items))
unfolding serial_write
serial_write-Gives writable bytes drop_if_blocking s v h =
    by_case drop_if_blocking
      (ltb (buffer_size - s.buffer.items) (bytes_to_send bytes (crc32 bytes))) refl
  where
    given : Gives s (frame bytes) (send_frame writable bytes (crc32 bytes) s)
    given = send_frame-Gives writable bytes s v

    by_case :
        (d full : Bool)
        → ltb (buffer_size - s.buffer.items) (bytes_to_send bytes (crc32 bytes)) ≡ full
        → let (ok, t) = dropped_or (d && full) s (send_frame writable bytes (crc32 bytes) s) in
          ((ok ≡ true) × Gives s (frame bytes) t)
          ⊎ ((ok ≡ false)
              × (d ≡ true)
              × (t ≡ s)
              × (buffer_size < length (frame bytes) + s.buffer.items))
    by_case false full e = inl (refl, given)
    by_case true false e = inl (refl, given)
    by_case true true e =
        inr (refl, refl, refl, omega (arith, ltb→lt _ _ e, bytes_to_send_lem bytes h))
