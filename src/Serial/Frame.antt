-- ===== src/Serial/Frame.antt =====
-- A frame of serial.cc as the receiver sees it.
use usb_hid_wireless_bridge.Base.{
  ℕ, ◌+◌, ◌-◌, ◌/◌, ◌%◌, ◌^◌, ◌≤◌, ◌<◌, ◌≡◌, refl, ap, ap₂, ◌∙◌, false, List, [], ◌∷◌, ◌++◌,
  append_assoc, some, none, length, if◌then◌else◌, arith, update, lt→ltb, ==_iff,
}
use usb_hid_wireless_bridge.Crc.{crc32, crc32-lt}
use usb_hid_wireless_bridge.Serial.{end_code, crc_bytes}
use usb_hid_wireless_bridge.Serial.Order.{escape_all, frame}
use usb_hid_wireless_bridge.Serial.Receive.{
  receive_size, Receiver, prefix, received_crc, handed_over, received_frame, take_byte,
  receive_byte, unless_handed_over, receive,
}
use usb_hid_wireless_bridge.Serial.Bytes.{
  at, receive_next, write_all, receive-escape_all, prefix-update, prefix-write_all,
}

four_written :
    (b c d e n : ℕ) (buffer : ℕ → ℕ)
    → let f =
        update (update (update (update buffer n b) (n + 1) c) (n + 1 + 1) d) (n + 1 + 1 + 1) e in
      (f (n + 4 - 1) ≡ e) × (f (n + 4 - 2) ≡ d) × (f (n + 4 - 3) ≡ c) × (f (n + 4 - 4) ≡ b)
four_written b c d e n buffer = ground arith

-- The checksum that was written is the one that is read back.
received_crc-crc_bytes :
    (crc : ℕ) (buffer : ℕ → ℕ) (n : ℕ)
    → crc < 2 ^ 32
    → received_crc (write_all (crc_bytes crc) buffer n) (n + 4) ≡ crc
unfolding write_all
received_crc-crc_bytes crc buffer n h = omega (
  arith,
  four_written (crc % 256) (crc / 2 ^ 8 % 256) (crc / 2 ^ 16 % 256) (crc / 2 ^ 24 % 256) n buffer,
)

prefix_before :
    (bs : List ℕ) (buffer : ℕ → ℕ) (n i : ℕ)
    → n ≤ i
    → prefix n (write_all bs buffer i) ≡ prefix n buffer
unfolding write_all
prefix_before [] buffer n i h = refl
prefix_before (b ∷ bs) buffer n i h =
    prefix_before bs (update buffer i b) n (i + 1) (omega arith) ∙ prefix-update n i b buffer h

handed_over_lem :
    (bytes got : List ℕ) (crc : ℕ)
    → got ≡ bytes
    → crc ≡ crc32 bytes
    → handed_over got crc ≡ some bytes
handed_over_lem bytes got crc e f =
    ap₂ handed_over e f
    ∙ ap (λ b. if b then some bytes else none) ((==_iff (crc32 bytes) (crc32 bytes)).1 refl)

received_frame_lem :
    (bytes : List ℕ) (buffer : ℕ → ℕ)
    → 0 < length bytes
    → received_frame (
        at
          (write_all (crc_bytes (crc32 bytes)) (write_all bytes buffer 0) (length bytes))
          (length bytes + 4)
          false)
      ≡ some bytes
unfolding received_frame
received_frame_lem bytes buffer h =
    let data_in = write_all bytes buffer 0 in
    let all_in = write_all (crc_bytes (crc32 bytes)) data_in (length bytes) in
    let got =
      handed_over (prefix (length bytes + 4 - 4) all_in) (received_crc all_in (length bytes + 4)) in
    ap (λ b. if b then got else none) (lt→ltb 4 (length bytes + 4) (omega arith))
    ∙ handed_over_lem bytes (prefix (length bytes + 4 - 4) all_in)
        (received_crc all_in (length bytes + 4))
        (ap (λ n. prefix n all_in) {x = length bytes + 4 - 4} {y = length bytes} (omega arith)
          ∙ prefix_before (crc_bytes (crc32 bytes)) data_in (length bytes) (length bytes)
              (omega arith)
          ∙ ap (λ n. prefix n data_in) {x = length bytes} {y = 0 + length bytes} (omega arith)
          ∙ prefix-write_all bytes buffer 0)
        (received_crc-crc_bytes (crc32 bytes) data_in (length bytes) (crc32-lt bytes))

opening_end :
    (rest : List ℕ) (buffer : ℕ → ℕ)
    → receive (end_code ∷ rest) (at buffer 0 false) ≡ receive rest (at buffer 0 false)
unfolding take_byte received_frame
opening_end rest buffer =
    receive_next end_code rest (at buffer 0 false) (at buffer 0 false) (omega arith) refl

closing_end :
    (bytes rest : List ℕ) (buffer : ℕ → ℕ) (n : ℕ)
    → n < receive_size
    → received_frame (at buffer n false) ≡ some bytes
    → receive (end_code ∷ rest) (at buffer n false) ≡ (some bytes, rest, at buffer 0 false)
unfolding receive receive_byte take_byte
closing_end bytes rest buffer n h e =
    ap (λ x. unless_handed_over x rest (receive rest x.1))
      (ap (λ k. take_byte end_code (at buffer k false)) {x = n % receive_size} {y = n} (omega arith)
        ∙ ap (λ x. (x, at buffer 0 false)) e)

regroup :
    (xs ys rest : List ℕ) (c : ℕ) → (xs ++ (ys ++ (c ∷ []))) ++ rest ≡ xs ++ (ys ++ (c ∷ rest))
regroup xs ys rest c =
    append_assoc xs (ys ++ (c ∷ [])) rest ∙ ap (λ l. xs ++ l) (append_assoc ys (c ∷ []) rest)

receive-frame_at :
    (bytes rest : List ℕ) (buffer : ℕ → ℕ)
    → 0 < length bytes
    → length bytes ≤ 539
    → receive (frame bytes ++ rest) (at buffer 0 false) ≡ (
      some bytes,
      rest,
      at (write_all (crc_bytes (crc32 bytes)) (write_all bytes buffer 0) (length bytes)) 0 false,
    )
unfolding frame
receive-frame_at bytes rest buffer h k =
    let checksum = crc_bytes (crc32 bytes) in
    let data_in = write_all bytes buffer 0 in
    opening_end _ buffer
    ∙ ap (λ l. receive l (at buffer 0 false))
        (regroup (escape_all bytes) (escape_all checksum) rest end_code)
    ∙ receive-escape_all bytes (escape_all checksum ++ (end_code ∷ rest)) buffer 0 (omega arith)
    ∙ ap (λ n. receive (escape_all checksum ++ (end_code ∷ rest)) (at data_in n false))
        {x = 0 + length bytes} {y = length bytes} (omega arith)
    ∙ receive-escape_all checksum (end_code ∷ rest) data_in (length bytes) (omega arith)
    ∙ closing_end bytes rest (write_all checksum data_in (length bytes)) (length bytes + 4)
        (omega arith) (received_frame_lem bytes buffer h)

-- A frame of 1 to 539 bytes, read by a receiver that is between two frames, is handed to the callback
-- byte for byte, at its last byte and not before; what follows it is left for the next call, and the
-- receiver is between two frames again.
pub receive-frame :
    (bytes rest : List ℕ) (r : Receiver)
    → 0 < length bytes
    → length bytes ≤ 539
    → r.bytes_read ≡ 0
    → r.escaped ≡ false
    → let (given, left, q) = receive (frame bytes ++ rest) r in
      (given ≡ some bytes) × (left ≡ rest) × (q.bytes_read ≡ 0) × (q.escaped ≡ false)
receive-frame bytes rest r h k e f =
    let p =
      ap₂ (λ n x. receive (frame bytes ++ rest) (at r.buffer n x)) e f
      ∙ receive-frame_at bytes rest r.buffer h k in
    (ap (λ t. t.0) p, ap (λ t. t.1) p, ap (λ t. t.2.bytes_read) p, ap (λ t. t.2.escaped) p)
