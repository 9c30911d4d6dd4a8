-- ===== src/Serial/Receive.antt =====
-- The receiving half of `serial_read`: bytes are collected into a buffer until an END, and the frame
-- is handed over if its checksum is right.
use usb_hid_wireless_bridge.Base.{
  ℕ, zero, suc, ◌+◌, ◌-◌, ◌*◌, ◌%◌, ◌^◌, Bool, true, false, List, [], ◌∷◌, ◌++◌, Option, none, some,
  ltb, ◌==◌, if◌then◌else◌, update,
}
use usb_hid_wireless_bridge.Crc.{crc32}
use usb_hid_wireless_bridge.Serial.{end_code, esc, esc_end, esc_esc}

-- `sizeof(buffer)`: SERIAL_MAX_PAYLOAD_SIZE + 32
abbrev pub receive_size : ℕ
receive_size = 544

pub record Receiver : Type 0 where
  pub buffer : ℕ → ℕ
  pub bytes_read : ℕ
  pub escaped : Bool

-- `buffer[bytes_read++] = c`
unfoldable pub store_byte : ℕ → Receiver → Receiver
store_byte c r = record {
  buffer = update r.buffer r.bytes_read c;
  bytes_read = r.bytes_read + 1;
  escaped = r.escaped;
}

-- The first n bytes of a buffer.
abbrev pub prefix : ℕ → (ℕ → ℕ) → List ℕ
prefix zero buffer = []
prefix (suc n) buffer = prefix n buffer ++ (buffer n ∷ [])

-- `received_crc`, a uint32_t
abbrev pub received_crc : (ℕ → ℕ) → ℕ → ℕ
received_crc buffer n =
    (((buffer (n - 1) * 2 ^ 8 + buffer (n - 2)) * 2 ^ 8 + buffer (n - 3)) * 2 ^ 8 + buffer (n - 4))
    % 2 ^ 32

-- The byte behind ESC.
abbrev pub unescape : ℕ → ℕ
unescape c = if c == esc_end then end_code else if c == esc_esc then esc else c

abbrev pub handed_over : List ℕ → ℕ → Option (List ℕ)
handed_over bytes crc = if crc32 bytes == crc then some bytes else none

-- An END: what is handed to the callback.
unfoldable pub received_frame : Receiver → Option (List ℕ)
received_frame r =
    if ltb 4 r.bytes_read
    then handed_over (prefix (r.bytes_read - 4) r.buffer) (received_crc r.buffer r.bytes_read)
    else none

unfoldable pub take_byte : ℕ → Receiver → Option (List ℕ) × Receiver
take_byte c r =
    if r.escaped
    then (none, record (store_byte (unescape c) r) { escaped = false })
    else if c == end_code
    then (received_frame r, record r { bytes_read = 0 })
    else if c == esc
    then (none, record r { escaped = true })
    else (none, store_byte c r)

-- One byte from the UART, and what is handed to the callback.
unfoldable pub receive_byte : ℕ → Receiver → Option (List ℕ) × Receiver
receive_byte c r = take_byte c (record r { bytes_read = r.bytes_read % receive_size })

-- The loop ends where a frame is handed over.
abbrev pub unless_handed_over :
    Option (List ℕ) × Receiver
    → List ℕ
    → Option (List ℕ) × List ℕ × Receiver
    → Option (List ℕ) × List ℕ × Receiver
unless_handed_over (some frame, r) cs more = (some frame, cs, r)
unless_handed_over (none, r) cs more = more

-- The second loop of `serial_read` on the bytes that the UART has: it ends when they are used up or
-- when a frame is handed over, whose callback's answer `serial_read` returns. The result is the
-- frame, the bytes left and the receiver.
unfoldable pub receive : List ℕ → Receiver → Option (List ℕ) × List ℕ × Receiver
receive [] r = (none, [], r)
receive (c ∷ cs) r = unless_handed_over (receive_byte c r) cs (receive cs (receive_byte c r).1)

abbrev pub answer : (List ℕ → Bool) → Option (List ℕ) → Bool
answer callback none = false
answer callback (some frame) = callback frame
