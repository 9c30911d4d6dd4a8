-- ===== src/Serial/Tests.antt =====
-- Runs of the serial link on concrete bytes.
use usb_hid_wireless_bridge.Base.{
  ℕ, ◌+◌, ◌<◌, ◌≡◌, refl, ◌⊎◌, Bool, true, false, [], ◌∷◌, ◌++◌, length, some, arith, get_or, ◌%◌,
  ◌==◌,
}
use usb_hid_wireless_bridge.Crc.Table.{crc_table_lem, divide_byte}
use usb_hid_wireless_bridge.Crc.{crc_table}
use usb_hid_wireless_bridge.Ring.{IsRing}
use usb_hid_wireless_bridge.Serial.Order.{frame, Gives}
use usb_hid_wireless_bridge.Serial.Write.{serial_write-Gives}
use usb_hid_wireless_bridge.Serial.Frame.{receive-frame}
use usb_hid_wireless_bridge.Serial.Receive.{Receiver, receive}
use usb_hid_wireless_bridge.Serial.{buffer_size, Sender, serial_write}

-- Two bytes wait in the ring; the UART takes every second byte.
abbrev waiting : Sender
waiting = record {
  buffer = record { cells = λ i. i + 1; head = 511; tail = 1; items = 2 };
  wire = 7 ∷ [];
  asked = 0;
}

abbrev every_second : ℕ → Bool
every_second n = n % 2 == 1

waiting-IsRing : IsRing buffer_size waiting.buffer
waiting-IsRing = record { head_in = omega arith; items_in = omega arith; tail_at = refl }

serial_write-Gives_example :
    let (ok, t) = serial_write every_second (0xc0 ∷ 5 ∷ []) true waiting in
    ((ok ≡ true) × Gives waiting (frame (0xc0 ∷ 5 ∷ [])) t)
    ⊎ ((ok ≡ false)
        × (true ≡ true)
        × (t ≡ waiting)
        × (buffer_size < length (frame (0xc0 ∷ 5 ∷ [])) + 2))
serial_write-Gives_example =
    serial_write-Gives every_second (0xc0 ∷ 5 ∷ []) true waiting waiting-IsRing (omega arith)

abbrev quiet : Receiver
quiet = record { buffer = λ i. 0; bytes_read = 0; escaped = false }

receive-frame_example :
    let (given, left, q) = receive (frame (0xc0 ∷ 0xdb ∷ 5 ∷ []) ++ (1 ∷ [])) quiet in
    (given ≡ some (0xc0 ∷ 0xdb ∷ 5 ∷ []))
    × (left ≡ 1 ∷ [])
    × (q.bytes_read ≡ 0)
    × (q.escaped ≡ false)
receive-frame_example =
    receive-frame (0xc0 ∷ 0xdb ∷ 5 ∷ []) (1 ∷ []) quiet (omega arith) (omega arith) refl refl

crc_table_example : get_or crc_table 200 0 ≡ divide_byte 200
crc_table_example = crc_table_lem 200 (omega arith)
