-- ===== src/Boards/Meaning.antt =====
-- What one board sends is what the other board's callback takes it for.
use usb_hid_wireless_bridge.Base.{
  ℕ, ◌+◌, ◌*◌, ◌/◌, ◌%◌, ◌^◌, ◌<◌, ◌≡◌, refl, ap, ap₂, ◌∙◌, bit_or, Bool, true, false, List, [],
  ◌∷◌, some, arith,
}
use usb_hid_wireless_bridge.Base.Digits.{bit_or_above, bit_or_comm}
use usb_hid_wireless_bridge.Packed.{◌>>=◌}
use usb_hid_wireless_bridge.Packed.RoundTrip.{u16_back}
use usb_hid_wireless_bridge.OutReport.{
  output, set_feature, do_queue_out_report, do_queue_get_report,
}
use usb_hid_wireless_bridge.Boards.{
  FromB, descriptor_received, umount, hid_report, request_b_init, start_of_frame, get_report,
  set_report_complete, midi_packet, sent_by_b, CallOfA, parse_descriptor, device_connected_callback,
  device_disconnected_callback, handle_received_report, handle_get_report_response,
  handle_set_report_complete, handle_received_midi, add_tick_alarm, serial_write, interface_of,
  serial_callback_a, result_of, FromA, queue_out_report, queue_set_feature_report,
  queue_get_feature_report, send_b_init, interval_override_updated, sent_by_a, BoardB,
  serial_callback_b,
}

-- Board A numbers the interface of a device by the address and the instance.
abbrev pub number_of : ℕ → ℕ → ℕ
number_of dev_addr instance_number = dev_addr * 2 ^ 8 + instance_number

-- The arguments are values of their C types; a MIDI packet has four bytes.
abbrev pub IsSent : FromB → Type 0
IsSent (descriptor_received vid pid report_descriptor interface hub_port itf_num) =
    (vid < 2 ^ 16) × (pid < 2 ^ 16) × (interface < 2 ^ 16) × (hub_port < 2 ^ 8) × (itf_num < 2 ^ 8)
IsSent (umount dev_addr instance_number) = (dev_addr < 2 ^ 8) × (instance_number < 2 ^ 8)
IsSent (hid_report dev_addr instance_number report) = (dev_addr < 2 ^ 8) × (instance_number < 2 ^ 8)
IsSent request_b_init = ◌≡◌ {A = ℕ} 0 0
IsSent start_of_frame = ◌≡◌ {A = ℕ} 0 0
IsSent (get_report dev_addr interface report_id report) =
    (dev_addr < 2 ^ 8) × (interface < 2 ^ 8) × (report_id < 2 ^ 8)
IsSent (set_report_complete dev_addr interface report_id) =
    (dev_addr < 2 ^ 8) × (interface < 2 ^ 8) × (report_id < 2 ^ 8)
IsSent (midi_packet hub_port msg) =
    (hub_port < 2 ^ 8) × (a : ℕ) × (b : ℕ) × (c : ℕ) × (d : ℕ) × (msg ≡ a ∷ b ∷ c ∷ d ∷ [])

-- What a message of board B means on board A: what its callback returns, and what it calls.
unfoldable pub meaning_on_a : ℕ → FromB → Bool × List CallOfA
meaning_on_a interval_override
      (descriptor_received vid pid report_descriptor interface hub_port itf_num) =
    (
      false,
      parse_descriptor vid pid report_descriptor interface itf_num
          ∷ device_connected_callback interface vid pid hub_port
          ∷ [],
    )
meaning_on_a interval_override (umount dev_addr instance_number) =
    (false, device_disconnected_callback dev_addr ∷ [])
meaning_on_a interval_override (hid_report dev_addr instance_number report) =
    (true, handle_received_report report (number_of dev_addr instance_number) ∷ [])
meaning_on_a interval_override request_b_init =
    (false, serial_write (sent_by_a (send_b_init interval_override)) ∷ [])
meaning_on_a interval_override start_of_frame = (false, add_tick_alarm ∷ [])
meaning_on_a interval_override (get_report dev_addr interface report_id report) =
    (false, handle_get_report_response (number_of dev_addr interface) report_id report ∷ [])
meaning_on_a interval_override (set_report_complete dev_addr interface report_id) =
    (false, handle_set_report_complete (number_of dev_addr interface) report_id ∷ [])
meaning_on_a interval_override (midi_packet hub_port msg) =
    (true, handle_received_midi hub_port msg ∷ [])

interface_of_lem :
    (dev_addr interface : ℕ)
    → dev_addr < 2 ^ 8
    → interface < 2 ^ 8
    → interface_of dev_addr interface ≡ number_of dev_addr interface
interface_of_lem dev_addr interface h k =
    ap (λ (n : ℕ). bit_or n interface) {x = dev_addr * 2 ^ 8 % 2 ^ 16} {y = dev_addr * 2 ^ 8}
      (omega arith)
    ∙ bit_or_comm (dev_addr * 2 ^ 8) interface
    ∙ bit_or_above 8 interface dev_addr k
    ∙ omega arith

byte_lem : (n : ℕ) → n < 2 ^ 8 → n % 256 ≡ n
byte_lem n h = omega arith

number_lem :
    (dev_addr interface : ℕ)
    → dev_addr < 2 ^ 8
    → interface < 2 ^ 8
    → interface_of (dev_addr % 256) (interface % 256) ≡ number_of dev_addr interface
number_lem dev_addr interface h k =
    ap₂ interface_of (byte_lem dev_addr h) (byte_lem interface k)
    ∙ interface_of_lem dev_addr interface h k

-- The two bytes of a number are put together again.
split_lem :
    (interface : ℕ)
    → interface < 2 ^ 16
    → interface_of (interface / 2 ^ 8 % 256) (interface % 256) ≡ interface
split_lem interface h =
    interface_of_lem (interface / 2 ^ 8 % 256) (interface % 256) (omega arith) (omega arith)
    ∙ omega arith

pub serial_callback_a-sent_by_b :
    (interval_override : ℕ) (m : FromB)
    → IsSent m
    → result_of (serial_callback_a interval_override (sent_by_b m))
      ≡ some (meaning_on_a interval_override m)
unfolding serial_callback_a sent_by_b sent_by_a meaning_on_a ◌>>=◌
serial_callback_a-sent_by_b n
      (descriptor_received vid pid report_descriptor interface hub_port itf_num) (v, p, i, h, t) =
    rw (
      u16_back vid v,
      u16_back pid p,
      split_lem interface i,
      byte_lem hub_port h,
      byte_lem itf_num t,
    )
serial_callback_a-sent_by_b n (umount dev_addr instance_number) (d, i) = rw (byte_lem dev_addr d)
serial_callback_a-sent_by_b n (hid_report dev_addr instance_number report) (d, i) =
    rw (number_lem dev_addr instance_number d i)
serial_callback_a-sent_by_b n request_b_init h = refl
serial_callback_a-sent_by_b n start_of_frame h = refl
serial_callback_a-sent_by_b n (get_report dev_addr interface report_id report) (d, i, r) =
    rw (number_lem dev_addr interface d i, byte_lem report_id r)
serial_callback_a-sent_by_b n (set_report_complete dev_addr interface report_id) (d, i, r) =
    rw (number_lem dev_addr interface d i, byte_lem report_id r)
serial_callback_a-sent_by_b n (midi_packet hub_port msg) (h, a, b, c, d, e) =
    rw (byte_lem hub_port h, e) refl

abbrev pub IsSentByA : FromA → Type 0
IsSentByA (queue_out_report interface report_id report) = (interface < 2 ^ 16) × (report_id < 2 ^ 8)
IsSentByA (queue_set_feature_report interface report_id report) =
    (interface < 2 ^ 16) × (report_id < 2 ^ 8)
IsSentByA (queue_get_feature_report interface report_id len) =
    (interface < 2 ^ 16) × (report_id < 2 ^ 8) × (len < 2 ^ 8)
IsSentByA (send_b_init interval_override) = interval_override < 2 ^ 8
IsSentByA interval_override_updated = ◌≡◌ {A = ℕ} 0 0

-- What a message of board A means on board B: a report queued for the device and the interface that
-- the number stands for, a new interval, or a restart.
unfoldable pub meaning_on_b : FromA → BoardB → BoardB
meaning_on_b (queue_out_report interface report_id report) b = record b {
  out_reports =
      do_queue_out_report report report_id (interface / 2 ^ 8) (interface % 2 ^ 8) output
        b.out_reports;
}
meaning_on_b (queue_set_feature_report interface report_id report) b = record b {
  out_reports =
      do_queue_out_report report report_id (interface / 2 ^ 8) (interface % 2 ^ 8) set_feature
        b.out_reports;
}
meaning_on_b (queue_get_feature_report interface report_id len) b = record b {
  out_reports =
      do_queue_get_report report_id (interface / 2 ^ 8) (interface % 2 ^ 8) len b.out_reports;
}
meaning_on_b (send_b_init interval_override) b = record b {
  interval_override = interval_override;
  initialized = true;
}
meaning_on_b interval_override_updated b = record b { rebooted = true }

high_lem : (interface : ℕ) → interface < 2 ^ 16 → interface / 2 ^ 8 % 256 ≡ interface / 2 ^ 8
high_lem interface h = omega arith

pub serial_callback_b-sent_by_a :
    (b : BoardB) (m : FromA)
    → IsSentByA m
    → result_of (serial_callback_b b (sent_by_a m)) ≡ some (meaning_on_b m b)
unfolding serial_callback_b sent_by_a meaning_on_b ◌>>=◌
serial_callback_b-sent_by_a b (queue_out_report interface report_id report) (i, r) =
    rw (high_lem interface i, byte_lem report_id r)
serial_callback_b-sent_by_a b (queue_set_feature_report interface report_id report) (i, r) =
    rw (high_lem interface i, byte_lem report_id r)
serial_callback_b-sent_by_a b (queue_get_feature_report interface report_id len) (i, r, l) =
    rw (high_lem interface i, byte_lem report_id r, byte_lem len l)
serial_callback_b-sent_by_a b (send_b_init interval_override) h = rw (byte_lem interval_override h)
serial_callback_b-sent_by_a b interval_override_updated h = refl
