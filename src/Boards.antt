-- ===== src/Boards.antt =====
-- The messages between the two boards: dual.h, the callbacks and the senders of remapper_dual_a.cc and
-- remapper_dual_b.cc, in the build without HID_HOST_DIAGNOSTICS and MOUSE_PIPELINE_TRACE.
pub mod Meaning
pub mod Rounds
pub mod Delivered
pub mod Ordered
mod Tests
use usb_hid_wireless_bridge.Base.{
  ℕ, zero, suc, ◌*◌, ◌/◌, ◌%◌, ◌^◌, bit_or, Bool, true, false, ◌||◌, List, [], ◌∷◌, ◌++◌, Option,
  none, some, length, ◌==◌, if◌then◌else◌,
}
use usb_hid_wireless_bridge.Packed.{
  Reader, ◌>>=◌, done, get_u8, get_u16, read_n, u8_bytes, u16_bytes,
}
use usb_hid_wireless_bridge.OutReport.{
  OutType, output, set_feature, State, do_queue_out_report, do_queue_get_report,
}

-- What board B sends, by the function of remapper_dual_b.cc that sends it.
pub data FromB : Type 0 where
  descriptor_received : ℕ → ℕ → List ℕ → ℕ → ℕ → ℕ → FromB
  umount : ℕ → ℕ → FromB
  hid_report : ℕ → ℕ → List ℕ → FromB
  request_b_init : FromB
  start_of_frame : FromB
  get_report : ℕ → ℕ → ℕ → List ℕ → FromB
  set_report_complete : ℕ → ℕ → ℕ → FromB
  midi_packet : ℕ → List ℕ → FromB

unfoldable pub sent_by_b : FromB → List ℕ
sent_by_b (descriptor_received vid pid report_descriptor interface hub_port itf_num) =
    1
    ∷ (u16_bytes vid
        ++ (u16_bytes pid
            ++ (u8_bytes (interface / 2 ^ 8)
                ++ (u8_bytes interface
                    ++ (u8_bytes hub_port ++ (u8_bytes itf_num ++ report_descriptor))))))
sent_by_b (umount dev_addr instance_number) = 2 ∷ (u8_bytes dev_addr ++ u8_bytes instance_number)
sent_by_b (hid_report dev_addr instance_number report) =
    3 ∷ (u8_bytes dev_addr ++ (u8_bytes instance_number ++ report))
sent_by_b request_b_init = 4 ∷ []
sent_by_b start_of_frame = 8 ∷ []
sent_by_b (get_report dev_addr interface report_id report) =
    11 ∷ (u8_bytes dev_addr ++ (u8_bytes interface ++ (u8_bytes report_id ++ report)))
sent_by_b (set_report_complete dev_addr interface report_id) =
    12 ∷ (u8_bytes dev_addr ++ (u8_bytes interface ++ u8_bytes report_id))
sent_by_b (midi_packet hub_port msg) = 13 ∷ (u8_bytes hub_port ++ msg)

-- What board A's callback calls.
pub data CallOfA : Type 0 where
  parse_descriptor : ℕ → ℕ → List ℕ → ℕ → ℕ → CallOfA
  device_connected_callback : ℕ → ℕ → ℕ → ℕ → CallOfA
  device_disconnected_callback : ℕ → CallOfA
  handle_received_report : List ℕ → ℕ → CallOfA
  handle_get_report_response : ℕ → ℕ → List ℕ → CallOfA
  handle_set_report_complete : ℕ → ℕ → CallOfA
  handle_received_midi : ℕ → List ℕ → CallOfA
  add_tick_alarm : CallOfA
  serial_write : List ℕ → CallOfA

-- `send_b_init`
abbrev pub b_init : ℕ → List ℕ
b_init interval_override = 5 ∷ u8_bytes interval_override

-- `(uint16_t) (dev_addr << 8) | interface`
abbrev pub interface_of : ℕ → ℕ → ℕ
interface_of dev_addr interface = bit_or (dev_addr * 2 ^ 8 % 2 ^ 16) interface

-- The rest of the message, whose length the code takes from `len`.
abbrev pub get_rest : Reader (List ℕ)
get_rest bytes = some (bytes, [])

-- What a message is taken for, whatever of it was not looked at.
abbrev pub result_of {ℓ} : {A : Type ℓ} → Option (A × List ℕ) → Option A
result_of none = none
result_of (some (a, rest)) = some a

unfoldable pub read_connected : Reader (Bool × List CallOfA)
read_connected = do
  vid ← get_u16
  pid ← get_u16
  dev_addr ← get_u8
  interface ← get_u8
  hub_port ← get_u8
  itf_num ← get_u8
  report_descriptor ← get_rest
  done (
    false,
    parse_descriptor vid pid report_descriptor (interface_of dev_addr interface) itf_num
        ∷ device_connected_callback (interface_of dev_addr interface) vid pid hub_port
        ∷ [],
  )

unfoldable pub read_received : Reader (Bool × List CallOfA)
read_received = do
  dev_addr ← get_u8
  interface ← get_u8
  report ← get_rest
  done (true, handle_received_report report (interface_of dev_addr interface) ∷ [])

unfoldable pub read_response : Reader (Bool × List CallOfA)
read_response = do
  dev_addr ← get_u8
  interface ← get_u8
  report_id ← get_u8
  report ← get_rest
  done (false, handle_get_report_response (interface_of dev_addr interface) report_id report ∷ [])

unfoldable pub read_complete : Reader (Bool × List CallOfA)
read_complete = do
  dev_addr ← get_u8
  interface ← get_u8
  report_id ← get_u8
  done (false, handle_set_report_complete (interface_of dev_addr interface) report_id ∷ [])

unfoldable pub read_midi : Reader (Bool × List CallOfA)
unfolding read_n
read_midi = do
  hub_port ← get_u8
  msg ← read_n 4 get_u8
  done (true, handle_received_midi hub_port msg ∷ [])

unfoldable pub read_disconnected : Reader (Bool × List CallOfA)
read_disconnected = do dev_addr ← get_u8; done (false, device_disconnected_callback dev_addr ∷ [])

-- The switch of board A's `serial_callback`; the result is what it returns and what it calls.
abbrev pub callback_for : ℕ → ℕ → Reader (Bool × List CallOfA)
callback_for interval_override command =
    if command == 1
    then read_connected
    else if command == 2
    then read_disconnected
    else if command == 3
    then read_received
    else if command == 4
    then done (false, serial_write (b_init interval_override) ∷ [])
    else if command == 8
    then done (false, add_tick_alarm ∷ [])
    else if command == 11
    then read_response
    else if command == 12
    then read_complete
    else if command == 13
    then read_midi
    else done (false, [])

-- `none` is a message that is shorter than its struct: the code reads on behind it.
unfoldable pub serial_callback_a : ℕ → Reader (Bool × List CallOfA)
unfolding read_connected read_received read_response read_complete read_midi read_disconnected
serial_callback_a interval_override = do command ← get_u8; callback_for interval_override command

-- What board A sends, by the function of remapper_dual_a.cc that sends it.
pub data FromA : Type 0 where
  queue_out_report : ℕ → ℕ → List ℕ → FromA
  queue_set_feature_report : ℕ → ℕ → List ℕ → FromA
  queue_get_feature_report : ℕ → ℕ → ℕ → FromA
  send_b_init : ℕ → FromA
  interval_override_updated : FromA

unfoldable pub sent_by_a : FromA → List ℕ
sent_by_a (queue_out_report interface report_id report) =
    7 ∷ (u8_bytes (interface / 2 ^ 8) ++ (u8_bytes interface ++ (u8_bytes report_id ++ report)))
sent_by_a (queue_set_feature_report interface report_id report) =
    9 ∷ (u8_bytes (interface / 2 ^ 8) ++ (u8_bytes interface ++ (u8_bytes report_id ++ report)))
sent_by_a (queue_get_feature_report interface report_id len) =
    10
    ∷ (u8_bytes (interface / 2 ^ 8) ++ (u8_bytes interface ++ (u8_bytes report_id ++ u8_bytes len)))
sent_by_a (send_b_init interval_override) = b_init interval_override
sent_by_a interval_override_updated = 6 ∷ []

-- The globals of board B that its `serial_callback` changes; `rebooted` is true from
-- `watchdog_reboot(0, 0, 0)` on, and then this run of board B has ended (Boards.Rounds).
pub record BoardB : Type 0 where
  pub out_reports : State
  pub interval_override : ℕ
  pub initialized : Bool
  pub rebooted : Bool

unfoldable pub read_out_report : OutType → BoardB → Reader BoardB
read_out_report type b = do
  dev_addr ← get_u8
  interface ← get_u8
  report_id ← get_u8
  report ← get_rest
  done (record b {
    out_reports = do_queue_out_report report report_id dev_addr interface type b.out_reports;
  })

unfoldable pub read_get_report : BoardB → Reader BoardB
read_get_report b = do
  dev_addr ← get_u8
  interface ← get_u8
  report_id ← get_u8
  len ← get_u8
  done (record b {
    out_reports = do_queue_get_report report_id dev_addr interface len b.out_reports;
  })

unfoldable pub read_b_init : BoardB → Reader BoardB
read_b_init b = do
  interval_override ← get_u8
  done (record b { interval_override = interval_override; initialized = true })

abbrev pub change_for : BoardB → ℕ → Reader BoardB
change_for b command =
    if command == 5
    then read_b_init b
    else if command == 6
    then done (record b { rebooted = true })
    else if command == 7
    then read_out_report output b
    else if command == 9
    then read_out_report set_feature b
    else if command == 10
    then read_get_report b
    else done b

-- Board B's `serial_callback`; it always returns false.
unfoldable pub serial_callback_b : BoardB → Reader BoardB
unfolding read_out_report read_get_report read_b_init
serial_callback_b b = do command ← get_u8; change_for b command
