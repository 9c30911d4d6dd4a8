-- ===== src/OutReport.antt =====
-- The queue of reports for devices, out_report.cc. The USB host stack's answers to
-- `tuh_hid_set_report` and `tuh_hid_get_report` come in as arguments.
use usb_hid_wireless_bridge.Base.{
  ℕ, ◌+◌, Bool, true, false, ◌&&◌, ◌||◌, List, [], ◌∷◌, ◌++◌, length, Option, none, some, ltb, ◌==◌,
  if◌then◌else◌,
}
use usb_hid_wireless_bridge.Ring.{Ring, put, drop_first, first}
pub mod Order
pub mod Tests

pub data OutType : Type 0 where
  output set_feature get_feature : OutType

-- `outgoing_out_report_t`; `report` is the part of the array that is in use.
pub record OutReport : Type 0 where
  pub dev_addr : ℕ
  pub interface : ℕ
  pub report_id : ℕ
  pub len : ℕ
  pub type : OutType
  pub report : List ℕ

abbrev pub oor_bufsize : ℕ
oor_bufsize = 8

-- `sizeof(outgoing_out_reports[oor_tail].report)`
abbrev pub report_size : ℕ
report_size = 64

pub record State : Type 0 where
  pub queue : Ring OutReport
  pub ready_to_send : Bool

-- `(report_id != 0) ? 1 : 0`
abbrev pub id_size : ℕ → ℕ
id_size report_id = if report_id == 0 then 0 else 1

abbrev pub with_id : ℕ → List ℕ → List ℕ
with_id report_id report = if report_id == 0 then report else report_id ∷ report

abbrev pub out_entry : List ℕ → ℕ → ℕ → ℕ → OutType → OutReport
out_entry report report_id dev_addr interface type = record {
  dev_addr = dev_addr;
  interface = interface;
  report_id = report_id;
  len = length report + id_size report_id;
  type = type;
  report = with_id report_id report;
}

unfoldable pub do_queue_out_report : List ℕ → ℕ → ℕ → ℕ → OutType → State → State
do_queue_out_report report report_id dev_addr interface type s =
    if (s.queue.items == oor_bufsize) || ltb report_size (length report + id_size report_id)
    then s
    else record s {
      queue = put oor_bufsize (out_entry report report_id dev_addr interface type) s.queue;
    }

-- The bytes of the cell stay what they were.
abbrev pub get_entry : ℕ → ℕ → ℕ → ℕ → State → OutReport
get_entry report_id dev_addr interface len s = record {
  dev_addr = dev_addr;
  interface = interface;
  report_id = report_id;
  len = len;
  type = OutType.get_feature;
  report = (s.queue.cells s.queue.tail).report;
}

unfoldable pub do_queue_get_report : ℕ → ℕ → ℕ → ℕ → State → State
do_queue_get_report report_id dev_addr interface len s =
    if s.queue.items == oor_bufsize
    then s
    else record s { queue = put oor_bufsize (get_entry report_id dev_addr interface len s) s.queue }

-- The request that the USB host stack is given, and the state after its answer. The three types have
-- the same consequences, so the branches of the code are one.
unfoldable pub do_send_out_report : Bool → State → Option OutReport × State
do_send_out_report accepted s =
    if ltb 0 s.queue.items && s.ready_to_send
    then (
      some (first s.queue),
      (if accepted
          then record { queue = drop_first oor_bufsize s.queue; ready_to_send = false }
          else s),
    )
    else (none, s)

-- `tuh_hid_set_report_complete_cb` and `tuh_hid_get_report_complete_cb`, as far as this state goes.
abbrev pub report_complete : State → State
report_complete s = record s { ready_to_send = true }

-- One call of this module, with what the USB host stack answers.
pub data Call : Type 0 where
  queue_out : List ℕ → ℕ → ℕ → ℕ → OutType → Call
  queue_get : ℕ → ℕ → ℕ → ℕ → Call
  send : Bool → Call
  complete : Call

abbrev pub run_call : Call → State → State
run_call (queue_out report report_id dev_addr interface type) s =
    do_queue_out_report report report_id dev_addr interface type s
run_call (queue_get report_id dev_addr interface len) s =
    do_queue_get_report report_id dev_addr interface len s
run_call (send accepted) s = (do_send_out_report accepted s).1
run_call complete s = report_complete s

unfoldable pub run_calls : List Call → State → State
run_calls [] s = s
run_calls (c ∷ cs) s = run_calls cs (run_call c s)
