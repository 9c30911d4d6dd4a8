-- ===== src/Diagnostics.antt =====
-- Board B's diagnostic records on their way to board A, remapper_dual_b.cc with
-- HID_HOST_DIAGNOSTICS: the ordinary queue and the priority queue, and the counts of writes. The
-- answer of `serial_write_nonblocking` comes in as an argument.
use usb_hid_wireless_bridge.Base.{
  ℕ, ◌+◌, ◌%◌, ◌^◌, Bool, true, false, Option, none, some, List, [], ◌∷◌, ◌==◌, if◌then◌else◌,
}
use usb_hid_wireless_bridge.Ring.{Ring, put, drop_first, first}
pub mod Lanes
pub mod Tests

-- A `dual_hid_host_diagnostic_t`: whether its event is REPORT_COUNTERS, and the rest of its bytes.
pub record Diagnostic : Type 0 where
  pub is_report_counters : Bool
  pub content : List ℕ

-- HID_HOST_DIAGNOSTIC_PENDING_QUEUE_SIZE and HID_HOST_DIAGNOSTIC_MAX_REPORT_COUNTERS
abbrev pub queue_size : ℕ
queue_size = 8

pub record State : Type 0 where
  pub pending : Ring Diagnostic
  pub priority : Ring Diagnostic
  pub write_success_count : ℕ
  pub write_failure_count : ℕ
  pub report_counters_sent_count : ℕ

-- The counts of `write_hid_host_diagnostic`.
abbrev pub count_write : Bool → Diagnostic → State → State
count_write written d s =
    if written
    then record s {
      write_success_count = (s.write_success_count + 1) % 2 ^ 32;
      report_counters_sent_count =
          if d.is_report_counters
          then (s.report_counters_sent_count + 1) % 2 ^ 32
          else s.report_counters_sent_count;
    }
    else record s { write_failure_count = (s.write_failure_count + 1) % 2 ^ 32 }

unfoldable pub queue_hid_host_diagnostic : Diagnostic → State → State
queue_hid_host_diagnostic d s =
    if s.pending.items == queue_size then s else record s { pending = put queue_size d s.pending }

unfoldable pub queue_hid_host_priority_diagnostic : Diagnostic → State → Bool × State
queue_hid_host_priority_diagnostic d s =
    if s.priority.items == queue_size
    then (false, s)
    else (true, record s { priority = put queue_size d s.priority })

-- The record that `serial_write_nonblocking` is given, if it is called, and the state after its answer.
unfoldable pub flush_pending_hid_host_diagnostics : Bool → State → Option Diagnostic × State
flush_pending_hid_host_diagnostics written s =
    let counted = count_write written (first s.pending) s in
    if s.pending.items == 0 then (none, s) else (
      some (first s.pending),
      (if written then record counted { pending = drop_first queue_size s.pending } else counted),
    )

unfoldable pub flush_pending_hid_host_priority_diagnostics :
    Bool → State → Option Diagnostic × State
flush_pending_hid_host_priority_diagnostics written s =
    let counted = count_write written (first s.priority) s in
    if s.priority.items == 0 then (none, s) else (
      some (first s.priority),
      (if written then record counted { priority = drop_first queue_size s.priority } else counted),
    )

pub data Call : Type 0 where
  queue : Diagnostic → Call
  queue_priority : Diagnostic → Call
  flush : Bool → Call
  flush_priority : Bool → Call

abbrev pub run_call : Call → State → State
run_call (queue d) s = queue_hid_host_diagnostic d s
run_call (queue_priority d) s = (queue_hid_host_priority_diagnostic d s).1
run_call (flush written) s = (flush_pending_hid_host_diagnostics written s).1
run_call (flush_priority written) s = (flush_pending_hid_host_priority_diagnostics written s).1

unfoldable pub run_calls : List Call → State → State
run_calls [] s = s
run_calls (c ∷ cs) s = run_calls cs (run_call c s)
