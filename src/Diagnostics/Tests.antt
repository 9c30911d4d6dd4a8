-- ===== src/Diagnostics/Tests.antt =====
-- Two diagnostic queues, written to a link that is full at first.
use usb_hid_wireless_bridge.Base.{refl, true, false, List, [], ◌∷◌, arith}
use usb_hid_wireless_bridge.Ring.{Ring, IsRing}
use usb_hid_wireless_bridge.Ring.Queue.{Moves}
use usb_hid_wireless_bridge.Diagnostics.Lanes.{
  queued, sent, priority_queued, priority_sent, over, lanes_in_order,
}
use usb_hid_wireless_bridge.Diagnostics.{
  Diagnostic, State, queue_size, Call, queue, queue_priority, flush, flush_priority, run_calls,
}

abbrev mount : Diagnostic
mount = record { is_report_counters = false; content = 1 ∷ [] }

abbrev counters : Diagnostic
counters = record { is_report_counters = true; content = 12 ∷ [] }

abbrev ring : Ring Diagnostic
ring = record { cells = λ i. mount; head = 7; tail = 7; items = 0 }

ring-IsRing : IsRing queue_size ring
ring-IsRing = record { head_in = omega arith; items_in = omega arith; tail_at = refl }

abbrev idle : State
idle = record {
  pending = ring;
  priority = ring;
  write_success_count = 0;
  write_failure_count = 0;
  report_counters_sent_count = 0;
}

abbrev calls : List Call
calls =
    queue mount
    ∷ queue_priority counters
    ∷ flush_priority false
    ∷ flush_priority true
    ∷ flush true
    ∷ []

lanes_in_order_example :
    Moves queue_size idle.pending
      (over queued calls idle)
      (over sent calls idle)
      (run_calls calls idle).pending
    × Moves queue_size idle.priority
        (over priority_queued calls idle)
        (over priority_sent calls idle)
        (run_calls calls idle).priority
lanes_in_order_example =
    lanes_in_order calls idle (record { pending = ring-IsRing; priority = ring-IsRing })
