-- ===== src/OutReport/Tests.antt =====
-- Runs of the queue of reports for devices.
use usb_hid_wireless_bridge.Base.{refl, true, false, List, [], ◌∷◌, arith}
use usb_hid_wireless_bridge.Ring.{IsRing}
use usb_hid_wireless_bridge.Ring.Queue.{Moves}
use usb_hid_wireless_bridge.OutReport.{
  OutType, State, oor_bufsize, Call, queue_out, queue_get, send, complete, run_calls,
}
use usb_hid_wireless_bridge.OutReport.Order.{all_taken_in, all_sent_out, calls-Moves}

abbrev empty : State
empty = record {
  queue = record {
    cells = λ i. record {
      dev_addr = 0;
      interface = 0;
      report_id = 0;
      len = 0;
      type = OutType.output;
      report = [];
    };
    head = 7;
    tail = 7;
    items = 0;
  };
  ready_to_send = true;
}

empty-IsRing : IsRing oor_bufsize empty.queue
empty-IsRing = record { head_in = omega arith; items_in = omega arith; tail_at = refl }

-- Two reports and a request; the first send is refused, the second goes through.
abbrev calls : List Call
calls =
    queue_out (1 ∷ 2 ∷ []) 5 1 0 OutType.output
    ∷ queue_get 3 1 0 8
    ∷ send false
    ∷ send true
    ∷ send true
    ∷ []

calls-Moves_example :
    Moves oor_bufsize empty.queue
      (all_taken_in (complete ∷ calls) empty)
      (all_sent_out (complete ∷ calls) empty)
      (run_calls (complete ∷ calls) empty).queue
calls-Moves_example = calls-Moves (complete ∷ calls) empty empty-IsRing
