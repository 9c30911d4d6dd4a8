-- ===== src/OutReport/Order.antt =====
-- The order in which the reports of out_report.cc leave its queue.
use usb_hid_wireless_bridge.Base.{
  ◌+◌, ◌≤◌, ◌&&◌, Bool, Option, none, some, List, [], ◌∷◌, ◌++◌, length, ltb, if◌then◌else◌, arith,
}
use usb_hid_wireless_bridge.Ring.{IsRing}
use usb_hid_wireless_bridge.Ring.Queue.{Moves, Moves-none, Moves-put, Moves-drop, Moves-then}
use usb_hid_wireless_bridge.OutReport.{
  OutReport, State, oor_bufsize, report_size, id_size, out_entry, get_entry, do_queue_out_report,
  do_queue_get_report, do_send_out_report, Call, queue_out, queue_get, send, complete, run_call,
  run_calls,
}

-- What a call puts into the queue: nothing if the queue is full or the report does not fit.
abbrev pub taken_in : Call → State → List OutReport
taken_in (queue_out report report_id dev_addr interface type) s =
    if ltb s.queue.items oor_bufsize && ltb (length report + id_size report_id) (report_size + 1)
    then out_entry report report_id dev_addr interface type ∷ []
    else []
taken_in (queue_get report_id dev_addr interface len) s =
    if ltb s.queue.items oor_bufsize then get_entry report_id dev_addr interface len s ∷ [] else []
taken_in (send accepted) s = []
taken_in complete s = []

-- What the USB host stack takes of a request that it was given.
abbrev pub accepted_of : Bool → Option OutReport → List OutReport
accepted_of accepted none = []
accepted_of accepted (some r) = if accepted then r ∷ [] else []

-- What the USB host stack takes in a call.
abbrev pub sent_out : Call → State → List OutReport
sent_out (queue_out report report_id dev_addr interface type) s = []
sent_out (queue_get report_id dev_addr interface len) s = []
sent_out (send accepted) s = accepted_of accepted (do_send_out_report accepted s).0
sent_out complete s = []

call-Moves :
    (c : Call) (s : State)
    → IsRing oor_bufsize s.queue
    → Moves oor_bufsize s.queue (taken_in c s) (sent_out c s) (run_call c s).queue
unfolding do_queue_out_report do_queue_get_report do_send_out_report
call-Moves (queue_out report report_id dev_addr interface type) s v = ground (
  arith,
  Moves-none oor_bufsize s.queue v,
  Moves-put oor_bufsize (out_entry report report_id dev_addr interface type) s.queue v,
)
call-Moves (queue_get report_id dev_addr interface len) s v = ground (
  arith,
  Moves-none oor_bufsize s.queue v,
  Moves-put oor_bufsize (get_entry report_id dev_addr interface len s) s.queue v,
)
call-Moves (send accepted) s v =
    ground (arith, Moves-none oor_bufsize s.queue v, Moves-drop oor_bufsize s.queue v)
call-Moves complete s v = Moves-none oor_bufsize s.queue v

abbrev pub all_taken_in : List Call → State → List OutReport
all_taken_in [] s = []
all_taken_in (c ∷ cs) s = taken_in c s ++ all_taken_in cs (run_call c s)

abbrev pub all_sent_out : List Call → State → List OutReport
all_sent_out [] s = []
all_sent_out (c ∷ cs) s = sent_out c s ++ all_sent_out cs (run_call c s)

-- Over any calls of the module, with any answers of the USB host stack, from a valid queue: what the
-- stack was given and took, followed by what is still queued, is what was queued at first followed by what was
-- taken in, and the queue stays valid. Nothing is lost, doubled or overtaken, save what is refused
-- on arrival because the queue is full or the report does not fit.
pub calls-Moves :
    (cs : List Call) (s : State)
    → IsRing oor_bufsize s.queue
    → Moves oor_bufsize s.queue (all_taken_in cs s) (all_sent_out cs s) (run_calls cs s).queue
unfolding run_calls
calls-Moves [] s v = Moves-none oor_bufsize s.queue v
calls-Moves (c ∷ cs) s v =
    let m = call-Moves c s v in
    Moves-then oor_bufsize (taken_in c s) (all_taken_in cs (run_call c s)) (sent_out c s)
      (all_sent_out cs (run_call c s)) m (calls-Moves cs (run_call c s) m.is_ring)

abbrev pub NoCompletion : List Call → Type 0
NoCompletion [] = Unit
NoCompletion (complete ∷ cs) = ⊥
NoCompletion (c ∷ cs) = NoCompletion cs

-- One request at a time: between two completions at most one report is sent.
pub one_under_way :
    (cs : List Call) (s : State)
    → NoCompletion cs
    → length (all_sent_out cs s) ≤ (if s.ready_to_send then 1 else 0)
unfolding do_queue_out_report do_queue_get_report do_send_out_report
one_under_way [] s n = ground arith
one_under_way (queue_out report report_id dev_addr interface type ∷ cs) s n =
    ground
      (arith, one_under_way cs (do_queue_out_report report report_id dev_addr interface type s) n)
one_under_way (queue_get report_id dev_addr interface len ∷ cs) s n =
    ground (arith, one_under_way cs (do_queue_get_report report_id dev_addr interface len s) n)
one_under_way (send accepted ∷ cs) s n =
    ground (arith, one_under_way cs (do_send_out_report accepted s).1 n)
one_under_way (complete ∷ cs) s n = elim n [ ]
