-- ===== src/Diagnostics/Lanes.antt =====
-- The two queues of diagnostic records of remapper_dual_b.cc, side by side.
use usb_hid_wireless_bridge.Base.{
  Bool, Option, none, some, List, [], ◌∷◌, ◌++◌, ltb, if◌then◌else◌, arith,
}
use usb_hid_wireless_bridge.Ring.{Ring, IsRing}
use usb_hid_wireless_bridge.Ring.Queue.{Moves, Moves-none, Moves-put, Moves-drop, Moves-then}
use usb_hid_wireless_bridge.Diagnostics.{
  Diagnostic, queue_size, State, queue_hid_host_diagnostic, queue_hid_host_priority_diagnostic,
  flush_pending_hid_host_diagnostics, flush_pending_hid_host_priority_diagnostics, Call, queue,
  queue_priority, flush, flush_priority, run_call, run_calls,
}

-- What a call puts into a queue that has room, and what the link takes of a record that it is given.
abbrev put_in : Diagnostic → Ring Diagnostic → List Diagnostic
put_in d r = if ltb r.items queue_size then d ∷ [] else []

abbrev taken : Bool → Option Diagnostic → List Diagnostic
taken written none = []
taken written (some d) = if written then d ∷ [] else []

abbrev pub queued : Call → State → List Diagnostic
queued (queue d) s = put_in d s.pending
queued c s = []

abbrev pub sent : Call → State → List Diagnostic
sent (flush written) s = taken written (flush_pending_hid_host_diagnostics written s).0
sent c s = []

abbrev pub priority_queued : Call → State → List Diagnostic
priority_queued (queue_priority d) s = put_in d s.priority
priority_queued c s = []

abbrev pub priority_sent : Call → State → List Diagnostic
priority_sent (flush_priority written) s =
    taken written (flush_pending_hid_host_priority_diagnostics written s).0
priority_sent c s = []

pub record AreRings (s : State) : Type 0 where
  pub pending : IsRing queue_size s.pending
  pub priority : IsRing queue_size s.priority

call-Moves :
    (c : Call) (s : State)
    → AreRings s
    → Moves queue_size s.pending (queued c s) (sent c s) (run_call c s).pending
      × Moves queue_size s.priority
          (priority_queued c s)
          (priority_sent c s)
          (run_call c s).priority
unfolding queue_hid_host_diagnostic queue_hid_host_priority_diagnostic
    flush_pending_hid_host_diagnostics flush_pending_hid_host_priority_diagnostics
call-Moves (queue d) s v = ground (
  arith,
  Moves-none queue_size s.pending v.pending,
  Moves-none queue_size s.priority v.priority,
  Moves-put queue_size d s.pending v.pending,
)
call-Moves (queue_priority d) s v = ground (
  arith,
  Moves-none queue_size s.pending v.pending,
  Moves-none queue_size s.priority v.priority,
  Moves-put queue_size d s.priority v.priority,
)
call-Moves (flush written) s v = ground (
  arith,
  Moves-none queue_size s.pending v.pending,
  Moves-none queue_size s.priority v.priority,
  Moves-drop queue_size s.pending v.pending,
)
call-Moves (flush_priority written) s v = ground (
  arith,
  Moves-none queue_size s.pending v.pending,
  Moves-none queue_size s.priority v.priority,
  Moves-drop queue_size s.priority v.priority,
)

abbrev pub over : (Call → State → List Diagnostic) → List Call → State → List Diagnostic
over f [] s = []
over f (c ∷ cs) s = f c s ++ over f cs (run_call c s)

-- Over any calls, in any order and whichever writes the serial link takes, each of the two queues is
-- first in, first out by itself: what was written from it followed by what it holds is what it held
-- at first followed by what was queued since. No call on one queue moves anything in the other.
pub lanes_in_order :
    (cs : List Call) (s : State)
    → AreRings s
    → Moves queue_size s.pending (over queued cs s) (over sent cs s) (run_calls cs s).pending
      × Moves queue_size s.priority
          (over priority_queued cs s)
          (over priority_sent cs s)
          (run_calls cs s).priority
unfolding run_calls
lanes_in_order [] s v =
    (Moves-none queue_size s.pending v.pending, Moves-none queue_size s.priority v.priority)
lanes_in_order (c ∷ cs) s v =
    let (m, n) = call-Moves c s v in
    let t = run_call c s in
    let (p, q) = lanes_in_order cs t (record { pending = m.is_ring; priority = n.is_ring }) in
    (
      Moves-then queue_size (queued c s) (over queued cs t) (sent c s) (over sent cs t) m p,
      Moves-then queue_size (priority_queued c s) (over priority_queued cs t) (priority_sent c s)
          (over priority_sent cs t) n q,
    )
