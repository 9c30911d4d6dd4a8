-- ===== src/Relay.antt =====
-- Board B's side of the bridge, remapper_dual_b.cc: the table of HID inputs and the forwarding of
-- their reports to board A, with a report held back where the serial link is full. This is the build
-- without HID_HOST_DIAGNOSTICS and MOUSE_PIPELINE_TRACE.
use usb_hid_wireless_bridge.Base.{
  ℕ, zero, suc, ◌+◌, ◌-◌, ◌%◌, Bool, true, false, ◌&&◌, ◌||◌, not, List, [], ◌∷◌, ◌++◌, length,
  Option, none, some, ltb, ◌==◌, if◌then◌else◌, get_elem?, set,
}
pub mod Table
pub mod Held
pub mod Received
pub mod Tests

-- `hid_input_state_t`; `report` is the part of the array that `len` says is in use.
pub record Input : Type 0 where
  pub active : Bool
  pub dev_addr : ℕ
  pub interface : ℕ
  pub report_pending : Bool
  pub report : List ℕ

-- `{}`
abbrev pub cleared : Input
cleared = record {
  active = false;
  dev_addr = 0;
  interface = 0;
  report_pending = false;
  report = [];
}

-- CFG_TUH_HID and CFG_TUH_HID_EPIN_BUFSIZE
abbrev pub cfg_tuh_hid : ℕ
cfg_tuh_hid = 24

abbrev pub epin_bufsize : ℕ
epin_bufsize = 64

abbrev pub is_input : ℕ → ℕ → Input → Bool
is_input dev_addr interface s = s.active && ((s.dev_addr == dev_addr) && (s.interface == interface))

abbrev pub one_later : Option ℕ → Option ℕ
one_later none = none
one_later (some i) = some (suc i)

-- The first entry that passes a test, by its place: the `for` loops over the table.
unfoldable pub find_first : (Input → Bool) → List Input → Option ℕ
find_first p [] = none
find_first p (s ∷ ss) = if p s then some 0 else one_later (find_first p ss)

unfoldable pub find_hid_input_state : ℕ → ℕ → List Input → Option ℕ
find_hid_input_state dev_addr interface ss = find_first (is_input dev_addr interface) ss

abbrev pub registered : ℕ → ℕ → Input
registered dev_addr interface = record {
  active = true;
  dev_addr = dev_addr;
  interface = interface;
  report_pending = false;
  report = [];
}

abbrev pub register_at : Option ℕ → ℕ → ℕ → List Input → Option ℕ × List Input
register_at none dev_addr interface ss = (none, ss)
register_at (some i) dev_addr interface ss = (some i, set ss i (registered dev_addr interface))

abbrev pub register_unless : Option ℕ → ℕ → ℕ → List Input → Option ℕ × List Input
register_unless (some i) dev_addr interface ss = (some i, ss)
register_unless none dev_addr interface ss =
    register_at (find_first (λ s. not s.active) ss) dev_addr interface ss

unfoldable pub register_hid_input : ℕ → ℕ → List Input → Option ℕ × List Input
register_hid_input dev_addr interface ss =
    register_unless (find_hid_input_state dev_addr interface ss) dev_addr interface ss

abbrev pub clear_at : Option ℕ → List Input → List Input
clear_at none ss = ss
clear_at (some i) ss = set ss i cleared

unfoldable pub unregister_hid_input : ℕ → ℕ → List Input → List Input
unregister_hid_input dev_addr interface ss =
    clear_at (find_hid_input_state dev_addr interface ss) ss

unfoldable pub has_pending_hid_reports : List Input → Bool
has_pending_hid_reports [] = false
has_pending_hid_reports (s ∷ ss) = (s.active && s.report_pending) || has_pending_hid_reports ss

-- `*state`
abbrev pub state_of : Option ℕ → List Input → Option Input
state_of none ss = none
state_of (some i) ss = get_elem? ss i

-- A REPORT_RECEIVED message for board A.
pub record Message : Type 0 where
  pub from_dev : ℕ
  pub from_interface : ℕ
  pub bytes : List ℕ

-- The globals, with the messages that the serial link has taken, oldest first, the number of times it
-- was asked to take one, and the calls of `tuh_hid_receive_report`, latest first.
pub record World : Type 0 where
  pub inputs : List Input
  pub next_pending_hid_input : ℕ
  pub taken : List Message
  pub asked : ℕ
  pub armed : List (ℕ × ℕ)

-- `accepts n`: whether `serial_write_nonblocking` takes the message number n.
module _ (accepts : ℕ → Bool) where
  unfoldable pub send_hid_report : ℕ → ℕ → List ℕ → World → Bool × World
  send_hid_report dev_addr interface report w =
      if ltb epin_bufsize (length report)
      then (false, w)
      else if accepts w.asked
      then (
        true,
        record w {
          taken =
              w.taken
              ++ (record { from_dev = dev_addr; from_interface = interface; bytes = report } ∷ []);
          asked = w.asked + 1;
        },
      )
      else (false, record w { asked = w.asked + 1 })

  abbrev pub arm_hid_report : ℕ → ℕ → World → World
  arm_hid_report dev_addr interface w = record w { armed = (dev_addr, interface) ∷ w.armed }

  -- The rest of a round of `flush_pending_hid_reports` after `send_hid_report`: whether the loop goes
  -- on, and the globals.
  abbrev pub after_send : Bool × World → ℕ → Input → Bool × World
  after_send (false, w) i s = (false, record w { next_pending_hid_input = i })
  after_send (true, w) i s = (
    true,
    arm_hid_report s.dev_addr s.interface (record w {
      inputs = set w.inputs i (record s { report_pending = false });
      next_pending_hid_input = (i + 1) % cfg_tuh_hid;
    }),
  )

  unfoldable pub flush_at : Option Input → ℕ → World → Bool × World
  flush_at none i w = (true, w)
  flush_at (some s) i w =
      if not s.active || not s.report_pending
      then (true, w)
      else after_send (send_hid_report s.dev_addr s.interface s.report w) i s

  -- `n` rounds, from the round `count` on.
  unfoldable pub flush_rounds : ℕ → ℕ → ℕ → World → World
  flush_rounds start count zero w = w
  flush_rounds start count (suc n) w =
      let i = (start + count) % cfg_tuh_hid in
      let (more, w') = flush_at (get_elem? w.inputs i) i w in
      let rest = flush_rounds start (count + 1) n w' in if more then rest else w'

  unfoldable pub flush_pending_hid_reports : World → World
  flush_pending_hid_reports w = flush_rounds w.next_pending_hid_input 0 cfg_tuh_hid w

  -- `if (has_pending_hid_reports() || !send_hid_report(...))` and its body.
  abbrev pub hold_at : ℕ → Option Input → List ℕ → World → World
  hold_at i none report w = w
  hold_at i (some s) report w = record w {
    inputs = set w.inputs i (record s { report_pending = true; report = report });
  }

  abbrev pub hold_unless_sent : Bool × World → ℕ → List ℕ → World
  hold_unless_sent (true, w) i report = w
  hold_unless_sent (false, w) i report = hold_at i (get_elem? w.inputs i) report w

  abbrev pub receive_at : Option ℕ → ℕ → ℕ → List ℕ → World → World
  receive_at none dev_addr interface report w = w
  receive_at (some i) dev_addr interface report w =
      if has_pending_hid_reports w.inputs
      then hold_unless_sent (false, w) i report
      else hold_unless_sent (send_hid_report dev_addr interface report w) i report

  unfoldable pub report_received_callback : ℕ → ℕ → List ℕ → World → World
  report_received_callback dev_addr interface report w =
      if ltb epin_bufsize (length report)
      then w
      else let (place, inputs) = register_hid_input dev_addr interface w.inputs in
        receive_at place dev_addr interface report (record w { inputs = inputs })

  abbrev pub arm_unless_pending : Option Input → ℕ → ℕ → World → World
  arm_unless_pending none dev_addr interface w = w
  arm_unless_pending (some s) dev_addr interface w =
      if s.report_pending then w else arm_hid_report dev_addr interface w

  unfoldable pub tuh_hid_report_received_cb : ℕ → ℕ → List ℕ → World → World
  tuh_hid_report_received_cb dev_addr interface report w =
      let w' = report_received_callback dev_addr interface report w in
      arm_unless_pending (state_of (find_hid_input_state dev_addr interface w'.inputs) w'.inputs)
        dev_addr interface w'

  -- `ready` answers `tuh_hid_receive_ready`.
  unfoldable pub arm_ready_hid_inputs : (ℕ → ℕ → Bool) → List Input → World → World
  arm_ready_hid_inputs ready [] w = w
  arm_ready_hid_inputs ready (s ∷ ss) w = arm_ready_hid_inputs ready ss (
      if s.active && (not s.report_pending && ready s.dev_addr s.interface)
      then arm_hid_report s.dev_addr s.interface w
      else w)
