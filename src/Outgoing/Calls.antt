-- ===== src/Outgoing/Calls.antt =====
-- What changes the queue of reports for the host, remapper.cc: the rounds of the loop at the end of
-- `process_mapping`, and `send_report`.
use usb_hid_wireless_bridge.Base.{ℕ, Bool, List, [], ◌∷◌}
use usb_hid_wireless_bridge.Outgoing.{State, send_report}
use usb_hid_wireless_bridge.Outgoing.Mapped.{Device, Reports, offer_report}

-- The state of both.
pub record Host : Type 0 where
  pub state : State
  pub reports : ℕ → List ℕ
  pub prev_reports : ℕ → List ℕ

abbrev pub reports_of : Host → Reports
reports_of h = record { reports = h.reports; prev_reports = h.prev_reports; queue = h.state.queue }

abbrev pub with_reports : Reports → Host → Host
with_reports r h = record {
  state = record h.state { queue = r.queue };
  reports = r.reports;
  prev_reports = r.prev_reports;
}

-- The mappings fill the reports; a round of the loop for a report id; a `send_report`, with the answer
-- of the endpoint.
pub data Call : Type 0 where
  fill : (ℕ → List ℕ) → Call
  offer : ℕ → Call
  send : Bool → Call

abbrev pub run_call : Device → Call → Host → Host
run_call device (fill reports) h = record h { reports = reports }
run_call device (offer report_id) h =
    with_reports (offer_report device report_id (reports_of h)).1 h
run_call device (send accepted) h = record h { state = (send_report accepted h.state).1 }

unfoldable pub run_calls : Device → List Call → Host → Host
run_calls device [] h = h
run_calls device (c ∷ cs) h = run_calls device cs (run_call device c h)
