-- ===== src/Outgoing/Tests.antt =====
-- A queue of reports for the host whose endpoint is busy at first.
use usb_hid_wireless_bridge.Base.{◌≡◌, refl, true, false, List, [], ◌∷◌, arith}
use usb_hid_wireless_bridge.Ring.{IsRing, contents, put, drop_first}
use usb_hid_wireless_bridge.Outgoing.{or_bufsize, needs_to_be_sent, differ_on_absolute, send_report}
use usb_hid_wireless_bridge.Outgoing.Mapped.{Device, bytes_of, add_or_queue, offer_report}
use usb_hid_wireless_bridge.Outgoing.Calls.{Host, Call, fill, offer, send, run_calls}
use usb_hid_wireless_bridge.Outgoing.Order.{all_came_in, all_sent, Steps, calls_in_order}

abbrev buttons : Device
buttons = record {
  our_usages = λ id. [];
  report_masks_relative = λ id. [];
  report_masks_absolute = λ id. 255 ∷ [];
  sanitize_report = λ id report. report;
  clears_reports = false;
  clear_report = λ id report. report;
}

abbrev empty : Host
empty = record {
  state = record {
    queue = record {
      cells = λ i. record { report_id = 0; bytes = [] };
      head = 7;
      tail = 7;
      items = 0;
    };
    suspended = false;
    descriptor_current = true;
    descriptor_idx = 0;
    reports_sent = 0;
  };
  reports = λ id. 0 ∷ [];
  prev_reports = λ id. 0 ∷ [];
}

empty-IsRing : IsRing or_bufsize empty.state.queue
empty-IsRing = record { head_in = omega arith; items_in = omega arith; tail_at = refl }

-- A button is pressed and released.
abbrev calls : List Call
calls = fill (λ id. 1 ∷ []) ∷ offer 1 ∷ send false ∷ fill (λ id. 0 ∷ []) ∷ offer 1 ∷ send true ∷ []

calls_in_order_example :
    IsRing or_bufsize (run_calls buttons calls empty).state.queue
    × Steps buttons
        (contents or_bufsize empty.state.queue)
        (all_came_in buttons calls empty)
        (all_sent buttons calls empty)
        (contents or_bufsize (run_calls buttons calls empty).state.queue)
calls_in_order_example = calls_in_order buttons calls empty empty-IsRing

press_sent : all_sent buttons calls empty ≡ record { report_id = 1; bytes = 1 ∷ [] } ∷ []
unfolding offer_report add_or_queue needs_to_be_sent differ_on_absolute bytes_of send_report put
    drop_first
press_sent = refl

release_waits :
    contents or_bufsize (run_calls buttons calls empty).state.queue
    ≡ record { report_id = 1; bytes = 0 ∷ [] } ∷ []
unfolding run_calls offer_report add_or_queue needs_to_be_sent differ_on_absolute bytes_of
    send_report put drop_first
release_waits = refl
