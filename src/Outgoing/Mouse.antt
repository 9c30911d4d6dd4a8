-- ===== src/Outgoing/Mouse.antt =====
-- A report of a mouse that is added to the one in the queue.
use usb_hid_wireless_bridge.Base.{false, [], ◌∷◌, ◌≡◌, refl, arith}
use usb_hid_wireless_bridge.Base.Int.{◌+ℤ◌, uint32}
use usb_hid_wireless_bridge.Bits.{
  get_bit, get_bits, put_into, put_bit, put_bits, sign_extend_hid_value,
}
use usb_hid_wireless_bridge.Ring.{contents, change_last}
use usb_hid_wireless_bridge.Aggregate.{
  field_of, all_in_range, add_field, add_fields, aggregate_relative,
}
use usb_hid_wireless_bridge.Aggregate.Tests.{
  axis, usages, waiting, moved, waiting-IsBytes, usages-Proper, usages-Separate,
}
use usb_hid_wireless_bridge.Outgoing.{or_bufsize, needs_to_be_sent, differ_on_absolute}
use usb_hid_wireless_bridge.Outgoing.Mapped.{
  Device, Reports, bytes_of, add_or_queue, offer_report, offer_reports,
}
use usb_hid_wireless_bridge.Outgoing.Totals.{here, there, total, total-add_or_queue}

abbrev mouse : Device
mouse = record {
  our_usages = λ id. usages;
  report_masks_relative = λ id. 0 ∷ 255 ∷ 255 ∷ [];
  report_masks_absolute = λ id. 7 ∷ 0 ∷ 0 ∷ [];
  sanitize_report = λ id report. report;
  clears_reports = false;
  clear_report = λ id report. report;
}

abbrev one_waits : Reports
one_waits = record {
  reports = λ id. moved;
  prev_reports = λ id. waiting;
  queue = record {
    cells = λ i. record { report_id = 1; bytes = waiting };
    head = 7;
    tail = 0;
    items = 1;
  };
}

test_offered :
    contents or_bufsize (offer_reports mouse (1 ∷ []) one_waits).queue
    ≡ record { report_id = 1; bytes = 1 ∷ 120 ∷ 255 ∷ [] } ∷ []
unfolding offer_reports offer_report add_or_queue needs_to_be_sent differ_on_absolute bytes_of
    change_last aggregate_relative all_in_range add_fields add_field field_of get_bits get_bit
    put_bits put_bit put_into sign_extend_hid_value ◌+ℤ◌ uint32
test_offered = refl

total-add_or_queue_example :
    total 1 (axis 8) (contents or_bufsize (add_or_queue mouse 1 moved one_waits).queue)
    ≡ total 1 (axis 8) (contents or_bufsize one_waits.queue) +ℤ field_of moved (axis 8)
total-add_or_queue_example =
    total-add_or_queue mouse 1 moved one_waits (axis 8) (there here) refl usages-Separate
      record { head_in = omega arith; items_in = omega arith; tail_at = refl } (omega arith)
      (λ e. record { is_bytes = waiting-IsBytes; proper = usages-Proper })
