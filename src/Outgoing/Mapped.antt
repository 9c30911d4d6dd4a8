-- ===== src/Outgoing/Mapped.antt =====
-- The end of `process_mapping` of remapper.cc: the loop over the reports for the host that the
-- mappings have filled. Each is added to the last one in the queue, or becomes a new item.
use usb_hid_wireless_bridge.Base.{
  ℕ, Bool, true, false, ◌&&◌, not, List, [], ◌∷◌, drop, get_or, ltb, ◌==◌, if◌then◌else◌, update,
  map,
}
use usb_hid_wireless_bridge.Ring.{Ring, put, last_place, change_last}
use usb_hid_wireless_bridge.Usages.{UsageDef}
use usb_hid_wireless_bridge.Aggregate.{aggregate_relative}
use usb_hid_wireless_bridge.Outgoing.{
  Byte, needs_to_be_sent, differ_on_absolute, Report, or_bufsize,
}

-- What the emulated device gives: for each report id its usages and masks, and the functions of its
-- descriptor, of which `sanitize_report` keeps the report if the device has none.
pub record Device : Type 0 where
  pub our_usages : ℕ → List UsageDef
  pub report_masks_relative : ℕ → List ℕ
  pub report_masks_absolute : ℕ → List ℕ
  pub sanitize_report : ℕ → List ℕ → List ℕ
  pub clears_reports : Bool
  pub clear_report : ℕ → List ℕ → List ℕ

pub record Reports : Type 0 where
  pub reports : ℕ → List ℕ
  pub prev_reports : ℕ → List ℕ
  pub queue : Ring Report

-- A report beside the one before it and the masks.
unfoldable pub bytes_of : List ℕ → List ℕ → List ℕ → List ℕ → List Byte
bytes_of [] prev relative absolute = []
bytes_of (b ∷ bs) prev relative absolute =
    record {
      report = b;
      prev_report = get_or prev 0 0;
      relative = get_or relative 0 0;
      absolute = get_or absolute 0 0;
    }
    ∷ bytes_of bs (drop 1 prev) (drop 1 relative) (drop 1 absolute)

module _ (device : Device) where
  abbrev pub beside : ℕ → List ℕ → List ℕ → List Byte
  beside report_id report prev =
      bytes_of report prev (device.report_masks_relative report_id)
        (device.report_masks_absolute report_id)

  -- `outgoing_reports[or_tail]` is filled, and the report remembered.
  abbrev pub queue_new : ℕ → List ℕ → Reports → Reports
  queue_new report_id report s = record s {
    queue = put or_bufsize record { report_id = report_id; bytes = report } s.queue;
    prev_reports = update s.prev_reports report_id report;
  }

  -- The report is queued: added to the last one, if that has its id, the same absolute bits and room
  -- for the sums.
  unfoldable pub add_or_queue : ℕ → List ℕ → Reports → Reports
  add_or_queue report_id report s =
      let last = s.queue.cells (last_place or_bufsize s.queue) in
      let added = aggregate_relative (device.our_usages report_id) last.bytes report in
      if ltb 0 s.queue.items
        && ((last.report_id == report_id)
            && (not (differ_on_absolute (beside report_id report last.bytes)) && added.0))
      then record s {
        queue =
            change_last or_bufsize record { report_id = last.report_id; bytes = added.1 } s.queue;
      }
      else queue_new report_id report s

  -- `memset`, or the device's own function.
  abbrev pub cleared_report : ℕ → List ℕ → List ℕ
  cleared_report report_id report =
      if device.clears_reports then device.clear_report report_id report else map (λ b. 0) report

  abbrev pub clear_one : ℕ → Reports → Reports
  clear_one report_id s = record s {
    reports = update s.reports report_id (cleared_report report_id (s.reports report_id));
  }

  abbrev pub sanitize_one : ℕ → Reports → Reports
  sanitize_one report_id s = record s {
    reports = update s.reports report_id (device.sanitize_report report_id (s.reports report_id));
  }

  -- One round of the loop; true if it goes on.
  unfoldable pub offer_report : ℕ → Reports → Bool × Reports
  offer_report report_id s₀ =
      let s = sanitize_one report_id s₀ in
      let report = s.reports report_id in
      if needs_to_be_sent (beside report_id report (s.prev_reports report_id))
      then if s.queue.items == or_bufsize
        then (false, s)
        else (true, clear_one report_id (add_or_queue report_id report s))
      else (true, clear_one report_id s)

  unfoldable pub offer_reports : List ℕ → Reports → Reports
  offer_reports [] s = s
  offer_reports (report_id ∷ report_ids) s =
      let r = offer_report report_id s in
      let behind = offer_reports report_ids r.1 in if r.0 then behind else r.1
