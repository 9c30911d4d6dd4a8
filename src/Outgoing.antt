-- ===== src/Outgoing.antt =====
-- The reports for the host, remapper.cc: when a report has to be sent, the queue of reports, and
-- `send_report`. What the USB device stack answers comes in as an argument.
use usb_hid_wireless_bridge.Base.{
  ℕ, zero, suc, ◌+◌, ◌≤◌, ◌<◌, ◌^◌, ◌%◌, Bool, true, false, ◌&&◌, ◌||◌, not, List, [], ◌∷◌, ◌++◌,
  length, bit_and, Option, none, some, ltb, ◌==◌, if◌then◌else◌,
}
use usb_hid_wireless_bridge.Ring.{Ring, put, drop_first, first}
pub mod Order
pub mod Mapped
pub mod Calls
pub mod Totals
pub mod Mouse
pub mod Tests

-- One byte of a report as `needs_to_be_sent` sees it: its value, its value in the report before, and
-- its masks of relative and absolute bits.
pub record Byte : Type 0 where
  pub report : ℕ
  pub prev_report : ℕ
  pub relative : ℕ
  pub absolute : ℕ

-- `(report1[i] & absolute[i]) != (report2[i] & absolute[i])`
abbrev pub differs : Byte → Bool
differs b = not (bit_and b.report b.absolute == bit_and b.prev_report b.absolute)

-- `report[i] & relative[i]`
abbrev pub has_relative : Byte → Bool
has_relative b = not (bit_and b.report b.relative == 0)

unfoldable pub needs_to_be_sent : List Byte → Bool
needs_to_be_sent [] = false
needs_to_be_sent (b ∷ bs) = if has_relative b || differs b then true else needs_to_be_sent bs

unfoldable pub differ_on_absolute : List Byte → Bool
differ_on_absolute [] = false
differ_on_absolute (b ∷ bs) = if differs b then true else differ_on_absolute bs

pub record Report : Type 0 where
  pub report_id : ℕ
  pub bytes : List ℕ

abbrev pub or_bufsize : ℕ
or_bufsize = 8

-- `descriptor_current`: our_descriptor == &our_descriptors[our_descriptor_number]
pub record State : Type 0 where
  pub queue : Ring Report
  pub suspended : Bool
  pub descriptor_current : Bool
  pub descriptor_idx : ℕ
  pub reports_sent : ℕ

-- The interface of the host, with WBT2_BOOT_INTERFACES.
abbrev pub interface_of : ℕ → ℕ → ℕ
interface_of descriptor_idx report_id =
    if descriptor_idx == 0 then if report_id == 1 then 1 else if report_id == 3 then 2 else 0 else 0

-- What `do_send_report` is called with, if it is.
abbrev pub offered : State → Option (ℕ × Report)
offered s =
    if s.suspended || (s.queue.items == 0)
    then none
    else if s.descriptor_current
    then some (interface_of s.descriptor_idx (first s.queue).report_id, first s.queue)
    else none

-- `accepted`: the answer of `do_send_report`.
unfoldable pub send_report : Bool → State → Bool × State
send_report accepted s =
    if s.suspended || (s.queue.items == 0)
    then (false, s)
    else if s.descriptor_current && accepted
    then (
      true,
      record s {
        queue = drop_first or_bufsize s.queue;
        reports_sent = (s.reports_sent + 1) % 2 ^ 32;
      },
    )
    else (false, s)
