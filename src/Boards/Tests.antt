-- ===== src/Boards/Tests.antt =====
-- The link between the boards at work.
use usb_hid_wireless_bridge.Base.{◌≡◌, refl, true, false, List, [], ◌∷◌, ◌++◌, some, arith}
use usb_hid_wireless_bridge.Base.Each.{Each, none_left, and_then}
use usb_hid_wireless_bridge.Serial.Receive.{Receiver}
use usb_hid_wireless_bridge.OutReport.{OutReport, output}
use usb_hid_wireless_bridge.Boards.{
  FromA, FromB, hid_report, midi_packet, umount, sent_by_b, queue_out_report, send_b_init,
  sent_by_a,
}
use usb_hid_wireless_bridge.Boards.Rounds.{BoardA, IsIdle, rounds, EndB, rounds_b}
use usb_hid_wireless_bridge.Boards.Delivered.{
  IsDeliverable, frames_of_b, calls_for, reports_in, rounds-frames_of_b,
}
use usb_hid_wireless_bridge.Boards.Ordered.{
  IsDeliverableByA, frames_of_a, board_after, rounds_b-frames_of_a,
}

abbrev idle : Receiver
idle = record { buffer = λ i. 0; bytes_read = 0; escaped = false }

abbrev from_b : List FromB
from_b = hid_report 1 2 (4 ∷ 0xc0 ∷ []) ∷ umount 1 2 ∷ midi_packet 3 (9 ∷ 8 ∷ 7 ∷ 6 ∷ []) ∷ []

abbrev board_a : BoardA
board_a = record {
  interval_override = 5;
  receiver = idle;
  wire = frames_of_b from_b ++ (0xc0 ∷ []);
  calls = [];
}

from_b-IsDeliverable : Each IsDeliverable from_b
unfolding sent_by_b
from_b-IsDeliverable =
    and_then ((omega arith, omega arith), omega arith)
      (and_then ((omega arith, omega arith), omega arith)
        (and_then ((omega arith, 9, 8, 7, 6, refl), omega arith) none_left))

rounds-frames_of_b_example :
    (r : Receiver) × (rounds 3 board_a
      ≡ some (
        reports_in 5 from_b,
        record board_a { receiver = r; wire = 0xc0 ∷ []; calls = calls_for 5 from_b },
      ))
    × IsIdle r
rounds-frames_of_b_example =
    rounds-frames_of_b from_b board_a (0xc0 ∷ []) from_b-IsDeliverable (refl, refl) refl

abbrev from_a : List FromA
from_a = queue_out_report 0x102 7 (1 ∷ []) ∷ send_b_init 4 ∷ []

abbrev no_report : OutReport
no_report = record {
  dev_addr = 0;
  interface = 0;
  report_id = 0;
  len = 0;
  type = output;
  report = [];
}

abbrev end_b : EndB
end_b = record {
  board = record {
    out_reports = record {
      queue = record { cells = λ i. no_report; head = 0; tail = 0; items = 0 };
      ready_to_send = true;
    };
    interval_override = 0;
    initialized = true;
    rebooted = false;
  };
  receiver = idle;
  wire = frames_of_a from_a ++ [];
}

from_a-IsDeliverable : Each IsDeliverableByA from_a
unfolding sent_by_a
from_a-IsDeliverable =
    and_then ((omega arith, omega arith), omega arith)
      (and_then (omega arith, omega arith) none_left)

rounds_b-frames_of_a_example :
    (r : Receiver) × (rounds_b 2 end_b
      ≡ some record { board = board_after from_a end_b.board; receiver = r; wire = [] })
    × IsIdle r
rounds_b-frames_of_a_example =
    rounds_b-frames_of_a from_a end_b [] from_a-IsDeliverable (and_then tt (and_then tt none_left))
      refl (refl, refl) refl
