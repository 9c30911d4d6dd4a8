-- ===== src/Monitor/Tests.antt =====
-- A packet with a cursor axis in it, which moves on.
use usb_hid_wireless_bridge.Base.{false, List, [], ◌∷◌, ◌≡◌, refl, arith}
use usb_hid_wireless_bridge.Base.Int.{pos}
use usb_hid_wireless_bridge.Monitor.Packet.{IsPacket}
use usb_hid_wireless_bridge.Monitor.{Item, coalesce, monitor_usage}
use usb_hid_wireless_bridge.Monitor.Send.{Packets, monitor_in, send_monitor_report}

abbrev axis : List Item
axis = record { usage = 0x10030; value = pos 5; hub_port = 2 } ∷ []

axis-IsPacket : IsPacket axis
axis-IsPacket = record { room = omega arith; once = λ u p. ground arith }

-- A packet is handed over and the next one begun.
abbrev filled : Packets
filled = record {
  monitor_report = λ i. axis;
  monitor_report_idx = 1;
  suspended = false;
  descriptor_idx = 0;
}

test_alternate :
    (monitor_in 0x90001 (pos 1) 0 (send_monitor_report filled)).monitor_report 0
    ≡ record { usage = 0x90001; value = pos 1; hub_port = 0 } ∷ []
unfolding monitor_in send_monitor_report monitor_usage coalesce
test_alternate = refl
