-- ===== src/Relay/Tests.antt =====
-- Board B with two interfaces of one device, one of them holding a report back.
use usb_hid_wireless_bridge.Base.{ℕ, ◌≡◌, refl, Bool, true, [], ◌∷◌, none, arith, ◌⊎◌}
use usb_hid_wireless_bridge.Relay.{
  Input, cleared, registered, World, flush_pending_hid_reports, report_received_callback,
  register_hid_input,
}
use usb_hid_wireless_bridge.Relay.Table.{Distinct}
use usb_hid_wireless_bridge.Relay.Held.{Keeps, flush-Keeps}
use usb_hid_wireless_bridge.Relay.Received.{Adds, report_received-Adds}

abbrev waiting : Input
waiting = record (registered 2 0) { report_pending = true; report = 1 ∷ 2 ∷ [] }

abbrev world : World
world = record {
  inputs = cleared ∷ waiting ∷ registered 2 1 ∷ [];
  next_pending_hid_input = 1;
  taken = [];
  asked = 0;
  armed = [];
}

world-Distinct : Distinct world.inputs
world-Distinct d e = ground arith

abbrev always : ℕ → Bool
always n = true

flush-Keeps_example : Keeps world (flush_pending_hid_reports always world)
flush-Keeps_example = flush-Keeps always world world-Distinct

report_received-Adds_example :
    ((register_hid_input 2 1 world.inputs).0 ≡ none)
    ⊎ Adds 2 1 (7 ∷ []) world (report_received_callback always 2 1 (7 ∷ []) world)
report_received-Adds_example =
    report_received-Adds always 2 1 (7 ∷ []) world (omega arith) world-Distinct refl
