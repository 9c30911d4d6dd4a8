-- ===== src/Monitor/Send.antt =====
-- `send_monitor_report` of remapper.cc: two packets, of which one is filled while the other is with
-- the USB device stack.
use usb_hid_wireless_bridge.Base.{
  ℕ, ◌+◌, ◌%◌, ◌<◌, ◌≡◌, ◌≢◌, refl, ◌∙◌, Bool, true, false, ◌||◌, List, [], ◌∷◌, length, Option,
  none, some, ◌==◌, if◌then◌else◌, update, arith,
}
use usb_hid_wireless_bridge.Base.Int.{ℤ}
use usb_hid_wireless_bridge.Monitor.{Item, monitor_usage}

-- `monitor_report[]`, each with the items that are filled in, and `monitor_report_idx`.
pub record Packets : Type 0 where
  pub monitor_report : ℕ → List Item
  pub monitor_report_idx : ℕ
  pub suspended : Bool
  pub descriptor_idx : ℕ

abbrev pub filling : Packets → List Item
filling s = s.monitor_report s.monitor_report_idx

-- `monitor_usage` on the packet that is being filled.
unfoldable pub monitor_in : ℕ → ℤ → ℕ → Packets → Packets
monitor_in usage value hub_port s = record s {
  monitor_report =
      update s.monitor_report s.monitor_report_idx (monitor_usage usage value hub_port (filling s));
}

-- The interface and the items that `do_send_report` gets, if it is called. Whether it takes them makes
-- no difference here.
abbrev pub handed_over : Packets → Option (ℕ × List Item)
handed_over s =
    if (length (filling s) == 0) || s.suspended
    then none
    else some (if s.descriptor_idx == 0 then 3 else 1, filling s)

unfoldable pub send_monitor_report : Packets → Packets
send_monitor_report s =
    let next = (s.monitor_report_idx + 1) % 2 in
    if (length (filling s) == 0) || s.suspended
    then s
    else record s { monitor_report = update s.monitor_report next []; monitor_report_idx = next }

-- What is monitored between two packets.
pub record Usage : Type 0 where
  pub usage : ℕ
  pub value : ℤ
  pub hub_port : ℕ

unfoldable pub monitor_all : List Usage → Packets → Packets
monitor_all [] s = s
monitor_all (u ∷ us) s = monitor_all us (monitor_in u.usage u.value u.hub_port s)

elsewhere_kept :
    (us : List Usage) (s : Packets) (i : ℕ)
    → i ≢ s.monitor_report_idx
    → (monitor_all us s).monitor_report i ≡ s.monitor_report i
unfolding monitor_all monitor_in
elsewhere_kept [] s i n = refl
elsewhere_kept (u ∷ us) s i n =
    elsewhere_kept us (monitor_in u.usage u.value u.hub_port s) i n ∙ ground (arith, n)

-- A packet that was handed to the USB stack stays as it is, whatever is monitored until the next one
-- is handed over.
pub handed_over_kept :
    (us : List Usage) (s : Packets) (interface : ℕ) (items : List Item)
    → s.monitor_report_idx < 2
    → handed_over s ≡ some (interface, items)
    → (monitor_all us (send_monitor_report s)).monitor_report s.monitor_report_idx ≡ items
unfolding send_monitor_report
handed_over_kept us s interface items lt h = by_case ((length (filling s) == 0) || s.suspended) h
  where
    next : Bool → Packets
    next c = if c then s else record s {
      monitor_report = update s.monitor_report ((s.monitor_report_idx + 1) % 2) [];
      monitor_report_idx = (s.monitor_report_idx + 1) % 2;
    }

    by_case :
        (c : Bool)
        → (if◌then◌else◌ {A = Option (ℕ × List Item)} c none
            (some (if s.descriptor_idx == 0 then 3 else 1, filling s)))
          ≡ some (interface, items)
        → (monitor_all us (next c)).monitor_report s.monitor_report_idx ≡ items
    by_case true e = absurd (ground (arith, e))
    by_case false e =
        elsewhere_kept us (next false) s.monitor_report_idx (omega arith) ∙ ground (arith, lt, e)
