-- ===== src/Trace/Tests.antt =====
-- A ring of three trace records that is full.
use usb_hid_wireless_bridge.Base.{◌≡◌, true, false, refl, drop, ◌++◌, [], ◌∷◌, some, arith}
use usb_hid_wireless_bridge.Trace.Recorded.{IsValid, dropped, read_all, read_from, write-read_all}
use usb_hid_wireless_bridge.Trace.{
  State, Content, Event, bytes, record_of, write_record, mouse_pipeline_trace_get_record,
}

abbrev content : Content
content = record { at_us = 9; what = Event.b_usb_callback; tag = 1; load = bytes (7 ∷ []) }

abbrev full : State
full = record {
  trace_ring = λ i. record_of i content;
  trace_head = 1;
  trace_count = 3;
  trace_sequence = 4;
  trace_armed = true;
  trace_frozen = false;
  filter_dev_addr = 0xff;
  filter_instance = 0xff;
}

full-IsValid : IsValid 3 full
full-IsValid = record { head_in = omega arith; count_in = omega arith }

write-read_all_example :
    read_all 3 (write_record 3 content full)
    ≡ drop (dropped 3 full) (read_all 3 full) ++ (some (record_of 4 content) ∷ [])
write-read_all_example = write-read_all 3 content full full-IsValid

-- A ring that has just been cleared.
first_record :
    read_all 1 (write_record 1 content (record full { trace_head = 0; trace_count = 0 }))
    ≡ some (record_of 4 content) ∷ []
unfolding read_from write_record mouse_pipeline_trace_get_record
first_record = refl
