-- ===== src/Trace.antt =====
-- The ring of trace records, mouse_pipeline_trace.cc, with its control and its readers.
use usb_hid_wireless_bridge.Base.{
  ℕ, zero, suc, ◌+◌, ◌-◌, ◌%◌, ◌^◌, Bool, true, false, ◌&&◌, ◌||◌, not, List, [], ◌∷◌, ◌++◌, length,
  take, drop, min, Option, none, some, ltb, ◌==◌, if◌then◌else◌, update,
}
use usb_hid_wireless_bridge.Base.Int.{ℤ, pos}
pub mod Recorded
pub mod Tests

pub data Event : Type 0 where
  b_usb_callback b_uart_queued b_uart_pending a_uart_received a_decoded_xy : Event
  a_mapping_output a_queue_new a_queue_aggregate a_usb_send_busy a_usb_send_ok : Event
  mark b_usb_callback_cont a_uart_received_cont : Event

-- The part of a record from x to value: typed fields, or the first bytes of a report.
pub data Payload : Type 0 where
  fields : ℤ → ℤ → ℕ → ℕ → ℕ → Payload
  bytes : List ℕ → Payload

-- `mouse_pipeline_trace_record_t` less its constant source
pub record Record : Type 0 where
  pub sequence : ℕ
  pub timestamp_us : ℕ
  pub event : Event
  pub flags : ℕ
  pub payload : Payload

pub record State : Type 0 where
  pub trace_ring : ℕ → Record
  pub trace_head : ℕ
  pub trace_count : ℕ
  pub trace_sequence : ℕ
  pub trace_armed : Bool
  pub trace_frozen : Bool
  pub filter_dev_addr : ℕ
  pub filter_instance : ℕ

pub data Action : Type 0 where
  clear arm freeze mark : Action

-- The record as written, less its number.
pub record Content : Type 0 where
  pub at_us : ℕ
  pub what : Event
  pub tag : ℕ
  pub load : Payload

abbrev pub record_of : ℕ → Content → Record
record_of n c = record {
  sequence = n;
  timestamp_us = c.at_us % 2 ^ 32;
  event = c.what;
  flags = c.tag;
  payload = c.load;
}

-- `capacity` is MOUSE_PIPELINE_TRACE_CAPACITY, which the build defines.
module _ (capacity : ℕ) where
  -- The writing that both kinds of event share.
  unfoldable pub write_record : Content → State → State
  write_record c s = record s {
    trace_ring = update s.trace_ring s.trace_head (record_of s.trace_sequence c);
    trace_sequence = (s.trace_sequence + 1) % 2 ^ 32;
    trace_head = (s.trace_head + 1) % capacity;
    trace_count = if ltb s.trace_count capacity then s.trace_count + 1 else s.trace_count;
  }

  unfoldable pub mouse_pipeline_trace_event : Content → State → State
  mouse_pipeline_trace_event c s =
      if not s.trace_armed || s.trace_frozen then s else write_record c s

  abbrev pub continuation_of : Event → Event
  continuation_of Event.b_usb_callback = Event.b_usb_callback_cont
  continuation_of e = Event.a_uart_received_cont

  abbrev pub raw_content : ℕ → Event → List ℕ → Content
  raw_content now e data_bytes = record {
    at_us = now;
    what = e;
    tag = length data_bytes;
    load = bytes data_bytes;
  }

  -- A report of up to 12 bytes is one record, a longer one two, the second with up to 4 bytes.
  unfoldable pub mouse_pipeline_trace_raw_event : Event → List ℕ → ℕ → State → State
  mouse_pipeline_trace_raw_event e report now s =
      let first = write_record (raw_content now e (take 12 report)) s in
      if not s.trace_armed || s.trace_frozen
      then s
      else if ltb 12 (length report)
      then write_record (raw_content now (continuation_of e) (take 4 (drop 12 report))) first
      else first

  unfoldable pub mouse_pipeline_trace_control : Action → ℕ → ℕ → ℕ → State → State
  mouse_pipeline_trace_control Action.clear dev_addr interface now s = record s {
    trace_head = 0;
    trace_count = 0;
    trace_sequence = 0;
    trace_frozen = false;
  }
  mouse_pipeline_trace_control Action.arm dev_addr interface now s = record s {
    trace_armed = true;
    trace_frozen = false;
    filter_dev_addr = dev_addr;
    filter_instance = interface;
  }
  mouse_pipeline_trace_control Action.mark dev_addr interface now s =
      mouse_pipeline_trace_event
        (record { at_us = now; what = Event.mark; tag = 0; load = fields (pos 0) (pos 0) 0 0 0 }) s
  mouse_pipeline_trace_control Action.freeze dev_addr interface now s = record s {
    trace_frozen = true;
    trace_armed = false;
  }

  unfoldable pub mouse_pipeline_trace_get_record : ℕ → State → Option Record
  mouse_pipeline_trace_get_record i s =
      if ltb i s.trace_count
      then some
          (s.trace_ring (((s.trace_head + capacity - s.trace_count) % capacity + i) % capacity))
      else none

unfoldable pub mouse_pipeline_trace_matches_endpoint : ℕ → ℕ → State → Bool
mouse_pipeline_trace_matches_endpoint dev_addr interface s =
    ((s.filter_dev_addr == 0xff) || (s.filter_dev_addr == dev_addr))
    && ((s.filter_instance == 0xff) || (s.filter_instance == interface))
