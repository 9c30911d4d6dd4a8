-- ===== src/Lib.antt =====
-- The firmware of a USB HID bridge of two RP2040 boards (firmware/hid-remapper/firmware/src, called
-- D below). Board B is the USB host: it receives the reports of keyboards and mice and sends them
-- over a UART to board A, which maps them and is the USB device that the computer sees. This library
-- models the parts of both boards that carry their own logic.
--
-- The parts, and where they are modelled:
--   Serial      D/serial.cc, the link between the boards. `my_putc` and its ring of 512 bytes,
--               `send_escaped_byte`, `serial_write`, and the two loops of `serial_read` (`drain`,
--               `receive`). The answers of the UART are a function of the number of the question; the
--               bytes that have arrived are a list. Serial.Receive is the receiver, Serial.Order,
--               Serial.Write, Serial.Bytes and Serial.Frame the proofs.
--   Crc         D/crc.cc, `crc_table` and `crc32`.
--   Ring        the circular buffers that D/serial.cc, D/out_report.cc and D/remapper.cc each write
--               out: a C array as a function of the index, with head, tail and items. Ring.Queue has
--               the lemmas that they share.
--   Relay       D/remapper_dual_b.cc, board B's table of HID inputs and the forwarding of reports:
--               `register_hid_input`, `unregister_hid_input`, `report_received_callback`,
--               `flush_pending_hid_reports`. Whether the link has room for a message is a function of
--               the number of the attempt.
--   Diagnostics D/remapper_dual_b.cc with HID_HOST_DIAGNOSTICS, the two queues of diagnostic records.
--   HostUtils   D/hid_host_utils.h, `hid_report_descriptor_has_input`, which board B asks whether an
--               interface has reports to receive.
--   OutReport   D/out_report.cc, the queue of reports for devices.
--   Boards      D/dual.h and the messages between the boards: what D/remapper_dual_b.cc sends and the
--               `serial_callback` of D/remapper_dual_a.cc, and the other way round, where the callback
--               of board B queues through OutReport. Boards.Rounds joins them to the receiver of
--               Serial: `read_report` of board A and the `serial_read` of board B's main loop. A run of
--               board B ends with `watchdog_reboot`.
--   Config      D/config.cc, the configuration: its state, Config.Persist what is stored,
--               Config.Load, Config.Older and Config.Versions the loaders of all versions,
--               Config.Session the commands of the configuration tool (`handle_set_report1`),
--               Config.Answer the answers (`handle_get_report1`), Config.Macros and Config.Exprs what
--               the two do with macros and expressions. Usages of the descriptors come from Rle.
--   Packed      the packed structs of D/types.h and D/dual.h as bytes, and walks of a pointer over
--               them, which Config and Boards read and write through.
--   NumLock     the filter of NumLock taps in D/remapper.cc (`num_lock_sync_filter_t`): a keyboard
--               wraps each keypad key into two NumLock taps, which must not reach the computer.
--               NumLock is the state machine (`observe_num_lock_sync_state`,
--               `advance_num_lock_sync_timeout`), NumLock.Frame what happens once in a mapping frame
--               (`apply_filtered_num_lock_states`) and the inferred state of the lock.
--   Startup     D/startup_numlock_sync.h, when the sequence of the first boot may start.
--   Slots       the table `usage_state_ptr` of D/remapper.cc from usages to places in input_state[].
--   Expr        the stack machine for expressions in D/remapper.cc: its check `is_expr_valid` and its
--               run `eval_expr`, one step for each operation. It takes slots from Slots. Expr.Machine
--               has the state, Expr.Ops and Expr.Deadzone the arithmetic, Expr.Eval the run.
--   Bits        fields of a report at any bit position: `get_bits`, `put_bits` of D/remapper.cc and
--               `sign_extend_hid_value` of D/hid_report_bits.h. Usages has `usage_def_t`.
--   Aggregate   `aggregate_relative` of D/remapper.cc, which adds the relative fields of a report to
--               those of the one that is still queued. It reads and writes fields through Bits.
--   Outgoing    the reports for the computer in D/remapper.cc: `needs_to_be_sent`,
--               `differ_on_absolute`, the queue and `send_report`; Outgoing.Mapped is the loop over
--               the reports at the end of `process_mapping`, which adds or queues through Aggregate
--               and Ring; Outgoing.Calls puts its rounds and `send_report` together. The functions of
--               the emulated device are arguments.
--   Descriptor  D/descriptor_parser.cc: the parser's state, `mark_usage` and, in Main, the Main items;
--               Descriptor.Walk is the loop over the items. The descriptor is a function from an
--               index to a byte, since the parser reads behind its end.
--   Interfaces  D/descriptor_parser.cc, `assign_interface_index` and what `clear_descriptor_data`
--               does to the indices.
--   TapHold     tap and hold of a key at the start of a frame of `process_mapping`, D/remapper.cc.
--   Layers      the sticky usages and the layers in such a frame; keys and sticky states are numbers
--               where the source has pointers.
--   Flash       `flash_b_side` of D/remapper_dual_a.cc: the order of the calls over SWD, their errors,
--               and the program read back in blocks of 256 bytes, on fuel: one block for each byte of
--               the program and one more, though a block holds 256. What the SWD routines answer is
--               an argument (Flash.Verified, Flash.Written).
--   Playback    the macros in a frame of `process_mapping`, D/remapper.cc: those that are triggered are
--               queued, and the first entry of the queue is pressed (Playback.Pressed).
--   Scroll      `handle_scroll` of D/remapper.cc.
--   Rle         `rlencode` of D/remapper.cc.
--   Monitor     `monitor_usage` and, in Monitor.Send, `send_monitor_report` of D/remapper.cc.
--   Trace       D/mouse_pipeline_trace.cc, the ring of trace records.
--   Base        the names that all share: Boolean tests, lists measured by native numbers, and
--               Base.Int, signed integers with the conversions of a 32-bit machine.
--
-- Conventions. A `uint32_t` or `uint64_t` is a natural number whose wrap-around is written out; an
-- `int32_t` is an integer that `int32` brings into range after each operation. A C array is a function
-- of its index, or a list where it has a fixed number of entries. Calls of the USB stack, of the UART
-- and of the floating point library are arguments or are logged in the state. Loops over a buffer take
-- fuel where they do not recurse on a list: `has_input_from` takes as many rounds as there are bytes,
-- which are enough since each round takes a byte, and `drain` as many as the caller gives, of which
-- those beyond the number of items do nothing. `parse_items` takes a number of rounds, and gives no
-- result if they are not enough; it stays at an item whose loop over the values of an array never ends. A read of Packed that goes past the end of its buffer gives no result,
-- where the code reads on. The build modelled has WBT2_BOOT_INTERFACES and
-- WBT2_SUPPRESS_23UB_NUM_LOCK, and not STABLE_NUM_LOCK_INFERENCE, HID_HOST_DIAGNOSTICS or
-- LEGACY_RELATIVE_AGGREGATION; Trace is the code of MOUSE_PIPELINE_TRACE, and Diagnostics and
-- Flash are code of HID_HOST_DIAGNOSTICS, each by itself.
--
-- Not modelled: of the mapping engine (`process_mapping`) the sources of a mapping
-- and the outputs; of the parser the usages of the D-pad and the buffers for output
-- reports; of board A the diagnostic snapshots and the SWD routines; the descriptors of the emulated
-- devices, the quirks of devices and the drivers for consoles, which are tables and glue of the USB
-- stack; and the debug port, the peripherals and the main loops, which are input and output.
pub mod Base
pub mod Bits
pub mod Usages
pub mod Aggregate
pub mod Startup
pub mod TapHold
pub mod HostUtils
pub mod Interfaces
pub mod Layers
pub mod Monitor
pub mod NumLock
pub mod Playback
pub mod Ring
pub mod Rle
pub mod Scroll
pub mod Boards
pub mod Config
pub mod Crc
pub mod Serial
pub mod OutReport
pub mod Packed
pub mod Outgoing
pub mod Relay
pub mod Slots
pub mod Trace
pub mod Descriptor
pub mod Diagnostics
pub mod Flash
pub mod Expr
