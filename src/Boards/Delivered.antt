-- ===== src/Boards/Delivered.antt =====
-- Messages of board B on the wire, and the rounds of board A's main loop.
use usb_hid_wireless_bridge.Base.{
  ℕ, suc, ◌≤◌, ◌<◌, ◌≡◌, refl, ap, ap₂, sym, ◌∙◌, Bool, true, false, List, [], ◌∷◌, ◌++◌,
  append_assoc, append-nil, Option, none, some, length, arith, if◌then◌else◌,
}
use usb_hid_wireless_bridge.Base.Each.{Each, none_left, and_then}
use usb_hid_wireless_bridge.Serial.Order.{frame}
use usb_hid_wireless_bridge.Serial.Receive.{Receiver, receive}
use usb_hid_wireless_bridge.Serial.Frame.{receive-frame}
use usb_hid_wireless_bridge.Boards.{
  FromB, descriptor_received, umount, hid_report, request_b_init, start_of_frame, get_report,
  set_report_complete, midi_packet, sent_by_b, CallOfA,
}
use usb_hid_wireless_bridge.Boards.Meaning.{IsSent, meaning_on_a, serial_callback_a-sent_by_b}
use usb_hid_wireless_bridge.Boards.Rounds.{
  BoardA, IsIdle, handled, after_receive, serial_read_a, read_report, with_report, rounds,
}

abbrev pub IsDeliverable : FromB → Type 0
IsDeliverable m = IsSent m × (length (sent_by_b m) ≤ 539)

abbrev pub frames_of_b : List FromB → List ℕ
frames_of_b [] = []
frames_of_b (m ∷ ms) = frame (sent_by_b m) ++ frames_of_b ms

abbrev pub calls_for : ℕ → List FromB → List CallOfA
calls_for interval_override [] = []
calls_for interval_override (m ∷ ms) =
    (meaning_on_a interval_override m).1 ++ calls_for interval_override ms

abbrev pub reports_in : ℕ → List FromB → List Bool
reports_in interval_override [] = []
reports_in interval_override (m ∷ ms) =
    (meaning_on_a interval_override m).0 ∷ reports_in interval_override ms

sent_by_b-lt : (m : FromB) → 0 < length (sent_by_b m)
unfolding sent_by_b
sent_by_b-lt (descriptor_received vid pid report_descriptor interface hub_port itf_num) =
    omega arith
sent_by_b-lt (umount dev_addr instance_number) = omega arith
sent_by_b-lt (hid_report dev_addr instance_number report) = omega arith
sent_by_b-lt request_b_init = omega arith
sent_by_b-lt start_of_frame = omega arith
sent_by_b-lt (get_report dev_addr interface report_id report) = omega arith
sent_by_b-lt (set_report_complete dev_addr interface report_id) = omega arith
sent_by_b-lt (midi_packet hub_port msg) = omega arith

serial_read_a_lem :
    (a : BoardA) (m : FromB) (rest : List ℕ)
    → IsDeliverable m
    → IsIdle a.receiver
    → a.wire ≡ frame (sent_by_b m) ++ rest
    → (r : Receiver) × (serial_read_a a
        ≡ some (
          (meaning_on_a a.interval_override m).0,
          record a {
            receiver = r;
            wire = rest;
            calls = a.calls ++ (meaning_on_a a.interval_override m).1;
          },
        ))
      × IsIdle r
unfolding serial_read_a
serial_read_a_lem a m rest (s, l) (i, j) e =
    let (given, left, q) = receive (frame (sent_by_b m) ++ rest) a.receiver in
    let (p, t, u, v) = receive-frame (sent_by_b m) rest a.receiver (sent_by_b-lt m) l i j in
    (
      q,
      ap
            (λ w.
              after_receive (receive w a.receiver).0
                (record a { receiver = (receive w a.receiver).2; wire = (receive w a.receiver).1 }))
            e
          ∙ ap₂ (λ g w. after_receive g (record a { receiver = q; wire = w })) p t
          ∙ ap (λ o. handled o (record a { receiver = q; wire = rest }))
              (serial_callback_a-sent_by_b a.interval_override m s),
      (u, v),
    )

-- With its limit of one, `read_report` reads one message.
read_report_lem :
    (a b : BoardA) (input_report : Bool)
    → serial_read_a a ≡ some (input_report, b)
    → read_report a ≡ some (input_report, b)
unfolding read_report
read_report_lem a b input_report e =
    ap
      (λ (o : Option (Bool × BoardA)). elim o [
        | none ↦ none
        | some (i, c) ↦ if i then some (true, c) else some (false, c)
      ])
      e
    ∙ by_case input_report
  where
    by_case :
        (i : Bool)
        → if◌then◌else◌ {A = Option (Bool × BoardA)} i (some (true, b)) (some (false, b))
          ≡ some (i, b)
    by_case true = refl
    by_case false = refl

round_lem :
    (n : ℕ) (a b : BoardA) (report : Bool)
    → read_report a ≡ some (report, b)
    → rounds (suc n) a ≡ with_report report (rounds n b)
unfolding rounds
round_lem n a b report e =
    ap
      (λ (o : Option (Bool × BoardA)). elim o [
        | none ↦ none
        | some (i, c) ↦ with_report i (rounds n c)
      ])
      e

-- Messages that board B has put on the wire, one frame after the other: as many rounds of board A's
-- main loop handle them all, one in a round, in order, each once, with the calls that they mean; a
-- round sees `new_report` for an input report and for MIDI and for nothing else, and what follows them
-- on the wire is left. (A message has at most 539 bytes and arguments of their C types.)
pub rounds-frames_of_b :
    (ms : List FromB) (a : BoardA) (rest : List ℕ)
    → Each IsDeliverable ms
    → IsIdle a.receiver
    → a.wire ≡ frames_of_b ms ++ rest
    → (r : Receiver) × (rounds (length ms) a
        ≡ some (
          reports_in a.interval_override ms,
          record a {
            receiver = r;
            wire = rest;
            calls = a.calls ++ calls_for a.interval_override ms;
          },
        ))
      × IsIdle r
rounds-frames_of_b [] a rest none_left i e = (
  a.receiver,
  unfold rounds in
      ap₂ (λ w c. some ([], record a { wire = w; calls = c })) e (sym (append-nil a.calls)),
  i,
)
rounds-frames_of_b (m ∷ ms) a rest (and_then h hs) i e =
    let calls = (meaning_on_a a.interval_override m).1 in
    let more = frames_of_b ms ++ rest in
    let (r, p, j) =
      serial_read_a_lem a m more h i
        (e ∙ append_assoc (frame (sent_by_b m)) (frames_of_b ms) rest) in
    let b : BoardA = record a { receiver = r; wire = more; calls = a.calls ++ calls } in
    let (t, q, k) = rounds-frames_of_b ms b rest hs j refl in
    (
      t,
      round_lem (length ms) a b _ (read_report_lem a b _ p)
          ∙ ap (with_report (meaning_on_a a.interval_override m).0) q
          ∙ ap
              (λ c. some (
                reports_in a.interval_override (m ∷ ms),
                record a { receiver = t; wire = rest; calls = c },
              ))
              (append_assoc a.calls calls (calls_for a.interval_override ms)),
      k,
    )
