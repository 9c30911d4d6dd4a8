-- ===== src/Boards/Ordered.antt =====
-- Messages of board A on the wire, and the rounds of board B's main loop.
use usb_hid_wireless_bridge.Base.{
  ℕ, ◌≤◌, ◌<◌, ◌≡◌, refl, ap, ap₂, ◌∙◌, false, if◌then◌else◌, List, [], ◌∷◌, ◌++◌, append_assoc,
  Option, none, some, length, arith,
}
use usb_hid_wireless_bridge.Base.Each.{Each, none_left, and_then}
use usb_hid_wireless_bridge.Serial.Order.{frame}
use usb_hid_wireless_bridge.Serial.Receive.{Receiver, receive}
use usb_hid_wireless_bridge.Serial.Frame.{receive-frame}
use usb_hid_wireless_bridge.Boards.{
  queue_out_report, queue_set_feature_report, queue_get_feature_report, send_b_init,
  interval_override_updated, FromA, sent_by_a, BoardB,
}
use usb_hid_wireless_bridge.Boards.Meaning.{IsSentByA, meaning_on_b, serial_callback_b-sent_by_a}
use usb_hid_wireless_bridge.Boards.Rounds.{
  IsIdle, EndB, changed, after_receive_b, serial_read_b, rounds_b,
}

sent_by_a-lt : (m : FromA) → 0 < length (sent_by_a m)
unfolding sent_by_a
sent_by_a-lt (queue_out_report interface report_id report) = omega arith
sent_by_a-lt (queue_set_feature_report interface report_id report) = omega arith
sent_by_a-lt (queue_get_feature_report interface report_id len) = omega arith
sent_by_a-lt (send_b_init interval_override) = omega arith
sent_by_a-lt interval_override_updated = omega arith

abbrev pub frames_of_a : List FromA → List ℕ
frames_of_a [] = []
frames_of_a (m ∷ ms) = frame (sent_by_a m) ++ frames_of_a ms

abbrev pub IsDeliverableByA : FromA → Type 0
IsDeliverableByA m = IsSentByA m × (length (sent_by_a m) ≤ 539)

-- Only `interval_override_updated` makes board B restart.
abbrev pub IsNoRestart : FromA → Type 0
IsNoRestart interval_override_updated = ⊥
IsNoRestart m = Unit

meaning-rebooted :
    (m : FromA) (b : BoardB) → IsNoRestart m → (meaning_on_b m b).rebooted ≡ b.rebooted
unfolding meaning_on_b
meaning-rebooted (queue_out_report interface report_id report) b n = refl
meaning-rebooted (queue_set_feature_report interface report_id report) b n = refl
meaning-rebooted (queue_get_feature_report interface report_id len) b n = refl
meaning-rebooted (send_b_init interval_override) b n = refl
meaning-rebooted interval_override_updated b n = elim n [ ]

abbrev pub board_after : List FromA → BoardB → BoardB
board_after [] b = b
board_after (m ∷ ms) b = board_after ms (meaning_on_b m b)

serial_read_b_lem :
    (x : EndB) (m : FromA) (rest : List ℕ)
    → IsDeliverableByA m
    → x.board.rebooted ≡ false
    → IsIdle x.receiver
    → x.wire ≡ frame (sent_by_a m) ++ rest
    → (r : Receiver) × (serial_read_b x
        ≡ some record { board = meaning_on_b m x.board; receiver = r; wire = rest })
      × IsIdle r
unfolding serial_read_b
serial_read_b_lem x m rest (s, l) run (i, j) e =
    let (given, left, q) = receive (frame (sent_by_a m) ++ rest) x.receiver in
    let (p, t, u, v) = receive-frame (sent_by_a m) rest x.receiver (sent_by_a-lt m) l i j in
    (
      q,
      ap
            (λ b.
              if b
              then some x
              else after_receive_b (receive x.wire x.receiver).0 (record x {
                receiver = (receive x.wire x.receiver).2;
                wire = (receive x.wire x.receiver).1;
              }))
            run
          ∙ ap
              (λ w.
                after_receive_b (receive w x.receiver).0 (record x {
                  receiver = (receive w x.receiver).2;
                  wire = (receive w x.receiver).1;
                }))
              e
          ∙ ap₂ (λ g w. after_receive_b g (record x { receiver = q; wire = w })) p t
          ∙ ap (λ o. changed o (record x { receiver = q; wire = rest }))
              (serial_callback_b-sent_by_a x.board m s),
      (u, v),
    )

-- The other way: messages of board A other than a restart, read one in a round by a board B that runs,
-- change its queue of reports for devices, its interval and its start as they are meant to, in the
-- order in which they were sent. (A message has at most 539 bytes and arguments of their C types.)
pub rounds_b-frames_of_a :
    (ms : List FromA) (x : EndB) (rest : List ℕ)
    → Each IsDeliverableByA ms
    → Each IsNoRestart ms
    → x.board.rebooted ≡ false
    → IsIdle x.receiver
    → x.wire ≡ frames_of_a ms ++ rest
    → (r : Receiver) × (rounds_b (length ms) x
        ≡ some record { board = board_after ms x.board; receiver = r; wire = rest })
      × IsIdle r
unfolding rounds_b
rounds_b-frames_of_a [] x rest none_left none_left run i e =
    (x.receiver, ap (λ w. some (record x { wire = w })) e, i)
rounds_b-frames_of_a (m ∷ ms) x rest (and_then h hs) (and_then n ns) run i e =
    let more = frames_of_a ms ++ rest in
    let (r, p, j) =
      serial_read_b_lem x m more h run i
        (e ∙ append_assoc (frame (sent_by_a m)) (frames_of_a ms) rest) in
    let y : EndB = record { board = meaning_on_b m x.board; receiver = r; wire = more } in
    let (t, q, k) =
      rounds_b-frames_of_a ms y rest hs ns (meaning-rebooted m x.board n ∙ run) j refl in
    (t, ap (λ (o : Option EndB). elim o [ none ↦ none | some z ↦ rounds_b (length ms) z ]) p ∙ q, k)
