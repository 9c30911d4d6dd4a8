-- ===== src/Boards/Rounds.antt =====
-- `read_report` of remapper_dual_a.cc, which the main loop of board A calls once in a round, and the
-- call of `serial_read` in that of board B.
use usb_hid_wireless_bridge.Base.{
  ℕ, zero, suc, ◌≡◌, Bool, true, false, ◌||◌, List, [], ◌∷◌, ◌++◌, Option, none, some,
  if◌then◌else◌,
}
use usb_hid_wireless_bridge.Serial.Receive.{Receiver, receive}
use usb_hid_wireless_bridge.Boards.{
  CallOfA, result_of, serial_callback_a, BoardB, serial_callback_b,
}

-- The receiver of serial.cc is between two frames.
abbrev pub IsIdle : Receiver → Type 0
IsIdle r = (r.bytes_read ≡ 0) × (r.escaped ≡ false)

-- `wire` is what the UART has received and `serial_read` has not taken; `calls` is what the callback
-- has called, oldest first.
pub record BoardA : Type 0 where
  pub interval_override : ℕ
  pub receiver : Receiver
  pub wire : List ℕ
  pub calls : List CallOfA

abbrev pub handled : Option (Bool × List CallOfA) → BoardA → Option (Bool × BoardA)
handled none a = none
handled (some (input_report, calls)) a = some (input_report, record a { calls = a.calls ++ calls })

abbrev pub after_receive : Option (List ℕ) → BoardA → Option (Bool × BoardA)
after_receive none a = some (false, a)
after_receive (some message) a =
    handled (result_of (serial_callback_a a.interval_override message)) a

-- `serial_read(serial_callback)`
unfoldable pub serial_read_a : BoardA → Option (Bool × BoardA)
unfolding serial_callback_a
serial_read_a a =
    let (given, left, q) = receive a.wire a.receiver in
    after_receive given (record a { receiver = q; wire = left })

abbrev pub dual_a_serial_drain_limit : ℕ
dual_a_serial_drain_limit = 1

-- The loop of `read_report`, from some round on; the Boolean is `any_input_report`.
unfoldable pub drain : ℕ → Bool → BoardA → Option (Bool × BoardA)
unfolding serial_read_a
drain zero any_input_report a = some (any_input_report, a)
drain (suc n) any_input_report a = elim (serial_read_a a) [
  | none ↦ none
  | some (input_report, b) ↦
      (let more = drain n true b in
        if input_report then more else some (any_input_report || false, b))
]

-- `*new_report`; the tick is not part of this state.
unfoldable pub read_report : BoardA → Option (Bool × BoardA)
unfolding drain
read_report a = drain dual_a_serial_drain_limit false a

abbrev pub with_report : Bool → Option (List Bool × BoardA) → Option (List Bool × BoardA)
with_report report none = none
with_report report (some (reports, a)) = some (report ∷ reports, a)

-- `n` rounds of the main loop, with what each finds in `new_report`.
unfoldable pub rounds : ℕ → BoardA → Option (List Bool × BoardA)
unfolding read_report
rounds zero a = some ([], a)
rounds (suc n) a = elim (read_report a) [
  | none ↦ none
  | some (new_report, b) ↦ with_report new_report (rounds n b)
]

-- Board B's end of the link.
pub record EndB : Type 0 where
  pub board : BoardB
  pub receiver : Receiver
  pub wire : List ℕ

abbrev pub changed : Option BoardB → EndB → Option EndB
changed none e = none
changed (some b) e = some (record e { board = b })

abbrev pub after_receive_b : Option (List ℕ) → EndB → Option EndB
after_receive_b none e = some e
after_receive_b (some message) e = changed (result_of (serial_callback_b e.board message)) e

-- A round after the restart does nothing: what board B does then is a run of its own, from the values
-- that its globals start with.
unfoldable pub serial_read_b : EndB → Option EndB
unfolding serial_callback_b
serial_read_b e =
    let (given, left, q) = receive e.wire e.receiver in
    let after = after_receive_b given (record e { receiver = q; wire = left }) in
    if e.board.rebooted then some e else after

unfoldable pub rounds_b : ℕ → EndB → Option EndB
unfolding serial_read_b
rounds_b zero e = some e
rounds_b (suc n) e = elim (serial_read_b e) [ none ↦ none | some f ↦ rounds_b n f ]
