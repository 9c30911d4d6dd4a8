-- ===== src/Relay/Held.antt =====
-- The reports of each interface through board B's table, sent and held back, remapper_dual_b.cc.
use usb_hid_wireless_bridge.Base.{
  ℕ, zero, suc, ◌+◌, ◌%◌, ◌≡◌, refl, ap, ap₂, ◌∙◌, sym, Bool, true, false, ◌&&◌, ◌||◌, not, List,
  [], ◌∷◌, ◌++◌, append-nil, append_assoc, length, Option, some, none, ltb, ◌==◌, if◌then◌else◌,
  arith, get_elem?, set, inl, inr, Bool-cases,
}
use usb_hid_wireless_bridge.Relay.{
  Input, is_input, Message, World, cfg_tuh_hid, epin_bufsize, send_hid_report, after_send, flush_at,
  flush_rounds, flush_pending_hid_reports,
}
use usb_hid_wireless_bridge.Relay.Table.{Absent, Distinct, OnlyAt, OnlyAt-get, AtMostOne-set_same}

-- The reports of one interface among the messages sent.
abbrev pub from : ℕ → ℕ → List Message → List (List ℕ)
from d e [] = []
from d e (m ∷ ms) =
    if (m.from_dev == d) && (m.from_interface == e) then m.bytes ∷ from d e ms else from d e ms

-- The report of one interface that is held back.
abbrev pub held_by : ℕ → ℕ → Input → List (List ℕ)
held_by d e s = if is_input d e s && s.report_pending then s.report ∷ [] else []

abbrev pub held : ℕ → ℕ → List Input → List (List ℕ)
held d e [] = []
held d e (s ∷ ss) = held_by d e s ++ held d e ss

-- All reports of one interface that have been accepted and not lost, in order.
abbrev pub stream : ℕ → ℕ → World → List (List ℕ)
stream d e w = from d e w.taken ++ held d e w.inputs

pub from-append :
    (d e : ℕ) (ms ns : List Message) → from d e (ms ++ ns) ≡ from d e ms ++ from d e ns
from-append d e [] ns = refl
from-append d e (m ∷ ms) ns = ground (arith, from-append d e ms ns)

held-Absent : (d e : ℕ) (ss : List Input) → Absent d e ss → held d e ss ≡ []
held-Absent d e [] a = refl
held-Absent d e (s ∷ ss) a = ground (arith, held-Absent d e ss a.1)

abbrev held_at : ℕ → ℕ → Option Input → List (List ℕ)
held_at d e none = []
held_at d e (some s) = held_by d e s

pub held-set_same :
    (d e i : ℕ) (ss : List Input) (s t : Input)
    → get_elem? ss i ≡ some s
    → held_by d e t ≡ held_by d e s
    → held d e (set ss i t) ≡ held d e ss
held-set_same d e i [] s t g h = refl
held-set_same d e zero (u ∷ ss) s t g h = ap (λ l. l ++ held d e ss) (h ∙ sym (ap (held_at d e) g))
held-set_same d e (suc i) (u ∷ ss) s t g h =
    ap (λ l. held_by d e u ++ l) (held-set_same d e i ss s t g h)

pub held-only :
    (d e i : ℕ) (ss : List Input) (t : Input)
    → OnlyAt d e i ss
    → held d e (set ss i t) ≡ held_by d e t
held-only d e i [] t o = elim o [ ]
held-only d e zero (u ∷ ss) t o =
    ap (λ l. held_by d e t ++ l) (held-Absent d e ss o.1) ∙ append-nil _
held-only d e (suc i) (u ∷ ss) t o = ground (arith, held-only d e i ss t o.1)

held-here :
    (d e i : ℕ) (ss : List Input) (s : Input)
    → get_elem? ss i ≡ some s
    → OnlyAt d e i ss
    → held d e ss ≡ held_by d e s
held-here d e i [] s g o = elim o [ ]
held-here d e zero (u ∷ ss) s g o =
    ap (λ l. held_by d e u ++ l) (held-Absent d e ss o.1)
    ∙ append-nil (held_by d e u)
    ∙ ap (held_at d e) g
held-here d e (suc i) (u ∷ ss) s g o = ground (arith, held-here d e i ss s g o.1)

-- A message that leaves the table for the link.
abbrev message_of : Input → Message
message_of s = record { from_dev = s.dev_addr; from_interface = s.interface; bytes = s.report }

sent_stream :
    (d e i : ℕ) (ss : List Input) (ms : List Message) (s : Input)
    → Distinct ss
    → get_elem? ss i ≡ some s
    → s.active ≡ true
    → s.report_pending ≡ true
    → from d e (ms ++ (message_of s ∷ []))
        ++ held d e (set ss i (record s { report_pending = false }))
      ≡ from d e ms ++ held d e ss
sent_stream d e i ss ms s v g a q = elim (Bool-cases (is_input d e s)) [
  | inl h ↦ own h
  | inr h ↦ other h
]
  where
    moved : Input
    moved = record s { report_pending = false }

    own :
        is_input d e s ≡ true
        → from d e (ms ++ (message_of s ∷ [])) ++ held d e (set ss i moved)
          ≡ from d e ms ++ held d e ss
    own h =
        let o = OnlyAt-get d e i ss s (v d e) g h in
        ap₂ (λ l k. l ++ k) (from-append d e ms (message_of s ∷ [])) (held-only d e i ss moved o)
        ∙ append_assoc (from d e ms) (from d e (message_of s ∷ [])) (held_by d e moved)
        ∙ ap (λ l. from d e ms ++ l) {x = from d e (message_of s ∷ []) ++ held_by d e moved}
            {y = held_by d e s} (ground arith)
        ∙ ap (λ l. from d e ms ++ l) (sym (held-here d e i ss s g o))

    other :
        is_input d e s ≡ false
        → from d e (ms ++ (message_of s ∷ [])) ++ held d e (set ss i moved)
          ≡ from d e ms ++ held d e ss
    other h =
        ap₂ (λ l k. l ++ k) (from-append d e ms (message_of s ∷ []))
          (held-set_same d e i ss s moved g (ground arith))
        ∙ append_assoc (from d e ms) (from d e (message_of s ∷ [])) (held d e ss)
        ∙ ap (λ l. from d e ms ++ l) {x = from d e (message_of s ∷ []) ++ held d e ss}
            {y = held d e ss} (ground arith)

-- A step that keeps every interface's reports, and the table without doubles.
pub record Keeps (w u : World) : Type 0 where
  pub distinct : Distinct u.inputs
  pub streams : (d e : ℕ) → stream d e u ≡ stream d e w

module _ (accepts : ℕ → Bool) where
  flush_at-Keeps :
      (i : ℕ) (s : Input) (w : World)
      → Distinct w.inputs
      → get_elem? w.inputs i ≡ some s
      → Keeps w (flush_at accepts (some s) i w).1
  unfolding flush_at send_hid_report
  flush_at-Keeps i s w v g =
      by_case (not s.active || not s.report_pending) (ltb epin_bufsize (length s.report))
        (accepts w.asked) refl
    where
      same : (n k : ℕ) → Keeps w (record w { next_pending_hid_input = n; asked = k })
      same n k = record { distinct = v; streams = λ d e. refl }

      by_case :
          (p q r : Bool)
          → (not s.active || not s.report_pending) ≡ p
          → Keeps w
              (if p
                then (true, w)
                else after_send accepts
                    (if q
                      then (false, w)
                      else if r
                      then (
                        true,
                        record w { taken = w.taken ++ (message_of s ∷ []); asked = w.asked + 1 },
                      )
                      else (false, record w { asked = w.asked + 1 }))
                    i
                    s).1
      by_case true q r e = same _ _
      by_case false true r e = same _ _
      by_case false false false e = same _ _
      by_case false false true e = record {
        distinct = λ d f.
            AtMostOne-set_same d f i w.inputs s (record s { report_pending = false }) (v d f) g
              refl;
        streams = λ d f. sent_stream d f i w.inputs w.taken s v g (ground arith) (ground arith);
      }

  Keeps-then : {w u t : World} → Keeps w u → Keeps u t → Keeps w t
  Keeps-then k l = record { distinct = l.distinct; streams = λ d e. l.streams d e ∙ k.streams d e }

  flush_any-Keeps :
      (i : ℕ) (o : Option Input) (w : World)
      → Distinct w.inputs
      → get_elem? w.inputs i ≡ o
      → Keeps w (flush_at accepts o i w).1
  unfolding flush_at
  flush_any-Keeps i none w v g = record { distinct = v; streams = λ d e. refl }
  flush_any-Keeps i (some s) w v g = flush_at-Keeps i s w v g

  go_on :
      (more : Bool) {w u rest : World}
      → Keeps w u
      → (Distinct u.inputs → Keeps u rest)
      → Keeps w (if more then rest else u)
  go_on true k l = Keeps-then k (l k.distinct)
  go_on false k l = k

  flush_rounds-Keeps :
      (start count n : ℕ) (w : World)
      → Distinct w.inputs
      → Keeps w (flush_rounds accepts start count n w)
  unfolding flush_rounds
  flush_rounds-Keeps start count zero w v = record { distinct = v; streams = λ d e. refl }
  flush_rounds-Keeps start count (suc n) w v =
      let i = (start + count) % cfg_tuh_hid in
      let step = flush_at accepts (get_elem? w.inputs i) i w in
      go_on step.0 (flush_any-Keeps i (get_elem? w.inputs i) w v refl)
        (flush_rounds-Keeps start (count + 1) n step.1)

  -- `flush_pending_hid_reports` loses, doubles and reorders no report of any interface, whichever of
  -- its messages the serial link takes: for each interface, the reports sent and the one held back
  -- are together what they were, and the table stays without doubles.
  pub flush-Keeps : (w : World) → Distinct w.inputs → Keeps w (flush_pending_hid_reports accepts w)
  unfolding flush_pending_hid_reports
  flush-Keeps w v = flush_rounds-Keeps w.next_pending_hid_input 0 cfg_tuh_hid w v
