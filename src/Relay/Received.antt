-- ===== src/Relay/Received.antt =====
-- What `report_received_callback` of remapper_dual_b.cc does with a report.
use usb_hid_wireless_bridge.Base.{
  ℕ, ◌+◌, ◌≤◌, ◌≡◌, refl, ap, ap₂, ◌∙◌, sym, Bool, true, false, ◌&&◌, not, List, [], ◌∷◌, ◌++◌,
  append-nil, length, Option, some, none, ltb, ◌==◌, if◌then◌else◌, arith, get_elem?, set, ◌⊎◌, inl,
  inr, Bool-cases, subst,
}
use usb_hid_wireless_bridge.Relay.{
  Input, is_input, World, epin_bufsize, send_hid_report, hold_at, hold_unless_sent, receive_at,
  report_received_callback, register_hid_input, has_pending_hid_reports, find_hid_input_state,
  find_first, register_at, register_unless, registered, state_of,
}
use usb_hid_wireless_bridge.Relay.Table.{
  Distinct, OnlyAt-get, AtMostOne-set_same, register-facts, find_first-some,
}
use usb_hid_wireless_bridge.Relay.Held.{from, held, stream, from-append, held-set_same, held-only}

-- From `w` to `u` the interface (d, e) has gained `report` behind its earlier ones, and no other
-- interface has gained or lost any.
pub record Adds (d e : ℕ) (report : List ℕ) (w u : World) : Type 0 where
  pub distinct : Distinct u.inputs
  pub streams :
      (d' e' : ℕ)
      → stream d' e' u ≡ stream d' e' w ++ (if (d == d') && (e == e') then report ∷ [] else [])

register-held :
    (d e d' e' : ℕ) (ss : List Input) → held d' e' (register_hid_input d e ss).1 ≡ held d' e' ss
unfolding register_hid_input
register-held d e d' e' ss = by_find (find_hid_input_state d e ss)
  where
    by_free :
        (o : Option ℕ)
        → find_first (λ s. not s.active) ss ≡ o
        → held d' e' (register_at o d e ss).1 ≡ held d' e' ss
    by_free none g = refl
    by_free (some i) g =
        let (s, h, y) = find_first-some (λ s. not s.active) ss i g in
        held-set_same d' e' i ss s (registered d e) h (ground arith)

    by_find : (o : Option ℕ) → held d' e' (register_unless o d e ss).1 ≡ held d' e' ss
    by_find none = by_free (find_first (λ s. not s.active) ss) refl
    by_find (some i) = refl

-- Two lists behind another, one of them empty, may change places.
swap_empty :
    (xs ys zs : List (List ℕ)) → (ys ≡ []) ⊎ (zs ≡ []) → (xs ++ ys) ++ zs ≡ (xs ++ zs) ++ ys
swap_empty xs ys zs (inl e) = rw e (ap (λ l. l ++ zs) (append-nil xs) ∙ sym (append-nil (xs ++ zs)))
swap_empty xs ys zs (inr e) = rw e (append-nil (xs ++ ys) ∙ ap (λ l. l ++ ys) (sym (append-nil xs)))

-- What an interface gains by the report.
abbrev gain : ℕ → ℕ → List ℕ → ℕ → ℕ → List (List ℕ)
gain d e report d' e' = if (d == d') && (e == e') then report ∷ [] else []

-- Only the interface of the report gains by it.
gain-or-none :
    (d e : ℕ) (report : List ℕ) (d' e' : ℕ)
    → (gain d e report d' e' ≡ []) ⊎ ((d ≡ d') × (e ≡ e') × (gain d e report d' e' ≡ report ∷ []))
gain-or-none d e report d' e' = elim (Bool-cases ((d == d') && (e == e'))) [
  | inl h ↦ inr (ground arith)
  | inr h ↦ inl (ground arith)
]

module _ (d e i : ℕ) (s : Input) (report : List ℕ) (w : World) (v : Distinct w.inputs)
    (g : get_elem? w.inputs i ≡ some s) (h : is_input d e s ≡ true)
    (free : held d e w.inputs ≡ []) where
  free_at : {d' e' : ℕ} → d ≡ d' → e ≡ e' → held d' e' w.inputs ≡ []
  free_at p q = ap₂ (λ x y. held x y w.inputs) (sym p) (sym q) ∙ free

  pub hold-Adds :
      (accepts : ℕ → Bool) (n : ℕ)
      → Adds d e report w (hold_at accepts i (some s) report (record w { asked = n }))
  hold-Adds accepts n = record {
    distinct = λ d' e'. AtMostOne-set_same d' e' i w.inputs s _ (v d' e') g refl;
    streams = λ d' e'. by_gain d' e' (gain-or-none d e report d' e');
  }
    where
      t : Input
      t = record s { report_pending = true; report = report }

      by_gain :
          (d' e' : ℕ)
          → (gain d e report d' e' ≡ [])
            ⊎ ((d ≡ d') × (e ≡ e') × (gain d e report d' e' ≡ report ∷ []))
          → from d' e' w.taken ++ held d' e' (set w.inputs i t)
            ≡ (from d' e' w.taken ++ held d' e' w.inputs) ++ gain d e report d' e'
      by_gain d' e' (inl x) =
          let before = from d' e' w.taken in
          ap (λ l. before ++ l) (held-set_same d' e' i w.inputs s t g (ground arith))
          ∙ sym (append-nil (before ++ held d' e' w.inputs))
          ∙ ap (λ l. (before ++ held d' e' w.inputs) ++ l) (sym x)
      by_gain d' e' (inr (p, q, x)) =
          let before = from d' e' w.taken in
          let o = OnlyAt-get d' e' i w.inputs s (v d' e') g (ground arith) in
          ap (λ l. before ++ l) (held-only d' e' i w.inputs t o)
          ∙ ap₂ (λ l k. l ++ k) {x = before} {y = before ++ held d' e' w.inputs}
              (sym (append-nil before) ∙ ap (λ l. before ++ l) (sym (free_at p q))) (ground arith)

  pub send-Adds :
      (n : ℕ)
      → Adds d e report w (record w {
        taken = w.taken ++ (record { from_dev = d; from_interface = e; bytes = report } ∷ []);
        asked = n;
      })
  send-Adds n = record {
    distinct = v;
    streams = λ d' e'.
        ap (λ l. l ++ held d' e' w.inputs)
          (from-append d' e' w.taken
            (record { from_dev = d; from_interface = e; bytes = report } ∷ []))
        ∙ swap_empty (from d' e' w.taken) (gain d e report d' e') (held d' e' w.inputs)
            (by_gain d' e' (gain-or-none d e report d' e'));
  }
    where
      by_gain :
          (d' e' : ℕ)
          → (gain d e report d' e' ≡ [])
            ⊎ ((d ≡ d') × (e ≡ e') × (gain d e report d' e' ≡ report ∷ []))
          → (gain d e report d' e' ≡ []) ⊎ (held d' e' w.inputs ≡ [])
      by_gain d' e' (inl x) = inl x
      by_gain d' e' (inr (p, q, x)) = inr (free_at p q)

module _ (accepts : ℕ → Bool) (d e : ℕ) (report : List ℕ) (w : World)
    (short : ltb epin_bufsize (length report) ≡ false) (v : Distinct w.inputs)
    (free : held d e w.inputs ≡ []) where
  receive_some-Adds :
      (i : ℕ) (s : Input)
      → get_elem? w.inputs i ≡ some s
      → is_input d e s ≡ true
      → Adds d e report w (receive_at accepts (some i) d e report w)
  unfolding send_hid_report
  receive_some-Adds i s g h =
      by_case (has_pending_hid_reports w.inputs) (ltb epin_bufsize (length report))
        (accepts w.asked) short
    where
      kept :
          (n : ℕ)
          → Adds d e report w
              (hold_at accepts i (get_elem? w.inputs i) report (record w { asked = n }))
      kept n =
          subst (λ o. Adds d e report w (hold_at accepts i o report (record w { asked = n })))
            (sym g) (hold-Adds d e i s report w v g h free accepts n)

      by_case :
          (p q r : Bool)
          → q ≡ false
          → Adds d e report w (
              if p
              then hold_unless_sent accepts (false, w) i report
              else hold_unless_sent accepts
                  (if q
                    then (false, w)
                    else if r
                    then (
                      true,
                      record w {
                        taken =
                            w.taken
                            ++ (record { from_dev = d; from_interface = e; bytes = report } ∷ []);
                        asked = w.asked + 1;
                      },
                    )
                    else (false, record w { asked = w.asked + 1 }))
                  i
                  report)
      by_case true q r y = kept w.asked
      by_case false true r y = kept w.asked
      by_case false false true y = send-Adds d e i s report w v g h free (w.asked + 1)
      by_case false false false y = kept (w.asked + 1)

  receive_place-Adds :
      (o : Option ℕ)
      → (o ≡ none)
        ⊎ ((i : ℕ) × (s : Input) × (o ≡ some i)
            × (get_elem? w.inputs i ≡ some s)
            × (is_input d e s ≡ true))
      → (o ≡ none) ⊎ Adds d e report w (receive_at accepts o d e report w)
  receive_place-Adds none x = inl refl
  receive_place-Adds (some j) (inl x) = inl x
  receive_place-Adds (some j) (inr (i, s, p, g, h)) =
      inr (receive_some-Adds j s (ap (λ o. state_of o w.inputs) p ∙ g) h)

-- A report of at most 64 bytes, of an interface that has none held back and that is in the table or
-- finds room in it, is sent or held back; it comes behind all earlier reports of its interface, no
-- other interface gains or loses one, and the table stays without doubles.
pub report_received-Adds :
    (accepts : ℕ → Bool) (d e : ℕ) (report : List ℕ) (w : World)
    → length report ≤ epin_bufsize
    → Distinct w.inputs
    → held d e w.inputs ≡ []
    → ((register_hid_input d e w.inputs).0 ≡ none)
      ⊎ Adds d e report w (report_received_callback accepts d e report w)
unfolding report_received_callback
report_received-Adds accepts d e report w short v free =
    let (place, ts) = register_hid_input d e w.inputs in
    let (distinct, found) = register-facts d e w.inputs v in
    let fits : ltb epin_bufsize (length report) ≡ false = ground arith in
    elim (receive_place-Adds accepts d e report (record w { inputs = ts }) fits distinct
      (register-held d e d e w.inputs ∙ free) place found) [
        | inl x ↦ inl x
        | inr y ↦ inr (
            rw fits (record {
              distinct = y.distinct;
              streams = λ d' e'.
                  y.streams d' e'
                  ∙ ap (λ l. (from d' e' w.taken ++ l) ++ gain d e report d' e')
                      (register-held d e d' e' w.inputs);
            }))
      ]
