-- ===== src/Outgoing/Order.antt =====
-- The order in which the reports of remapper.cc leave the queue for the host.
use usb_hid_wireless_bridge.Base.{
  ℕ, ◌+◌, ◌%◌, ◌^◌, ◌<◌, ◌≡◌, refl, sym, ap, subst, ◌∙◌, Bool, true, false, ◌&&◌, ◌||◌, not, List,
  [], ◌∷◌, ◌++◌, length, ltb, ◌==◌, if◌then◌else◌, arith, Option, none, some,
}
use usb_hid_wireless_bridge.Ring.{IsRing, first, contents, drop_first, last_place, change_last}
use usb_hid_wireless_bridge.Ring.Queue.{
  contents-put, contents-drop_first, put-IsRing, drop_first-IsRing, length-contents,
}
use usb_hid_wireless_bridge.Ring.Last.{
  earlier, contents_last, contents-change_last, change_last-IsRing,
}
use usb_hid_wireless_bridge.Aggregate.{aggregate_relative}
use usb_hid_wireless_bridge.Outgoing.{
  Byte, has_relative, differs, needs_to_be_sent, differ_on_absolute, Report, or_bufsize,
  interface_of, offered, send_report,
}
use usb_hid_wireless_bridge.Outgoing.Mapped.{
  Device, Reports, beside, queue_new, add_or_queue, sanitize_one, clear_one, offer_report,
}
use usb_hid_wireless_bridge.Outgoing.Calls.{
  Host, reports_of, with_reports, Call, fill, offer, send, run_call, run_calls,
}

abbrev pub any_relative : List Byte → Bool
any_relative [] = false
any_relative (b ∷ bs) = has_relative b || any_relative bs

-- A report is sent if any of its relative bits is set or it differs from the one before on an
-- absolute bit, in whatever bytes.
pub needs_to_be_sent_lem :
    (bs : List Byte) → needs_to_be_sent bs ≡ (any_relative bs || differ_on_absolute bs)
unfolding needs_to_be_sent differ_on_absolute
needs_to_be_sent_lem [] = refl
needs_to_be_sent_lem (b ∷ bs) =
    step (has_relative b) (differs b) (needs_to_be_sent bs) (any_relative bs)
      (differ_on_absolute bs) (needs_to_be_sent_lem bs)
  where
    step :
        (r d n a e : Bool)
        → n ≡ (a || e)
        → (if r || d then true else n) ≡ ((r || a) || (if d then true else e))
    step true d n a e h = refl
    step false true n a e h = ground arith
    step false false n a e h = h

-- `m` is the last report with a new one of its id added to it, which differs in no absolute bit.
pub record IsMerged (device : Device) (last r m : Report) : Type 0 where
  pub same_id : last.report_id ≡ r.report_id
  pub same_absolute : differ_on_absolute (beside device r.report_id r.bytes last.bytes) ≡ false
  pub sums : aggregate_relative (device.our_usages r.report_id) last.bytes r.bytes ≡ (true, m.bytes)
  pub kept_id : m.report_id ≡ last.report_id

-- A queue of at most eight reports, as a list: a report that comes in is put behind the others, is
-- merged into the last one, or is refused, and then the queue is full; the first one goes out. The
-- lists between the first queue and the last are what came in and what went out.
pub data Steps (device : Device)
    : List Report → List Report → List Report → List Report → Type 0 where
  rest : (q : List Report) → Steps device q [] [] q
  added :
      {q ins outs t : List Report} (r : Report)
      → length q < or_bufsize
      → Steps device (q ++ (r ∷ [])) ins outs t
      → Steps device q (r ∷ ins) outs t
  merged :
      {q ins outs t : List Report} (before : List Report) (last r m : Report)
      → q ≡ before ++ (last ∷ [])
      → IsMerged device last r m
      → Steps device (before ++ (m ∷ [])) ins outs t
      → Steps device q (r ∷ ins) outs t
  refused :
      {q ins outs t : List Report} (r : Report)
      → length q ≡ or_bufsize
      → Steps device q ins outs t
      → Steps device q (r ∷ ins) outs t
  sent_first :
      {q p ins outs t : List Report} (r : Report)
      → q ≡ r ∷ p
      → Steps device p ins outs t
      → Steps device q ins (r ∷ outs) t

abbrev then_of {ℓ} : {A : Type ℓ} → Bool × A → A
then_of p = p.1

abbrev queue_of : Host → List Report
queue_of h = contents or_bufsize h.state.queue

module _ (device : Device) where
  -- The report of a round, as sanitized.
  abbrev pub report_at : ℕ → Host → Report
  report_at report_id h = record {
    report_id = report_id;
    bytes = (sanitize_one device report_id (reports_of h)).reports report_id;
  }

  abbrev pub to_be_sent : Report → Host → Bool
  to_be_sent r h = needs_to_be_sent (beside device r.report_id r.bytes (h.prev_reports r.report_id))

  -- What comes in with a call, and what the endpoint takes of what it is given.
  abbrev pub came_in : Call → Host → List Report
  came_in (fill reports) h = []
  came_in (offer report_id) h =
      if to_be_sent (report_at report_id h) h then report_at report_id h ∷ [] else []
  came_in (send accepted) h = []

  abbrev pub report_of : Option (ℕ × Report) → List Report
  report_of none = []
  report_of (some (interface, r)) = r ∷ []

  abbrev pub sent : Call → Host → List Report
  sent (fill reports) h = []
  sent (offer report_id) h = []
  sent (send accepted) h = if accepted then report_of (offered h.state) else []

  add_or_queue-Steps :
      (r : Report) (s : Reports) {ins outs t : List Report}
      → IsRing or_bufsize s.queue
      → s.queue.items < or_bufsize
      → IsRing or_bufsize (add_or_queue device r.report_id r.bytes s).queue
        × (Steps device
              (contents or_bufsize (add_or_queue device r.report_id r.bytes s).queue)
              ins
              outs
              t
            → Steps device (contents or_bufsize s.queue) (r ∷ ins) outs t)
  unfolding add_or_queue
  add_or_queue-Steps r s {ins} {outs} {t} v room =
      by_case (ltb 0 s.queue.items) (last.report_id == r.report_id)
        (differ_on_absolute (beside device r.report_id r.bytes last.bytes)) both.0 refl refl refl
        refl
    where
      last : Report
      last = s.queue.cells (last_place or_bufsize s.queue)

      both : Bool × List ℕ
      both = aggregate_relative (device.our_usages r.report_id) last.bytes r.bytes

      m : Report
      m = record { report_id = last.report_id; bytes = both.1 }

      next : Bool → Reports
      next c =
          if c
          then record s { queue = change_last or_bufsize m s.queue }
          else queue_new device r.report_id r.bytes s

      Good : Bool → Type 0
      Good c =
          IsRing or_bufsize (next c).queue
          × (Steps device (contents or_bufsize (next c).queue) ins outs t
              → Steps device (contents or_bufsize s.queue) (r ∷ ins) outs t)

      as_new : Good false
      as_new = (
        put-IsRing or_bufsize r s.queue v room,
        (λ k.
            added r (subst (λ n. n < or_bufsize) (sym (length-contents or_bufsize s.queue)) room) (
              subst (λ l. Steps device l ins outs t) (contents-put or_bufsize r s.queue v room) k)),
      )

      by_case :
          (a b c d : Bool)
          → ltb 0 s.queue.items ≡ a
          → (last.report_id == r.report_id) ≡ b
          → differ_on_absolute (beside device r.report_id r.bytes last.bytes) ≡ c
          → both.0 ≡ d
          → Good (a && (b && (not c && d)))
      by_case true true false true p q e f = (
        change_last-IsRing or_bufsize m s.queue v,
        (λ k.
            merged (earlier or_bufsize s.queue) last r m
              (contents_last or_bufsize s.queue v (ground (arith, p)))
              (record {
                same_id = ground (arith, q);
                same_absolute = e;
                sums = ap (λ b. (b, both.1)) f;
                kept_id = refl;
              })
              (subst (λ l. Steps device l ins outs t)
                (contents-change_last or_bufsize m s.queue v (ground (arith, p))) k)),
      )
      by_case true true false false p q e f = as_new
      by_case true true true d p q e f = as_new
      by_case true false c d p q e f = as_new
      by_case false b c d p q e f = as_new

  -- The queue before a call, from the queue after it.
  abbrev GoesOn : Host → Host → List Report → List Report → Type 0
  GoesOn h g ins outs =
      IsRing or_bufsize g.state.queue
      × ((is os t : List Report)
          → Steps device (queue_of g) is os t
          → Steps device (queue_of h) (ins ++ is) (outs ++ os) t)

  send-GoesOn :
      (accepted : Bool) (h : Host)
      → IsRing or_bufsize h.state.queue
      → GoesOn h (run_call device (send accepted) h) [] (sent (send accepted) h)
  unfolding send_report
  send-GoesOn accepted h v =
      by_case (h.state.suspended || (h.state.queue.items == 0)) h.state.descriptor_current accepted
        refl
    where
      q : List Report
      q = queue_of h

      by_case :
          (a b c : Bool)
          → (h.state.suspended || (h.state.queue.items == 0)) ≡ a
          → GoesOn h
              (record h {
                state = then_of (
                    if a
                    then (false, h.state)
                    else if b && c
                    then (
                      true,
                      record h.state {
                        queue = drop_first or_bufsize h.state.queue;
                        reports_sent = (h.state.reports_sent + 1) % 2 ^ 32;
                      },
                    )
                    else (false, h.state));
              })
              []
              (if c
                then report_of (
                    if a
                    then none
                    else if b
                    then some (
                      interface_of h.state.descriptor_idx (first h.state.queue).report_id,
                      first h.state.queue,
                    )
                    else none)
                else [])
      by_case true b true p = (v, λ is os t k. k)
      by_case true b false p = (v, λ is os t k. k)
      by_case false true true p = (
        drop_first-IsRing or_bufsize h.state.queue v (ground (arith, p)),
        λ is os t k.
            sent_first (first h.state.queue)
              (contents-drop_first or_bufsize h.state.queue (ground (arith, p))) k,
      )
      by_case false true false p = (v, λ is os t k. k)
      by_case false false true p = (v, λ is os t k. k)
      by_case false false false p = (v, λ is os t k. k)

  offer-GoesOn :
      (report_id : ℕ) (h : Host)
      → IsRing or_bufsize h.state.queue
      → GoesOn h (run_call device (offer report_id) h) (came_in (offer report_id) h) []
  unfolding offer_report
  offer-GoesOn report_id h v = by_case (to_be_sent r h) (h.state.queue.items == or_bufsize) refl
    where
      r : Report
      r = report_at report_id h

      s : Reports
      s = sanitize_one device report_id (reports_of h)

      by_case :
          (a b : Bool)
          → (h.state.queue.items == or_bufsize) ≡ b
          → GoesOn h
              (with_reports
                (then_of (
                  if a
                  then if b then (false, s) else (
                    true,
                    clear_one device report_id (add_or_queue device report_id r.bytes s),
                  )
                  else (true, clear_one device report_id s)))
                h)
              (if a then r ∷ [] else [])
              []
      by_case true true p = (
        v,
        λ is os t k. refused r (length-contents or_bufsize h.state.queue ∙ ground (arith, p)) k,
      )
      by_case true false p =
          let room : h.state.queue.items < or_bufsize = ground (arith, p, v.items_in) in
          (
            (add_or_queue-Steps r s {ins = []} {outs = []} {t = []} v room).0,
            λ is os t k. (add_or_queue-Steps r s {ins = is} {outs = os} {t = t} v room).1 k,
          )
      by_case false b p = (v, λ is os t k. k)

  call-GoesOn :
      (c : Call) (h : Host)
      → IsRing or_bufsize h.state.queue
      → GoesOn h (run_call device c h) (came_in c h) (sent c h)
  call-GoesOn (fill reports) h v = (v, λ is os t k. k)
  call-GoesOn (offer report_id) h v = offer-GoesOn report_id h v
  call-GoesOn (send accepted) h v = send-GoesOn accepted h v

  abbrev pub all_came_in : List Call → Host → List Report
  all_came_in [] h = []
  all_came_in (c ∷ cs) h = came_in c h ++ all_came_in cs (run_call device c h)

  abbrev pub all_sent : List Call → Host → List Report
  all_sent [] h = []
  all_sent (c ∷ cs) h = sent c h ++ all_sent cs (run_call device c h)

  -- Over any calls, whatever the mappings fill the reports with and whichever reports the endpoint
  -- takes: from the reports that are to be sent, in the order in which they come in, to those that the
  -- endpoint has taken, the queue is an abstract one of at most eight reports. Each report that comes
  -- in is put behind the others, or merged into the last one if that has its id, the same absolute
  -- bits and room for the sums, or refused because the queue is full; only the first one goes out.
  pub calls_in_order :
      (cs : List Call) (h : Host)
      → IsRing or_bufsize h.state.queue
      → IsRing or_bufsize (run_calls device cs h).state.queue
        × Steps device
            (contents or_bufsize h.state.queue)
            (all_came_in cs h)
            (all_sent cs h)
            (contents or_bufsize (run_calls device cs h).state.queue)
  unfolding run_calls
  calls_in_order [] h v = (v, rest (queue_of h))
  calls_in_order (c ∷ cs) h v =
      let (w, back) = call-GoesOn c h v in
      let (u, steps) = calls_in_order cs (run_call device c h) w in (u, back _ _ _ steps)
