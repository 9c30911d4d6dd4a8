-- ===== src/Outgoing/Totals.antt =====
-- No movement is lost or doubled where a report is added to the last one in the queue.
use usb_hid_wireless_bridge.Base.{
  ℕ, Bool, true, false, ◌&&◌, not, List, [], ◌∷◌, ◌++◌, ltb, ◌==◌, ◌<◌, ◌≡◌, refl, sym, ap, ◌∙◌,
  if◌then◌else◌, arith,
}
use usb_hid_wireless_bridge.Base.Int.{ℤ, pos, ◌+ℤ◌, int_laws}
use usb_hid_wireless_bridge.Ring.{last_place, change_last, contents, IsRing}
use usb_hid_wireless_bridge.Ring.Queue.{contents-put}
use usb_hid_wireless_bridge.Ring.Last.{earlier, contents_last, contents-change_last}
use usb_hid_wireless_bridge.Base.Each.{Each, none_left, and_then}
use usb_hid_wireless_bridge.Usages.{UsageDef}
use usb_hid_wireless_bridge.Aggregate.{field_of, aggregate_relative}
use usb_hid_wireless_bridge.Aggregate.Field.{Separate, Ready}
use usb_hid_wireless_bridge.Aggregate.Sums.{Sum, aggregate_sums}
use usb_hid_wireless_bridge.Outgoing.{Report, or_bufsize, differ_on_absolute}
use usb_hid_wireless_bridge.Outgoing.Mapped.{Device, Reports, beside, queue_new, add_or_queue}

-- A usage of a list.
pub data Of (u : UsageDef) : List UsageDef → Type 0 where
  here : {us : List UsageDef} → Of u (u ∷ us)
  there : {v : UsageDef} {us : List UsageDef} → Of u us → Of u (v ∷ us)

Each-Of : {P : UsageDef → Type 0} {u : UsageDef} {us : List UsageDef} → Each P us → Of u us → P u
Each-Of none_left o = elim o [ ]
Each-Of (and_then p ps) here = p
Each-Of (and_then p ps) (there o) = Each-Of ps o

abbrev pub amount : ℕ → UsageDef → Report → ℤ
amount report_id u r = if r.report_id == report_id then field_of r.bytes u else pos 0

-- What a field of all queued reports of one id comes to.
unfoldable pub total : ℕ → UsageDef → List Report → ℤ
total report_id u [] = pos 0
total report_id u (r ∷ rs) = amount report_id u r +ℤ total report_id u rs

+ℤ_assoc : (a b c : ℤ) → a +ℤ (b +ℤ c) ≡ (a +ℤ b) +ℤ c
+ℤ_assoc a b c = grind int_laws

+ℤ_zero : (a : ℤ) → a +ℤ pos 0 ≡ a
+ℤ_zero a = grind int_laws

zero_+ℤ : (a : ℤ) → pos 0 +ℤ a ≡ a
zero_+ℤ a = grind int_laws

total_snoc :
    (report_id : ℕ) (u : UsageDef) (rs : List Report) (r : Report)
    → total report_id u (rs ++ (r ∷ [])) ≡ total report_id u rs +ℤ amount report_id u r
unfolding total
total_snoc report_id u [] r = +ℤ_zero (amount report_id u r) ∙ sym (zero_+ℤ (amount report_id u r))
total_snoc report_id u (x ∷ rs) r =
    ap (λ (z : ℤ). amount report_id u x +ℤ z) (total_snoc report_id u rs r)
    ∙ +ℤ_assoc (amount report_id u x) (total report_id u rs) (amount report_id u r)

own_amount :
    (report_id : ℕ) (u : UsageDef) (bytes : List ℕ)
    → amount report_id u record { report_id = report_id; bytes = bytes } ≡ field_of bytes u
own_amount report_id u bytes = ground arith

+ℤ_middle : (a b c : ℤ) → a +ℤ (b +ℤ c) ≡ (a +ℤ c) +ℤ b
+ℤ_middle a b c = grind int_laws

added_amount :
    (report_id : ℕ) (last : Report) (report out : List ℕ) (added : Bool) (u : UsageDef)
    → last.report_id ≡ report_id
    → added ≡ true
    → u.is_relative ≡ true
    → Sum added last.bytes report out u
    → amount report_id u record { report_id = last.report_id; bytes = out }
      ≡ field_of report u +ℤ amount report_id u last
added_amount report_id last report out added u e t rel sum = grind arith

-- With room in the queue, whether a report is added to the last one or becomes a new item: the sum of
-- a relative field over the queued reports of its id grows by exactly the field of the report. The
-- usages of the id must not share bits with relative ones; and if the last item has that id, it must be
-- a report of bytes in which each usage of the id lies, has 1 to 31 bits and can hold every value of its
-- logical range.
pub total-add_or_queue :
    (device : Device) (report_id : ℕ) (report : List ℕ) (s : Reports) (u : UsageDef)
    → Of u (device.our_usages report_id)
    → u.is_relative ≡ true
    → Separate (device.our_usages report_id)
    → IsRing or_bufsize s.queue
    → s.queue.items < or_bufsize
    → let last = s.queue.cells (last_place or_bufsize s.queue) in
      (last.report_id ≡ report_id → Ready (device.our_usages report_id) last.bytes)
      → total report_id u (contents or_bufsize (add_or_queue device report_id report s).queue)
        ≡ total report_id u (contents or_bufsize s.queue) +ℤ field_of report u
unfolding add_or_queue
total-add_or_queue device report_id report s u o rel sep v room ready =
    by_case (ltb 0 s.queue.items) (last.report_id == report_id)
      (not (differ_on_absolute (beside device report_id report last.bytes))) added.0 refl refl refl
  where
    last : Report
    last = s.queue.cells (last_place or_bufsize s.queue)

    added : Bool × List ℕ
    added = aggregate_relative (device.our_usages report_id) last.bytes report

    next : Bool → Reports
    next c =
        if c
        then record s {
          queue =
              change_last or_bufsize record { report_id = last.report_id; bytes = added.1 } s.queue;
        }
        else queue_new device report_id report s

    as_new :
        total report_id u (contents or_bufsize (queue_new device report_id report s).queue)
        ≡ total report_id u (contents or_bufsize s.queue) +ℤ field_of report u
    as_new =
        ap (total report_id u)
          (contents-put or_bufsize record { report_id = report_id; bytes = report } s.queue v room)
        ∙ total_snoc report_id u (contents or_bufsize s.queue)
            record { report_id = report_id; bytes = report }
        ∙ ap (λ (z : ℤ). total report_id u (contents or_bufsize s.queue) +ℤ z)
            (own_amount report_id u report)

    as_sum :
        0 < s.queue.items
        → last.report_id ≡ report_id
        → added.0 ≡ true
        → total report_id u (
            contents or_bufsize (
              change_last or_bufsize
                record { report_id = last.report_id; bytes = added.1 }
                s.queue))
          ≡ total report_id u (contents or_bufsize s.queue) +ℤ field_of report u
    as_sum h e t =
        let r = ready e in
        let sums =
          aggregate_sums (device.our_usages report_id) last.bytes report r.is_bytes r.proper sep in
        let before = earlier or_bufsize s.queue in
        ap (total report_id u) (
          contents-change_last or_bufsize record { report_id = last.report_id; bytes = added.1 }
            s.queue v h)
        ∙ total_snoc report_id u before record { report_id = last.report_id; bytes = added.1 }
        ∙ ap (λ (z : ℤ). total report_id u before +ℤ z)
            (added_amount report_id last report added.1 added.0 u e t rel (Each-Of sums o))
        ∙ +ℤ_middle (total report_id u before) (field_of report u) (amount report_id u last)
        ∙ ap (λ (z : ℤ). z +ℤ field_of report u)
            (sym (total_snoc report_id u before last)
              ∙ ap (total report_id u) (sym (contents_last or_bufsize s.queue v h)))

    by_case :
        (a b c d : Bool)
        → ltb 0 s.queue.items ≡ a
        → (last.report_id == report_id) ≡ b
        → added.0 ≡ d
        → total report_id u (contents or_bufsize (next (a && (b && (c && d)))).queue)
          ≡ total report_id u (contents or_bufsize s.queue) +ℤ field_of report u
    by_case true true true true p q r = as_sum (ground arith) (ground arith) r
    by_case true true true false p q r = as_new
    by_case true true false d p q r = as_new
    by_case true false c d p q r = as_new
    by_case false b c d p q r = as_new
