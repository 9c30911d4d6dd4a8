-- ===== src/Config/Uploads.antt =====
-- Macros and expressions that the host sends in packets, against the ones that it meant.
use usb_hid_wireless_bridge.Base.{
  ℕ, suc, ◌≤◌, ◌≡◌, ◌≢◌, refl, ap, sym, ◌∙◌, Bool, true, false, List, [], ◌∷◌, ◌++◌, append_assoc,
  append-nil, length, take_exact, min, ◌==◌, arith, if◌then◌else◌,
}
use usb_hid_wireless_bridge.Base.Each.{Each, none_left, and_then}
use usb_hid_wireless_bridge.Packed.{write_each}
use usb_hid_wireless_bridge.Packed.RoundTrip.{u32_back}
use usb_hid_wireless_bridge.Config.{ConfigElem, has_val}
use usb_hid_wireless_bridge.Config.Persist.{elem_bytes}
use usb_hid_wireless_bridge.Config.RoundTrip.{IsElem, u8_back}
use usb_hid_wireless_bridge.Config.Exprs.{append_elems}
use usb_hid_wireless_bridge.Config.Macros.{
  macro_items_in_packet, push_last, append_item, append_items, append_to_macro, not_empty,
}

-- A macro as a sequence of items: its steps, with a 0 between two of them.
unfoldable pub items_of : List ℕ → List (List ℕ) → List ℕ
items_of entry [] = entry
items_of entry (next ∷ entries) = entry ++ (0 ∷ items_of next entries)

abbrev pub IsUsage : ℕ → Type 0
IsUsage usage = usage ≢ 0

push_last-append :
    (done : List (List ℕ)) (entry : List ℕ) (usage : ℕ)
    → push_last (done ++ (entry ∷ [])) usage ≡ done ++ ((entry ++ (usage ∷ [])) ∷ [])
unfolding push_last
push_last-append [] entry usage = refl
push_last-append (x ∷ []) entry usage = refl
push_last-append (x ∷ y ∷ done) entry usage =
    ap (λ l. x ∷ l) (push_last-append (y ∷ done) entry usage)

append_items-entry :
    (done : List (List ℕ)) (entry usages rest : List ℕ)
    → Each IsUsage usages
    → append_items (done ++ (entry ∷ [])) (usages ++ rest)
      ≡ append_items (done ++ ((entry ++ usages) ∷ [])) rest
unfolding append_items append_item
append_items-entry done entry [] rest none_left =
    ap (λ l. append_items (done ++ (l ∷ [])) rest) (sym (append-nil entry))
append_items-entry done entry (u ∷ usages) rest (and_then h hs) =
    ap
      (λ (b : Bool).
        append_items
          (if b then (done ++ (entry ∷ [])) ++ ([] ∷ []) else push_last (done ++ (entry ∷ [])) u)
          (usages ++ rest))
      {x = u == 0} {y = false} (ground (arith, h))
    ∙ ap (λ l. append_items l (usages ++ rest)) (push_last-append done entry u)
    ∙ append_items-entry done (entry ++ (u ∷ [])) usages rest hs
    ∙ ap (λ l. append_items (done ++ (l ∷ [])) rest) (append_assoc entry (u ∷ []) usages)

append_items-items_of :
    (done : List (List ℕ)) (entry : List ℕ) (entries : List (List ℕ))
    → Each (Each IsUsage) (entry ∷ entries)
    → append_items (done ++ ([] ∷ [])) (items_of entry entries) ≡ done ++ (entry ∷ entries)
unfolding items_of append_items append_item
append_items-items_of done entry [] (and_then h hs) =
    ap (append_items (done ++ ([] ∷ []))) (sym (append-nil entry))
    ∙ append_items-entry done [] entry [] h
append_items-items_of done entry (next ∷ entries) (and_then h hs) =
    append_items-entry done [] entry (0 ∷ items_of next entries) h
    ∙ append_items-items_of (done ++ (entry ∷ [])) next entries hs
    ∙ append_assoc done (entry ∷ []) (next ∷ entries)

append_items-append :
    (macro : List (List ℕ)) (xs ys : List ℕ)
    → append_items macro (xs ++ ys) ≡ append_items (append_items macro xs) ys
unfolding append_items
append_items-append macro [] ys = refl
append_items-append macro (x ∷ xs) ys = append_items-append (append_item macro x) xs ys

-- A packet: its items, and what is left of the array of six.
pub record Packet : Type 0 where
  pub items : List ℕ
  pub unused : List ℕ

abbrev pub IsPacket : Packet → Type 0
IsPacket p = length p.items ≤ macro_items_in_packet

abbrev pub send_packet : List (List ℕ) → Packet → List (List ℕ)
send_packet macro p = append_to_macro macro (length p.items) (p.items ++ p.unused)

abbrev pub send_packets : List (List ℕ) → List Packet → List (List ℕ)
send_packets macro [] = macro
send_packets macro (p ∷ packets) = send_packets (send_packet macro p) packets

abbrev pub all_items : List Packet → List ℕ
all_items [] = []
all_items (p ∷ packets) = p.items ++ all_items packets

send_packet_lem :
    (macro : List (List ℕ)) (p : Packet)
    → IsPacket p
    → send_packet macro p ≡ append_items (not_empty macro) p.items
unfolding append_to_macro
send_packet_lem macro p h =
    ap (append_items (not_empty macro))
      (take_exact (min macro_items_in_packet (length p.items)) p.items p.unused (omega (arith, h)))

-- A macro that has a step keeps one.
not_empty-append_item :
    (x : List ℕ) (macro : List (List ℕ)) (u : ℕ)
    → not_empty (append_item (x ∷ macro) u) ≡ append_item (x ∷ macro) u
unfolding append_item push_last
not_empty-append_item x macro u = by_case (u == 0) macro
  where
    by_case :
        (b : Bool) (macro : List (List ℕ))
        → let m = if b then (x ∷ macro) ++ ([] ∷ []) else push_last (x ∷ macro) u in not_empty m ≡ m
    by_case true macro = refl
    by_case false [] = refl
    by_case false (y ∷ macro) = refl

not_empty-append_items :
    (macro : List (List ℕ)) (usages : List ℕ)
    → not_empty macro ≡ macro
    → not_empty (append_items macro usages) ≡ append_items macro usages
unfolding append_items
not_empty-append_items macro [] h = h
not_empty-append_items [] (u ∷ usages) h = absurd (cc)
not_empty-append_items (x ∷ macro) (u ∷ usages) h =
    not_empty-append_items (append_item (x ∷ macro) u) usages (not_empty-append_item x macro u)

send_packets_lem :
    (macro : List (List ℕ)) (packets : List Packet)
    → not_empty macro ≡ macro
    → Each IsPacket packets
    → send_packets macro packets ≡ append_items macro (all_items packets)
send_packets_lem macro [] h none_left = unfold append_items in refl
send_packets_lem macro (p ∷ packets) h (and_then q qs) =
    ap (λ m. send_packets m packets)
      (send_packet_lem macro p q ∙ ap (λ m. append_items m p.items) h)
    ∙ send_packets_lem (append_items macro p.items) packets (not_empty-append_items macro p.items h)
        qs
    ∙ sym (append_items-append macro p.items (all_items packets))

-- A macro whose usages are not 0 is sent as its items, cut in any way into packets of at most six: the
-- device then has that macro, whatever the packets hold behind their items.
pub send_packets-items_of :
    (entry : List ℕ) (entries : List (List ℕ)) (p : Packet) (packets : List Packet)
    → Each (Each IsUsage) (entry ∷ entries)
    → Each IsPacket (p ∷ packets)
    → all_items (p ∷ packets) ≡ items_of entry entries
    → send_packets [] (p ∷ packets) ≡ entry ∷ entries
send_packets-items_of entry entries p packets h (and_then q qs) e =
    ap (λ m. send_packets m packets) (send_packet_lem [] p q)
    ∙ send_packets_lem (append_items ([] ∷ []) p.items) packets
        (not_empty-append_items ([] ∷ []) p.items refl) qs
    ∙ sym (append_items-append ([] ∷ []) p.items (all_items packets))
    ∙ ap (append_items ([] ∷ [])) e
    ∙ append_items-items_of [] entry entries h

-- Elements that were written into a packet, with the rest of its bytes behind them, are appended to
-- the expression as they were.
pub append_elems-elem_bytes :
    (elems done : List ConfigElem) (rest : List ℕ)
    → Each IsElem elems
    → append_elems (length elems) (write_each elem_bytes elems ++ rest) done ≡ done ++ elems
unfolding append_elems write_each elem_bytes
append_elems-elem_bytes [] done rest none_left = sym (append-nil done)
append_elems-elem_bytes (e ∷ elems) done rest (and_then h hs) =
    by_case (has_val e.op) refl (λ done. append_elems-elem_bytes elems done rest hs)
  where
    by_case :
        (b : Bool)
        → has_val e.op ≡ b
        → ((done : List ConfigElem)
            → append_elems (length elems) (write_each elem_bytes elems ++ rest) done
              ≡ done ++ elems)
        → append_elems (suc (length elems)) (write_each elem_bytes (e ∷ elems) ++ rest) done
          ≡ done ++ (e ∷ elems)
    by_case true p ih =
        rw (u8_back e.op h.op-lt, p, u32_back e.val h.val-lt)
          (ap
              (λ (o : ℕ).
                append_elems (length elems) (write_each elem_bytes elems ++ rest)
                  (done ++ (record e { op = o } ∷ [])))
              (u8_back e.op h.op-lt)
            ∙ ih (done ++ (e ∷ []))
            ∙ append_assoc done (e ∷ []) elems)
    by_case false p ih =
        rw (u8_back e.op h.op-lt, p)
          (ap
              (λ (v : ℕ).
                append_elems (length elems) (write_each elem_bytes elems ++ rest)
                  (done ++ (record e { val = v } ∷ [])))
              {x = 0} {y = e.val} (ground (arith, h.val_or_zero))
            ∙ ih (done ++ (e ∷ []))
            ∙ append_assoc done (e ∷ []) elems)
