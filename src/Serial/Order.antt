-- ===== src/Serial/Order.antt =====
-- The order of the bytes that `my_putc` and the loops over it give to the UART.
use usb_hid_wireless_bridge.Base.{
  ℕ, zero, suc, ◌+◌, ◌<◌, ◌≡◌, refl, ap, ◌∙◌, sym, Bool, true, false, ◌&&◌, ◌||◌, not, List, [],
  ◌∷◌, ◌++◌, append-nil, append_assoc, ltb, ◌==◌, if◌then◌else◌, arith,
}
use usb_hid_wireless_bridge.Crc.{crc32}
use usb_hid_wireless_bridge.Ring.{Ring, put, drop_first, first, contents, window, IsRing}
use usb_hid_wireless_bridge.Ring.Queue.{
  contents-put, put-IsRing, contents-drop_first, drop_first-IsRing,
}
use usb_hid_wireless_bridge.Serial.{
  buffer_size, end_code, esc, esc_end, esc_esc, Sender, my_putc, send_escaped_byte, send_bytes,
  send_frame, drain, crc_bytes,
}

-- All that has been sent and is still to be sent, in order.
abbrev pub sent : Sender → List ℕ
sent s = s.wire ++ contents buffer_size s.buffer

-- How a byte, and a frame, stand on the wire.
abbrev pub escape : ℕ → List ℕ
escape b =
    if b == end_code then esc ∷ esc_end ∷ [] else if b == esc then esc ∷ esc_esc ∷ [] else b ∷ []

abbrev pub escape_all : List ℕ → List ℕ
escape_all [] = []
escape_all (b ∷ bs) = escape b ++ escape_all bs

unfoldable pub frame : List ℕ → List ℕ
frame bytes =
    end_code ∷ (escape_all bytes ++ (escape_all (crc_bytes (crc32 bytes)) ++ (end_code ∷ [])))

-- `s'` has been given the bytes `bs` more than `s`.
pub record Gives (s : Sender) (bs : List ℕ) (s' : Sender) : Type 0 where
  pub is_ring : IsRing buffer_size s'.buffer
  pub in_order : sent s' ≡ sent s ++ bs

window_empty : (r : Ring ℕ) → r.items ≡ 0 → contents buffer_size r ≡ []
window_empty r e = ap (λ n. window buffer_size r.cells r.head n) e

fewer : (r : Ring ℕ) → IsRing buffer_size r → (drop_first buffer_size r).items < buffer_size
unfolding drop_first
fewer r v = omega (arith, v.items_in)

-- The three branches of `my_putc`.
to_uart-Gives :
    (c n : ℕ) (s : Sender)
    → IsRing buffer_size s.buffer
    → s.buffer.items ≡ 0
    → Gives s (c ∷ []) (record s { wire = s.wire ++ (c ∷ []); asked = n })
to_uart-Gives c n s v e = record {
  is_ring = v;
  in_order =
      ap (λ l. (s.wire ++ (c ∷ [])) ++ l) (window_empty s.buffer e)
      ∙ append-nil _
      ∙ ap (λ l. l ++ (c ∷ []))
          (sym (ap (λ l. s.wire ++ l) (window_empty s.buffer e) ∙ append-nil _));
}

to_ring-Gives :
    (c n : ℕ) (s : Sender)
    → IsRing buffer_size s.buffer
    → s.buffer.items < buffer_size
    → Gives s (c ∷ []) (record s { buffer = put buffer_size c s.buffer; asked = n })
to_ring-Gives c n s v h = record {
  is_ring = put-IsRing buffer_size c s.buffer v h;
  in_order =
      ap (λ l. s.wire ++ l) (contents-put buffer_size c s.buffer v h)
      ∙ sym (append_assoc s.wire (contents buffer_size s.buffer) (c ∷ []));
}

first_to_uart-Gives :
    (n : ℕ) (s : Sender)
    → IsRing buffer_size s.buffer
    → 0 < s.buffer.items
    → Gives s [] (record {
      buffer = drop_first buffer_size s.buffer;
      wire = s.wire ++ (first s.buffer ∷ []);
      asked = n;
    })
first_to_uart-Gives n s v h = record {
  is_ring = drop_first-IsRing buffer_size s.buffer v h;
  in_order =
      append_assoc s.wire (first s.buffer ∷ [])
        (contents buffer_size (drop_first buffer_size s.buffer))
      ∙ ap (λ l. s.wire ++ l) (sym (contents-drop_first buffer_size s.buffer h))
      ∙ sym (append-nil _);
}

Gives-then : {s t u : Sender} (bs cs : List ℕ) → Gives s bs t → Gives t cs u → Gives s (bs ++ cs) u
Gives-then {s} bs cs g h = record {
  is_ring = h.is_ring;
  in_order = h.in_order ∙ ap (λ l. l ++ cs) g.in_order ∙ append_assoc (sent s) bs cs;
}

module _ (writable : ℕ → Bool) where
  my_putc-Gives :
      (c : ℕ) (s : Sender) → IsRing buffer_size s.buffer → Gives s (c ∷ []) (my_putc writable c s)
  unfolding my_putc
  my_putc-Gives c s v =
      by_case ((s.buffer.items == 0) && writable s.asked) (ltb s.buffer.items buffer_size) refl refl
    where
      by_case :
          (a b : Bool)
          → ((s.buffer.items == 0) && writable s.asked) ≡ a
          → ltb s.buffer.items buffer_size ≡ b
          → Gives s (c ∷ []) (
              if a
              then record s { wire = s.wire ++ (c ∷ []); asked = s.asked + 1 }
              else if b
              then record s { buffer = put buffer_size c s.buffer; asked = s.asked + 1 }
              else record {
                buffer = put buffer_size c (drop_first buffer_size s.buffer);
                wire = s.wire ++ (first s.buffer ∷ []);
                asked = s.asked + 1;
              })
      by_case true b e f = to_uart-Gives c (s.asked + 1) s v (ground arith)
      by_case false true e f = to_ring-Gives c (s.asked + 1) s v (ground arith)
      by_case false false e f =
          let g = first_to_uart-Gives (s.asked + 1) s v (ground arith) in
          Gives-then [] (c ∷ []) g (
            to_ring-Gives c (s.asked + 1)
              (record {
                buffer = drop_first buffer_size s.buffer;
                wire = s.wire ++ (first s.buffer ∷ []);
                asked = s.asked + 1;
              })
              g.is_ring (fewer s.buffer v))

  -- `escape` is what `send_escaped_byte` and the receiver agree on.
  send_escaped_byte-Gives :
      (b : ℕ) (s : Sender)
      → IsRing buffer_size s.buffer
      → Gives s (escape b) (send_escaped_byte writable b s)
  unfolding send_escaped_byte
  send_escaped_byte-Gives b s v = by_case (b == end_code) (b == esc)
    where
      two : (c d : ℕ) → Gives s (c ∷ d ∷ []) (my_putc writable d (my_putc writable c s))
      two c d =
          let g = my_putc-Gives c s v in
          Gives-then (c ∷ []) (d ∷ []) g (my_putc-Gives d (my_putc writable c s) g.is_ring)

      by_case :
          (p q : Bool)
          → Gives s (if p then esc ∷ esc_end ∷ [] else if q then esc ∷ esc_esc ∷ [] else b ∷ []) (
              if p
              then my_putc writable esc_end (my_putc writable esc s)
              else if q
              then my_putc writable esc_esc (my_putc writable esc s)
              else my_putc writable b s)
      by_case true q = two esc esc_end
      by_case false true = two esc esc_esc
      by_case false false = my_putc-Gives b s v

  send_bytes-Gives :
      (bs : List ℕ) (s : Sender)
      → IsRing buffer_size s.buffer
      → Gives s (escape_all bs) (send_bytes writable bs s)
  unfolding send_bytes
  send_bytes-Gives [] s v = record { is_ring = v; in_order = sym (append-nil _) }
  send_bytes-Gives (b ∷ bs) s v =
      let g = send_escaped_byte-Gives b s v in
      Gives-then (escape b) (escape_all bs) g
        (send_bytes-Gives bs (send_escaped_byte writable b s) g.is_ring)

  pub send_frame-Gives :
      (bytes : List ℕ) (s : Sender)
      → IsRing buffer_size s.buffer
      → Gives s (frame bytes) (send_frame writable bytes (crc32 bytes) s)
  unfolding send_frame frame
  send_frame-Gives bytes s v =
      let opened = my_putc writable end_code s in
      let filled = send_bytes writable bytes opened in
      let checked = send_bytes writable (crc_bytes (crc32 bytes)) filled in
      let o = my_putc-Gives end_code s v in
      let f = send_bytes-Gives bytes opened o.is_ring in
      let k = send_bytes-Gives (crc_bytes (crc32 bytes)) filled f.is_ring in
      Gives-then (end_code ∷ []) _ o (
        Gives-then (escape_all bytes) _ f (
          Gives-then (escape_all (crc_bytes (crc32 bytes))) (end_code ∷ []) k
            (my_putc-Gives end_code checked k.is_ring)))

  -- Draining the outgoing ring, for any number of rounds and any answers of the UART, neither loses
  -- nor reorders a byte.
  pub drain-Gives :
      (n : ℕ) (s : Sender) → IsRing buffer_size s.buffer → Gives s [] (drain writable n s)
  unfolding drain
  drain-Gives zero s v = record { is_ring = v; in_order = sym (append-nil _) }
  drain-Gives (suc n) s v =
      by_case ((s.buffer.items == 0) || not (writable s.asked)) refl (drain-Gives n popped)
    where
      popped : Sender
      popped = record {
        buffer = drop_first buffer_size s.buffer;
        wire = s.wire ++ (first s.buffer ∷ []);
        asked = s.asked + 1;
      }

      by_case :
          (b : Bool)
          → ((s.buffer.items == 0) || not (writable s.asked)) ≡ b
          → (IsRing buffer_size popped.buffer → Gives popped [] (drain writable n popped))
          → Gives s [] (if b then s else drain writable n popped)
      by_case true e more = record { is_ring = v; in_order = sym (append-nil _) }
      by_case false e more =
          let g = first_to_uart-Gives (s.asked + 1) s v (ground arith) in
          Gives-then [] [] g (more g.is_ring)
