-- ===== src/Serial/Bytes.antt =====
-- What the receiver of serial.cc does with the escaped bytes of a frame.
use usb_hid_wireless_bridge.Base.{
  ℕ, zero, suc, ◌+◌, ◌≤◌, ◌<◌, ◌≡◌, refl, ap, ap₂, ◌∙◌, sym, Bool, true, false, List, [], ◌∷◌, ◌++◌,
  append-nil, append_assoc, none, length, ◌==◌, if◌then◌else◌, arith, update,
}
use usb_hid_wireless_bridge.Serial.{end_code, esc, esc_end, esc_esc}
use usb_hid_wireless_bridge.Serial.Order.{escape, escape_all}
use usb_hid_wireless_bridge.Serial.Receive.{
  receive_size, Receiver, store_byte, prefix, unescape, take_byte, receive_byte, unless_handed_over,
  receive,
}

abbrev pub at : (ℕ → ℕ) → ℕ → Bool → Receiver
at buffer n escaped = record { buffer = buffer; bytes_read = n; escaped = escaped }

pub receive_next :
    (c : ℕ) (cs : List ℕ) (r q : Receiver)
    → r.bytes_read < receive_size
    → take_byte c r ≡ (none, q)
    → receive (c ∷ cs) r ≡ receive cs q
unfolding receive receive_byte
receive_next c cs r q h e =
    ap (λ x. unless_handed_over x cs (receive cs x.1))
      (ap (λ n. take_byte c (record r { bytes_read = n })) {y = r.bytes_read} (omega arith) ∙ e)

receive_plain :
    (b : ℕ) (rest : List ℕ) (buffer : ℕ → ℕ) (n : ℕ)
    → n < receive_size
    → (b == end_code) ≡ false
    → (b == esc) ≡ false
    → receive (b ∷ rest) (at buffer n false) ≡ receive rest (at (update buffer n b) (n + 1) false)
unfolding take_byte store_byte
receive_plain b rest buffer n h e f = receive_next b rest (at buffer n false) _ h (rw (e, f))

receive-esc :
    (x : ℕ) (rest : List ℕ) (buffer : ℕ → ℕ) (n : ℕ)
    → n < receive_size
    → receive (esc ∷ x ∷ rest) (at buffer n false)
      ≡ receive rest (at (update buffer n (unescape x)) (n + 1) false)
unfolding take_byte store_byte
receive-esc x rest buffer n h =
    receive_next esc (x ∷ rest) (at buffer n false) (at buffer n true) h refl
    ∙ receive_next x rest (at buffer n true) (at (update buffer n (unescape x)) (n + 1) false) h
        refl

-- An escaped byte is stored as it was.
pub receive-escape :
    (b : ℕ) (rest : List ℕ) (buffer : ℕ → ℕ) (n : ℕ)
    → n < receive_size
    → receive (escape b ++ rest) (at buffer n false)
      ≡ receive rest (at (update buffer n b) (n + 1) false)
receive-escape b rest buffer n h = by_case (b == end_code) (b == esc) refl refl
  where
    by_case :
        (p q : Bool)
        → (b == end_code) ≡ p
        → (b == esc) ≡ q
        → receive
            ((if p then esc ∷ esc_end ∷ [] else if q then esc ∷ esc_esc ∷ [] else b ∷ []) ++ rest)
            (at buffer n false)
          ≡ receive rest (at (update buffer n b) (n + 1) false)
    by_case true q e f =
        receive-esc esc_end rest buffer n h
        ∙ ap (λ k. receive rest (at (update buffer n k) (n + 1) false)) {y = b} (ground arith)
    by_case false true e f =
        receive-esc esc_esc rest buffer n h
        ∙ ap (λ k. receive rest (at (update buffer n k) (n + 1) false)) {y = b} (ground arith)
    by_case false false e f = receive_plain b rest buffer n h e f

-- `buffer` after `bs` has been written from n on.
unfoldable pub write_all : List ℕ → (ℕ → ℕ) → ℕ → ℕ → ℕ
write_all [] buffer n = buffer
write_all (b ∷ bs) buffer n = write_all bs (update buffer n b) (n + 1)

pub receive-escape_all :
    (bs rest : List ℕ) (buffer : ℕ → ℕ) (n : ℕ)
    → n + length bs ≤ receive_size
    → receive (escape_all bs ++ rest) (at buffer n false)
      ≡ receive rest (at (write_all bs buffer n) (n + length bs) false)
unfolding write_all
receive-escape_all [] rest buffer n h =
    ap (λ k. receive rest (at buffer k false)) {y = n + 0} (omega arith)
receive-escape_all (b ∷ bs) rest buffer n h =
    ap (λ l. receive l (at buffer n false)) (append_assoc (escape b) (escape_all bs) rest)
    ∙ receive-escape b (escape_all bs ++ rest) buffer n (omega arith)
    ∙ receive-escape_all bs rest (update buffer n b) (n + 1) (omega arith)
    ∙ ap (λ k. receive rest (at (write_all bs (update buffer n b) (n + 1)) k false))
        {y = n + suc (length bs)} (omega arith)

-- A write at or behind n leaves the first n bytes.
pub prefix-update :
    (n i b : ℕ) (buffer : ℕ → ℕ) → n ≤ i → prefix n (update buffer i b) ≡ prefix n buffer
prefix-update zero i b buffer h = refl
prefix-update (suc n) i b buffer h =
    ap₂ (λ l x. l ++ (x ∷ [])) (prefix-update n i b buffer (omega arith)) (ground arith)

pub prefix_next :
    (n b : ℕ) (buffer : ℕ → ℕ) → prefix (n + 1) (update buffer n b) ≡ prefix n buffer ++ (b ∷ [])
prefix_next n b buffer =
    ap (λ k. prefix k (update buffer n b)) {x = n + 1} {y = suc n} (omega arith)
    ∙ ap₂ (λ l x. l ++ (x ∷ [])) (prefix-update n n b buffer (omega arith)) (ground arith)

pub prefix-write_all :
    (bs : List ℕ) (buffer : ℕ → ℕ) (n : ℕ)
    → prefix (n + length bs) (write_all bs buffer n) ≡ prefix n buffer ++ bs
unfolding write_all
prefix-write_all [] buffer n =
    ap (λ k. prefix k buffer) {x = n + 0} {y = n} (omega arith) ∙ sym (append-nil (prefix n buffer))
prefix-write_all (b ∷ bs) buffer n =
    ap (λ k. prefix k (write_all bs (update buffer n b) (n + 1))) {x = n + suc (length bs)}
      {y = n + 1 + length bs} (omega arith)
    ∙ prefix-write_all bs (update buffer n b) (n + 1)
    ∙ ap (λ l. l ++ bs) (prefix_next n b buffer)
    ∙ append_assoc (prefix n buffer) (b ∷ []) bs
