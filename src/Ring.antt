-- ===== src/Ring.antt =====
-- The circular buffers of the firmware: a C array with a head, a tail and a number of items, which
-- serial.cc, out_report.cc, remapper.cc, remapper_dual_b.cc and mouse_pipeline_trace.cc each write
-- out with their own size.
use usb_hid_wireless_bridge.Base.{ℕ, zero, suc, ◌+◌, ◌-◌, ◌%◌, ◌≤◌, ◌<◌, ◌≡◌, List, [], ◌∷◌, update}
pub mod Queue
pub mod Last

pub record Ring {ℓ} (A : Type ℓ) : Type ℓ where
  pub cells : ℕ → A
  pub head : ℕ
  pub tail : ℕ
  pub items : ℕ

-- `buffer[tail] = x; tail = (tail + 1) % SIZE; items++;`
unfoldable pub put {ℓ} : {A : Type ℓ} → ℕ → A → Ring A → Ring A
put size x r = record {
  cells = update r.cells r.tail x;
  head = r.head;
  tail = (r.tail + 1) % size;
  items = r.items + 1;
}

-- `head = (head + 1) % SIZE; items--;`
unfoldable pub drop_first {ℓ} : {A : Type ℓ} → ℕ → Ring A → Ring A
drop_first size r = record r { head = (r.head + 1) % size; items = r.items - 1 }

-- `buffer[head]`
abbrev pub first {ℓ} : {A : Type ℓ} → Ring A → A
first r = r.cells r.head

-- `(tail + SIZE - 1) % SIZE`, the place of the last item, and a write there.
abbrev pub last_place {ℓ} : {A : Type ℓ} → ℕ → Ring A → ℕ
last_place size r = (r.tail + size - 1) % size

unfoldable pub change_last {ℓ} : {A : Type ℓ} → ℕ → A → Ring A → Ring A
change_last size x r = record r { cells = update r.cells (last_place size r) x }

-- What the buffer holds, first item first.
abbrev pub window {ℓ} : {A : Type ℓ} → ℕ → (ℕ → A) → ℕ → ℕ → List A
window size cells h zero = []
window size cells h (suc n) = cells h ∷ window size cells ((h + 1) % size) n

abbrev pub contents {ℓ} : {A : Type ℓ} → ℕ → Ring A → List A
contents size r = window size r.cells r.head r.items

pub record IsRing {ℓ} {A : Type ℓ} (size : ℕ) (r : Ring A) : Type 0 where
  pub head_in : r.head < size
  pub items_in : r.items ≤ size
  pub tail_at : r.tail ≡ (r.head + r.items) % size
