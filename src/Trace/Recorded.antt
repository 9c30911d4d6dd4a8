-- ===== src/Trace/Recorded.antt =====
-- What can be read back from the ring of trace records.
use native.Mathlib.Nat.{mod-eq_of_lt, mod-eq-sub-mod, mod-lt}
use native.Mathlib.Decide.{dec_lt}
use usb_hid_wireless_bridge.Base.{
  ℕ, ◌+◌, ◌-◌, ◌%◌, ◌^◌, ◌≤◌, ◌<◌, ◌≡◌, ◌≢◌, refl, ap, ◌∙◌, sym, Bool, true, false, some, ltb, zero,
  suc, ◌++◌, List, [], ◌∷◌, Option, drop, ap₂, subst, if◌then◌else◌, arith, update, inl, inr, ◌⊎◌,
}
use usb_hid_wireless_bridge.Trace.{
  State, Record, Content, record_of, write_record, mouse_pipeline_trace_get_record,
}

pub record IsValid (capacity : ℕ) (s : State) : Type 0 where
  pub head_in : s.trace_head < capacity
  pub count_in : s.trace_count ≤ capacity

module _ (capacity : ℕ) where
  pub write-IsValid :
      (c : Content) (s : State) → IsValid capacity s → IsValid capacity (write_record capacity c s)
  unfolding write_record
  write-IsValid c s v = record {
    head_in = mod-lt (s.trace_head + 1) (omega (arith, v.head_in));
    count_in = ground (arith, v.count_in);
  }

  wrapped :
      (x : ℕ)
      → x < capacity + capacity
      → ((x < capacity) × (x % capacity ≡ x)) ⊎ ((capacity ≤ x) × (x % capacity ≡ x - capacity))
  wrapped x h = elim (dec_lt x capacity) [
    | yes p ↦ inl (p, mod-eq_of_lt p)
    | no p ↦ inr (
      omega arith,
      mod-eq-sub-mod {n = x} {m = capacity} (omega arith) ∙ mod-eq_of_lt (omega arith),
    )
  ]

  -- Where record number i stands, counted from the oldest of `count` records before `head`.
  abbrev place : ℕ → ℕ → ℕ → ℕ
  place head count i = ((head + capacity - count) % capacity + i) % capacity

  -- A place as a number of steps behind the head.
  place_lem :
      (head count i : ℕ)
      → head < capacity
      → count ≤ capacity
      → i < count
      → ((count ≤ head + i) × (place head count i ≡ head + i - count))
        ⊎ ((head + i < count) × (place head count i ≡ head + i + capacity - count))
  place_lem head count i h k l = ground (
    arith,
    wrapped (head + capacity - count) (omega arith),
    wrapped ((head + capacity - count) % capacity + i)
        (omega (arith, mod-lt (head + capacity - count) {m = capacity} (omega arith))),
  )

  place_kept :
      (head count i : ℕ)
      → head < capacity
      → count < capacity
      → i < count
      → (place ((head + 1) % capacity) (count + 1) i ≡ place head count i)
        × (place head count i ≢ head)
  place_kept head count i h k l =
      let a = place_lem head count i h (omega arith) l in
      let b =
        place_lem ((head + 1) % capacity) (count + 1) i (mod-lt (head + 1) (omega arith))
          (omega arith) (omega arith) in
      let c = wrapped (head + 1) (omega arith) in (omega (arith, a, b, c), λ e. omega (arith, a, e))

  place_shifted :
      (head count i : ℕ)
      → head < capacity
      → count ≡ capacity
      → i + 1 < count
      → (place ((head + 1) % capacity) count i ≡ place head count (i + 1))
        × (place head count (i + 1) ≢ head)
  place_shifted head count i h f l =
      let a = place_lem head count (i + 1) h (omega arith) l in
      let b =
        place_lem ((head + 1) % capacity) count i (mod-lt (head + 1) (omega arith)) (omega arith)
          (omega arith) in
      let c = wrapped (head + 1) (omega arith) in (omega (arith, a, b, c), λ e. omega (arith, a, e))

  place_newest :
      (head n m : ℕ)
      → head < capacity
      → m ≡ n + 1
      → m ≤ capacity
      → place ((head + 1) % capacity) m n ≡ head
  place_newest head n m h f k = omega (
    arith,
    place_lem ((head + 1) % capacity) m n (mod-lt (head + 1) (omega arith)) k (omega arith),
    wrapped (head + 1) (omega arith),
  )

  get_lem :
      (i : ℕ) (s : State)
      → i < s.trace_count
      → mouse_pipeline_trace_get_record capacity i s
        ≡ some (s.trace_ring (place s.trace_head s.trace_count i))
  unfolding mouse_pipeline_trace_get_record
  get_lem i s h = ground arith

  away : (f : ℕ → Record) (x : Record) (i j : ℕ) → i ≢ j → update f j x i ≡ f i
  away f x i j h = ground arith

  there : (f : ℕ → Record) (x : Record) (i j : ℕ) → i ≡ j → update f j x i ≡ x
  there f x i j h = ground arith

  -- A write with the number of records that it leaves given.
  abbrev written : Content → State → ℕ → State
  written c s n = record s {
    trace_ring = update s.trace_ring s.trace_head (record_of s.trace_sequence c);
    trace_sequence = (s.trace_sequence + 1) % 2 ^ 32;
    trace_head = (s.trace_head + 1) % capacity;
    trace_count = n;
  }

  abbrev pub dropped : State → ℕ
  dropped s = if ltb s.trace_count capacity then 0 else 1

  -- The answers for the indices i to i + n - 1.
  unfoldable pub read_from : ℕ → ℕ → State → List (Option Record)
  read_from i zero s = []
  read_from i (suc n) s = mouse_pipeline_trace_get_record capacity i s ∷ read_from (i + 1) n s

  -- Everything that can be read, oldest first.
  abbrev pub read_all : State → List (Option Record)
  read_all s = read_from 0 s.trace_count s

  read_from_last :
      (i n : ℕ) (s : State)
      → read_from i (suc n) s
        ≡ read_from i n s ++ (mouse_pipeline_trace_get_record capacity (i + n) s ∷ [])
  unfolding read_from
  read_from_last i zero s =
      ap (λ j. mouse_pipeline_trace_get_record capacity j s ∷ []) {y = i + 0} (omega arith)
  read_from_last i (suc n) s =
      ap (λ l. mouse_pipeline_trace_get_record capacity i s ∷ l)
        (read_from_last (i + 1) n s
          ∙ ap (λ j. read_from (i + 1) n s ++ (mouse_pipeline_trace_get_record capacity j s ∷ []))
              {x = i + 1 + n} {y = i + suc n} (omega arith))

  read_from_same :
      (n i d : ℕ) (s t : State)
      → ((j : ℕ)
          → j < i + n
          → mouse_pipeline_trace_get_record capacity j t
            ≡ mouse_pipeline_trace_get_record capacity (j + d) s)
      → read_from i n t ≡ read_from (i + d) n s
  unfolding read_from
  read_from_same zero i d s t h = refl
  read_from_same (suc n) i d s t h = ap₂ ◌∷◌ (h i (omega arith)) (
      read_from_same n (i + 1) d s t (λ j l. h j (omega arith))
      ∙ ap (λ k. read_from k n s) {x = i + 1 + d} {y = i + d + 1} (omega arith))

  write-shift :
      (c : Content) (s : State) (i : ℕ)
      → IsValid capacity s
      → i + dropped s < s.trace_count
      → mouse_pipeline_trace_get_record capacity i (write_record capacity c s)
        ≡ mouse_pipeline_trace_get_record capacity (i + dropped s) s
  unfolding write_record
  write-shift c s i v h = by_case (ltb s.trace_count capacity) refl h
    where
      stored : ℕ → Record
      stored = update s.trace_ring s.trace_head (record_of s.trace_sequence c)

      by_case :
          (b : Bool)
          → ltb s.trace_count capacity ≡ b
          → i + (if b then 0 else 1) < s.trace_count
          → mouse_pipeline_trace_get_record capacity i
              (written c s (if b then s.trace_count + 1 else s.trace_count))
            ≡ mouse_pipeline_trace_get_record capacity (i + (if b then 0 else 1)) s
      by_case true e k =
          let l : s.trace_count < capacity = ground arith in
          let (p, q) = place_kept s.trace_head s.trace_count i v.head_in l (omega arith) in
          get_lem i (written c s (s.trace_count + 1)) (omega arith)
          ∙ ap (λ n. some (stored n)) p
          ∙ ap some (away s.trace_ring (record_of s.trace_sequence c) _ s.trace_head q)
          ∙ sym (get_lem i s (omega arith))
          ∙ ap (λ n. mouse_pipeline_trace_get_record capacity n s) {x = i} {y = i + 0} (omega arith)
      by_case false e k =
          let full : s.trace_count ≡ capacity = ground (arith, v.count_in) in
          let (p, q) = place_shifted s.trace_head s.trace_count i v.head_in full k in
          get_lem i (written c s s.trace_count) (omega arith)
          ∙ ap (λ n. some (stored n)) p
          ∙ ap some (away s.trace_ring (record_of s.trace_sequence c) _ s.trace_head q)
          ∙ sym (get_lem (i + 1) s k)

  write-newest :
      (c : Content) (s : State) (n : ℕ)
      → IsValid capacity s
      → n + dropped s ≡ s.trace_count
      → ((write_record capacity c s).trace_count ≡ n + 1)
        × (mouse_pipeline_trace_get_record capacity n (write_record capacity c s)
            ≡ some (record_of s.trace_sequence c))
  unfolding write_record
  write-newest c s n v h = by_case (ltb s.trace_count capacity) refl h
    where
      by_case :
          (b : Bool)
          → ltb s.trace_count capacity ≡ b
          → n + (if b then 0 else 1) ≡ s.trace_count
          → let m = if b then s.trace_count + 1 else s.trace_count in
            (m ≡ n + 1)
            × (mouse_pipeline_trace_get_record capacity n (written c s m)
                ≡ some (record_of s.trace_sequence c))
      by_case true e k = (
        omega (arith, k),
        get_lem n (written c s (s.trace_count + 1)) (omega (arith, k))
            ∙ ap some (
                there s.trace_ring (record_of s.trace_sequence c) _ s.trace_head (
                  place_newest s.trace_head n (s.trace_count + 1) v.head_in (omega (arith, k))
                    (ground (arith, e)))),
      )
      by_case false e k = (
        omega (arith, k),
        get_lem n (written c s s.trace_count) (omega (arith, k))
            ∙ ap some (
                there s.trace_ring (record_of s.trace_sequence c) _ s.trace_head (
                  place_newest s.trace_head n s.trace_count v.head_in (omega (arith, k))
                    v.count_in)),
      )

  drop_oldest :
      (s : State) (d n : ℕ)
      → n + d ≡ s.trace_count
      → (d ≡ 0) ⊎ (d ≡ 1)
      → read_from d n s ≡ drop d (read_all s)
  unfolding read_from
  drop_oldest s d n h (inl e) =
      subst (λ (k : ℕ). read_from k n s ≡ drop k (read_all s)) (sym e)
        (ap (λ m. read_from 0 m s) {x = n} {y = s.trace_count} (omega (arith, h, e)))
  drop_oldest s d n h (inr e) =
      subst (λ (k : ℕ). read_from k n s ≡ drop k (read_all s)) (sym e)
        (ap (λ m. drop 1 (read_from 0 m s)) {x = suc n} {y = s.trace_count} (omega (arith, h, e)))

  -- After a record is written to a valid ring, what can be read is what could be read before, in the
  -- same order, with the record behind it; of what could be read before the oldest is dropped exactly
  -- if the ring was full.
  pub write-read_all :
      (c : Content) (s : State)
      → IsValid capacity s
      → read_all (write_record capacity c s)
        ≡ drop (dropped s) (read_all s) ++ (some (record_of s.trace_sequence c) ∷ [])
  write-read_all c s v =
      let n = s.trace_count - dropped s in
      let count : n + dropped s ≡ s.trace_count = ground (arith, v.head_in, v.count_in) in
      let (size, newest) = write-newest c s n v count in
      let t = write_record capacity c s in
      ap (λ m. read_from 0 m t) {y = suc n} (omega (arith, size))
      ∙ read_from_last 0 n t
      ∙ ap₂ (λ l o. l ++ (o ∷ []))
          (read_from_same n 0 (dropped s) s t (λ j l. write-shift c s j v (omega (arith, l, count)))
            ∙ ap (λ k. read_from k n s) {x = 0 + dropped s} {y = dropped s} (omega arith)
            ∙ drop_oldest s (dropped s) n count (ground arith))
          (ap (λ k. mouse_pipeline_trace_get_record capacity k t) {x = 0 + n} {y = n} (omega arith)
            ∙ newest)
