-- ===== src/Rle/Covers.antt =====
-- The usages that the runs of `rlencode` stand for.
use usb_hid_wireless_bridge.Base.{
  ℕ, ◌+◌, ◌-◌, ◌^◌, ◌≤◌, ◌<◌, Bool, true, false, ◌&&◌, ◌||◌, List, [], ◌∷◌, ltb, leb, ◌==◌, ◌≡◌,
  refl, ap, ◌∙◌, if◌then◌else◌, arith,
}
use usb_hid_wireless_bridge.Rle.{Range, Run, run_of, behind, extended, encode, rlencode}

abbrev pub in_range : ℕ → Range → Bool
in_range v r = leb r.usage_minimum v && leb v r.usage_maximum

abbrev pub in_run : ℕ → Run → Bool
in_run v run = leb run.usage v && ltb v (run.usage + run.count)

abbrev pub in_ranges : ℕ → List Range → Bool
in_ranges v [] = false
in_ranges v (r ∷ rs) = in_range v r || in_ranges v rs

abbrev pub in_runs : ℕ → List Run → Bool
in_runs v [] = false
in_runs v (r ∷ rs) = in_run v r || in_runs v rs

-- Ranges in ascending order of their first usages, from `least` on, none of them empty, and none
-- with the last usage of 32 bits.
pub data Ascending : ℕ → List Range → Type 0 where
  no_more : {least : ℕ} → Ascending least []
  one_more :
      {least : ℕ} {r : Range} {rs : List Range}
      → least ≤ r.usage_minimum
      → r.usage_minimum ≤ r.usage_maximum
      → r.usage_maximum < 2 ^ 32 - 1
      → Ascending r.usage_minimum rs
      → Ascending least (r ∷ rs)

-- A run in the making.
record Open (run : Run) : Type 0 where
  starts : 1 ≤ run.usage
  nonempty : 1 ≤ run.count
  ends : run.usage + run.count < 2 ^ 32

Open-run_of :
    (r : Range)
    → 1 ≤ r.usage_minimum
    → r.usage_minimum ≤ r.usage_maximum
    → r.usage_maximum < 2 ^ 32 - 1
    → Open (run_of r)
Open-run_of r a b c = record { starts = a; nonempty = omega arith; ends = omega arith }

lower : {a b : ℕ} {rs : List Range} → a ≤ b → Ascending b rs → Ascending a rs
lower h no_more = no_more
lower h (one_more a b c t) = one_more (omega arith) b c t

in_run-run_of :
    (v : ℕ) (r : Range)
    → r.usage_minimum ≤ r.usage_maximum
    → r.usage_maximum < 2 ^ 32 - 1
    → in_run v (run_of r) ≡ in_range v r
in_run-run_of v r b c = ground arith

Open-extended :
    (run : Run) (r : Range)
    → Open run
    → run.usage ≤ r.usage_minimum
    → r.usage_maximum < 2 ^ 32 - 1
    → ltb r.usage_maximum (behind run) ≡ false
    → Open (extended run r)
Open-extended run r o a c w = record {
  starts = o.starts;
  nonempty = ground (arith, o.ends, o.nonempty);
  ends = ground (arith, o.ends, o.nonempty);
}

within :
    (v : ℕ) (run : Run) (r : Range) (other : Bool)
    → run.usage ≤ r.usage_minimum
    → ltb r.usage_maximum (behind run) ≡ true
    → run.usage + run.count < 2 ^ 32
    → (in_run v run || other) ≡ (in_run v run || (in_range v r || other))
within v run r other a w h = ground arith

joined :
    (v : ℕ) (run : Run) (r : Range) (other : Bool)
    → run.usage ≤ r.usage_minimum
    → r.usage_minimum ≤ r.usage_maximum
    → r.usage_maximum < 2 ^ 32 - 1
    → leb r.usage_minimum (behind run) ≡ true
    → ltb r.usage_maximum (behind run) ≡ false
    → run.usage + run.count < 2 ^ 32
    → 1 ≤ run.count
    → (in_run v (extended run r) || other) ≡ (in_run v run || (in_range v r || other))
joined v run r other a b c q w h n = ground arith

in_runs-encode :
    (v : ℕ) (run : Run) (rs : List Range)
    → Open run
    → Ascending run.usage rs
    → in_runs v (encode run rs) ≡ (in_run v run || in_ranges v rs)
unfolding encode
in_runs-encode v run [] o no_more = ground (arith, o.starts)
in_runs-encode v run (r ∷ rs) o (one_more a b c t) =
    by_case (run.usage == 0) (leb r.usage_minimum (behind run)) (ltb r.usage_maximum (behind run))
      refl refl refl
      (in_runs-encode v (run_of r) rs (Open-run_of r (omega (arith, o.starts)) b c) t)
      (in_runs-encode v run rs o (lower a t))
      (λ still. in_runs-encode v (extended run r) rs still (lower a t))
  where
    by_case :
        (x y z : Bool)
        → (run.usage == 0) ≡ x
        → leb r.usage_minimum (behind run) ≡ y
        → ltb r.usage_maximum (behind run) ≡ z
        → in_runs v (encode (run_of r) rs) ≡ (in_run v (run_of r) || in_ranges v rs)
        → in_runs v (encode run rs) ≡ (in_run v run || in_ranges v rs)
        → (Open (extended run r)
            → in_runs v (encode (extended run r) rs)
              ≡ (in_run v (extended run r) || in_ranges v rs))
        → in_runs v (
            if x
            then encode (run_of r) rs
            else if y
            then if z then encode run rs else encode (extended run r) rs
            else run ∷ encode (run_of r) rs)
          ≡ (in_run v run || (in_range v r || in_ranges v rs))
    by_case true y z p q w first same longer = ground (arith, o.starts)
    by_case false true true p q w first same longer =
        same ∙ within v run r (in_ranges v rs) a w o.ends
    by_case false true false p q w first same longer =
        longer (Open-extended run r o a c w)
        ∙ joined v run r (in_ranges v rs) a b c q w o.ends o.nonempty
    by_case false false z p q w first same longer =
        ap (λ (t : Bool). in_run v run || t) first
        ∙ ap (λ (t : Bool). in_run v run || (t || in_ranges v rs)) (in_run-run_of v r b c)

-- For ranges of usages each of whose minimum is at most its maximum, in ascending order of their
-- minimum, from usage 1 to 2^32 - 2: a usage lies in one of the runs exactly if it lies in one of the
-- ranges.
pub in_runs-rlencode :
    (v : ℕ) (rs : List Range) → Ascending 1 rs → in_runs v (rlencode rs) ≡ in_ranges v rs
unfolding rlencode encode
in_runs-rlencode v [] no_more = refl
in_runs-rlencode v (r ∷ rs) (one_more a b c t) =
    in_runs-encode v (run_of r) rs (Open-run_of r a b c) t
    ∙ ap (λ (x : Bool). x || in_ranges v rs) (in_run-run_of v r b c)
