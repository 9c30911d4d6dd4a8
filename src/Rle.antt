-- ===== src/Rle.antt =====
-- `rlencode` of remapper.cc, which describes the usages of a descriptor to the configuration tool as
-- runs of usages.
use usb_hid_wireless_bridge.Base.{
  ℕ, zero, suc, ◌+◌, ◌-◌, ◌%◌, ◌^◌, List, [], ◌∷◌, ltb, leb, ◌==◌, if◌then◌else◌,
}
pub mod Covers
pub mod Tests

-- An element of the set: `usage_minimum << 32 | usage_maximum`. The set is in ascending order.
pub record Range : Type 0 where
  pub usage_minimum : ℕ
  pub usage_maximum : ℕ

-- `usage_rle_t`
pub record Run : Type 0 where
  pub usage : ℕ
  pub count : ℕ

abbrev pub run_of : Range → Run
run_of r = record {
  usage = r.usage_minimum;
  count = (1 + r.usage_maximum + 2 ^ 32 - r.usage_minimum) % 2 ^ 32;
}

abbrev pub behind : Run → ℕ
behind run = (run.usage + run.count) % 2 ^ 32

-- `count += 1 + usage_maximum - (start_usage + count)`
abbrev pub extended : Run → Range → Run
extended run r = record run {
  count = (run.count + 1 + r.usage_maximum + 2 ^ 32 - behind run) % 2 ^ 32;
}

-- The loop, with the run that is not pushed yet; a run that starts at 0 stands for none.
unfoldable pub encode : Run → List Range → List Run
encode run [] = if run.usage == 0 then [] else run ∷ []
encode run (r ∷ rs) =
    let first_run = encode (run_of r) rs in
    let same_run = encode run rs in
    let longer_run = encode (extended run r) rs in
    if run.usage == 0
    then first_run
    else if leb r.usage_minimum (behind run)
    then if ltb r.usage_maximum (behind run) then same_run else longer_run
    else run ∷ first_run

unfoldable pub rlencode : List Range → List Run
rlencode ranges = encode record { usage = 0; count = 0 } ranges
