-- ===== src/Domain/Counters.antt =====
-- The byte counters of domain/entitlement.go: `WeightedBytes` and `AddCounter`.
-- Arguments are int64 and may be negative; results are counters, never negative.
pub mod Weighted
use guangyue_panel.Prelude.{
  ℕ, ◌+◌, ◌-◌, ◌*◌, ◌/◌, ◌%◌, ◌^◌, Bool, not, ◌&&◌, ◌||◌, ℤ, pos, sub_ℕ, ltb_ℤ, ltb, leb, ◌==◌,
  nat_eq, if◌then◌else◌, Result, ok, err, invalid_weighted, weighted_limit, traffic_limit,
}

abbrev pub counter_limit : ℕ
counter_limit = 2 ^ 60

-- Multiply a byte delta by a rate in thousandths; the residue below one byte is carried on.
unfoldable pub weighted_bytes : ℤ → ℤ → ℤ → Result (ℕ × ℕ)
weighted_bytes (pos bytes) (pos rate) (pos remainder) =
    if ltb counter_limit bytes || ltb 100000 rate || not (rate % 10 == 0) || leb 1000 remainder
    then err invalid_weighted
    else let whole = bytes / 1000 in
      let fraction = bytes % 1000 * rate + remainder in
      if ltb 0 rate && ltb ((counter_limit - fraction / 1000) / rate) whole
      then err weighted_limit
      else ok (whole * rate + fraction / 1000, fraction % 1000)
weighted_bytes _ _ _ = err invalid_weighted

unfoldable pub add_counter : ℤ → ℤ → Result ℕ
add_counter (pos previous) (pos delta) =
    if ltb_ℤ (sub_ℕ counter_limit delta) (pos previous)
    then err traffic_limit
    else ok (previous + delta)
add_counter _ _ = err traffic_limit
