-- ===== src/Domain/Counters/Weighted.antt =====
-- Weighted metering is exact: it is the division of the weighted total by one thousand, and the
-- way in which traffic is cut into samples does not change the bill.
use guangyue_panel.Prelude.{
  ℕ, ◌+◌, ◌-◌, ◌*◌, ◌/◌, ◌%◌, ◌≤◌, ◌<◌, ◌≡◌, ap, List, [], ◌∷◌, arith, ℤ, pos, negsuc, pos_part,
  neg_part, leb, if◌then◌else◌, Result, ok, err, ◌>>=◌, >>=-eq-ok, sum_of, weighted_limit,
  traffic_limit,
}
use guangyue_panel.Domain.Counters.{counter_limit, weighted_bytes, add_counter}

-- The arguments that `weighted_bytes` takes: a counter, a rate up to 100 in steps of one
-- hundredth, and a residue.
pub record IsSample (bytes rate remainder : ℕ) : Type 0 where
  pub counted : bytes ≤ counter_limit
  pub rated : rate ≤ 100000
  pub stepped : rate % 10 ≡ 0
  pub residual : remainder < 1000

abbrev pub weighted_total : ℕ → ℕ → ℕ → ℕ
weighted_total bytes rate remainder = bytes * rate + remainder

split_total : (b r m : ℕ) → b * r + m ≡ 1000 * (b / 1000 * r) + (b % 1000 * r + m)
split_total b r m =
    let e : b ≡ 1000 * (b / 1000) + b % 1000 = omega arith in omega (arith, ap (λ (t : ℕ). t * r) e)

fraction_bound : (b r m : ℕ) → r ≤ 100000 → m < 1000 → b % 1000 * r + m < 100000000
fraction_bound b r m hr hm =
    let low : b % 1000 ≤ 999 = omega arith in
    let product : b % 1000 * r ≤ 999 * 100000 = grind arith in omega arith

-- The overflow guard divides instead of multiplying: both say that the product passes the limit.
div_guard : (a r w : ℕ) → 0 < r → a / r < w → a < w * r
div_guard a r w p h = grind arith

div_guard_not : (a r w : ℕ) → w ≤ a / r → w * r ≤ a
div_guard_not a r w h = grind arith

-- On a counter, a rate up to 100 in steps of one hundredth and a residue below one byte, the
-- function is the division of the weighted total by a thousand with its residue, refused above the
-- limit.
pub weighted_bytes_lem :
    (b r m : ℕ)
    → IsSample b r m
    → weighted_bytes (pos b) (pos r) (pos m) ≡ (
        if leb (weighted_total b r m / 1000) counter_limit
        then ok (weighted_total b r m / 1000, weighted_total b r m % 1000)
        else err weighted_limit)
unfolding weighted_bytes
weighted_bytes_lem b r m h = ground (
  arith,
  split_total b r m,
  fraction_bound b r m h.rated h.residual,
  div_guard (counter_limit - (b % 1000 * r + m) / 1000) r (b / 1000),
  div_guard_not (counter_limit - (b % 1000 * r + m) / 1000) r (b / 1000),
)

-- What a successful call says of its arguments and of the cost.
pub weighted_bytes-ok :
    (b r m c n : ℕ)
    → weighted_bytes (pos b) (pos r) (pos m) ≡ ok (c, n)
    → IsSample b r m × (c * 1000 + n ≡ weighted_total b r m) × (n < 1000) × (c ≤ counter_limit)
unfolding weighted_bytes
weighted_bytes-ok b r m c n h =
    let s : IsSample b r m = ground arith in
    let e = weighted_bytes_lem b r m s in
    (s, ground (arith, e), ground (arith, e), ground (arith, e))

pub add_counter_lem :
    (a d : ℕ)
    → add_counter (pos a) (pos d)
      ≡ (if leb (a + d) counter_limit then ok (a + d) else err traffic_limit)
unfolding add_counter
add_counter_lem a d = ground arith

-- Only numbers that are not negative pass: a sum of counters is again a counter.
pub add_counter-ok :
    (x y : ℤ) (c : ℕ)
    → add_counter x y ≡ ok c
    → (pos_part x + pos_part y ≡ c) × (neg_part x + neg_part y ≡ 0) × (c ≤ counter_limit)
unfolding add_counter
add_counter-ok (pos a) (pos d) c h = ground arith
add_counter-ok (pos a) (negsuc d) c h = ground arith
add_counter-ok (negsuc a) y c h = ground arith

-- A run of samples at one rate, as the meter takes them: costs add up, the residue is carried.
unfoldable pub meter_samples : ℕ → ℕ → List ℕ → Result (ℕ × ℕ)
meter_samples rate residue [] = ok (0, residue)
meter_samples rate residue (x ∷ xs) = do
  (cost, residue') ← weighted_bytes (pos x) (pos rate) (pos residue)
  (rest, last) ← meter_samples rate residue' xs
  ok (cost + rest, last)

abbrev total : List ℕ → ℕ
total = sum_of (λ x. x)

meter_samples_exact :
    (r m : ℕ) (xs : List ℕ) (c n : ℕ)
    → m < 1000
    → meter_samples r m xs ≡ ok (c, n)
    → (c * 1000 + n ≡ weighted_total (total xs) r m) × (n < 1000)
unfolding meter_samples
meter_samples_exact r m [] c n small h = ground arith
meter_samples_exact r m (x ∷ xs) c n small h =
    let s = >>=-eq-ok (weighted_bytes (pos x) (pos r) (pos m)) _ h in
    let w = weighted_bytes-ok x r m s.0.0 s.0.1 s.1 in
    let t = >>=-eq-ok (meter_samples r s.0.1 xs) _ s.2 in
    let i = meter_samples_exact r s.0.1 xs t.0.0 t.0.1 w.2 t.1 in
    let e : (x + total xs) * r ≡ x * r + total xs * r = grind arith in
    ground (arith, w.1, w.2, i.0, i.1, t.2, e)

-- With a residue below one byte, two ways to cut the same traffic into samples, if both are taken,
-- cost the same and leave the same residue.
pub metering_ignores_sampling :
    (r m : ℕ) (xs ys : List ℕ) (a b : ℕ × ℕ)
    → m < 1000
    → total xs ≡ total ys
    → meter_samples r m xs ≡ ok a
    → meter_samples r m ys ≡ ok b
    → a ≡ b
metering_ignores_sampling r m xs ys (a, p) (b, q) small same hx hy =
    let x = meter_samples_exact r m xs a p small hx in
    let y = meter_samples_exact r m ys b q small hy in
    let e : total xs * r ≡ total ys * r = ap (λ (t : ℕ). t * r) same in ground (arith, x, y, e)
