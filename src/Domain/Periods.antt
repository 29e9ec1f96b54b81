-- ===== src/Domain/Periods.antt =====
-- `NextPeriod` of domain/entitlement.go. The time zone database is a parameter.
use guangyue_panel.Prelude.{
  ℕ, ◌+◌, ◌*◌, String, ◌||◌, Option, ◌==◌, string_eq, if◌then◌else◌, Result, ok, err, or_fail,
  ◌>>=◌, unknown_zone, invalid_cycle,
}

-- What the code asks of a loaded zone: the first instant of the month of an instant, and of the
-- month after it.
pub record Zone : Type 0 where
  pub month_start : ℕ → ℕ
  pub next_month : ℕ → ℕ

-- `time.LoadLocation`: a name that the zone database lacks is an error.
pub record Calendar : Type 0 where
  pub load : String → Option Zone

abbrev pub day : ℕ
day = 86400

unfoldable pub next_period : Calendar → ℕ → String → String → Result ℕ
next_period cal start cycle zone =
    if cycle == "" || cycle == "none"
    then ok 0
    else if cycle == "30d"
    then ok (start + 30 * day)
    else if cycle == "month"
    then (do loc ← or_fail (cal.load zone) unknown_zone; ok (loc.next_month start))
    else err invalid_cycle
