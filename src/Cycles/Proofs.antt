-- ===== src/Cycles/Proofs.antt =====
-- What a new quota period is: nothing is used in it, it holds the present time, and what was
-- transferred before stays counted.
use guangyue_panel.Prelude.{
  ℕ, ◌+◌, ◌-◌, ◌*◌, ◌/◌, ◌≤◌, ◌<◌, ◌≡◌, refl, subst, true, false, some, ◌==◌, nat_eq, string_eq,
  arith, ok, or_fail, >>=-eq-ok, nil_pointer,
}
use guangyue_panel.Domain.Account.{User, QuotaMeter, Entitlement, quota_used}
use guangyue_panel.Domain.Periods.{Calendar, next_period}
use guangyue_panel.Cycles.{Round, period_start, period_end, new_period, rolled_over}

-- When an account with a meter is rolled over, nothing of the quota is used, a reset is no longer
-- pending, and the account's traffic, by direction and by protocol, and the watermarks of its
-- meter are what they were.
pub rolled_over_resets :
    (r : Round) (u v : User) (m : QuotaMeter)
    → u.meter ≡ some m
    → rolled_over r u ≡ ok v
    → (n : QuotaMeter) × (v.meter ≡ some n)
      × (quota_used v ≡ 0)
      × (n.pending_reset ≡ false)
      × (n.upload ≡ m.upload)
      × (n.download ≡ m.download)
      × (v.upload ≡ u.upload)
      × (v.download ≡ u.download)
      × (v.vless_traffic ≡ u.vless_traffic)
      × (v.hy2_traffic ≡ u.hy2_traffic)
unfolding rolled_over new_period quota_used
rolled_over_resets r u v m has h =
    let p = >>=-eq-ok (or_fail u.meter nil_pointer) _ h in
    let same : p.0 ≡ m = ground (arith, p.1, has) in
    let q = >>=-eq-ok (period_start r.calendar r.now p.0.ends u.entitlement) _ p.2 in
    let e = >>=-eq-ok (period_end r.calendar q.0 u.entitlement) _ q.2 in
    (
      new_period r.period q.0 e.0 u p.0,
      ground (arith, e.2),
      ground (arith, e.2),
      refl,
      ground (arith, same),
      ground (arith, same),
      ground (arith, e.2),
      ground (arith, e.2),
      ground (arith, e.2),
      ground (arith, e.2),
    )

abbrev thirty_days : ℕ
thirty_days = 2592000

whole_periods :
    (ends now : ℕ)
    → ends ≤ now
    → (ends + (now - ends) / 2592000 * 2592000 ≤ now)
      × (now < ends + (now - ends) / 2592000 * 2592000 + 2592000)
whole_periods ends now h = (omega arith, omega arith)

-- However late the round is run after a period of a plan of 30 days has ended, the new period has
-- begun by now and ends later, lasts thirty days, and starts a whole number of periods after the
-- end of the old one.
pub period_covers_now :
    (cal : Calendar) (now ends start stop : ℕ) (e : Entitlement)
    → 0 < ends
    → ends ≤ now
    → e.cycle ≡ "30d"
    → period_start cal now ends (some e) ≡ ok start
    → period_end cal start (some e) ≡ ok stop
    → (start ≤ now)
      × (now < stop)
      × (stop ≡ start + thirty_days)
      × ((k : ℕ) × (start ≡ ends + k * thirty_days))
unfolding period_start next_period
period_covers_now cal now ends start stop e positive late cycle h k =
    let t = whole_periods ends now late in
    let fixed : (e.cycle == "30d") ≡ true = (string_eq.beq_iff e.cycle "30d").1 cycle in
    let finish : next_period cal start "30d" e.timezone ≡ ok stop =
      subst (λ x. next_period cal start x e.timezone ≡ ok stop) cycle k in
    let begun : start ≡ ends + (now - ends) / 2592000 * 2592000 =
      ground (arith, fixed, positive, late, h) in
    (
      ground (arith, t, begun),
      ground (arith, t, begun, finish),
      ground (arith, finish),
      ((now - ends) / 2592000, begun),
    )
