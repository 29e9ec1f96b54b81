-- ===== src/Cycles.antt =====
-- `advanceQuotaPeriods` of controlplane/entitlement_cycles.go: an account whose plan or whose quota
-- period has run out is stopped, then, when no site owes an account of it, restored to the plan it
-- had paused or given a new period. One account is one step. The collection of traffic between the
-- check and the write is an argument; a nil pointer is the error `nil_pointer`.
pub mod Proofs
use guangyue_panel.Prelude.{
  ℕ, ◌+◌, ◌-◌, ◌*◌, ◌/◌, String, Bool, true, false, not, ◌&&◌, ◌||◌, Option, none, some, List, Map,
  [], ◌∷◌, ltb, leb, ◌==◌, nat_eq, string_eq, if◌then◌else◌, lookup, insert, any, pos, is_some,
  Result, ok, err, guard, or_fail, ◌>>=◌, ◌>>◌, nil_pointer, not_found, unknown_zone,
}
use guangyue_panel.Domain.Account.{User, QuotaMeter, Entitlement, init_meter}
use guangyue_panel.Domain.Counters.{add_counter}
use guangyue_panel.Domain.Periods.{Zone, Calendar, day, next_period}
use guangyue_panel.Plans.{on_meter, restore_previous_plan}
use guangyue_panel.Sites.{BusinessGrant, BusinessSite, total, usage_of, unlimited_for}

-- What the round asks of the installation; `barrier` says that an order of the user is being
-- provisioned or refunded.
pub record Round : Type 0 where
  pub now : ℕ
  pub period : String
  pub revision : String
  pub calendar : Calendar
  pub barrier : ℕ → Bool
  pub collect : Map ℕ User → Result (Map ℕ User)

pub record Panel : Type 0 where
  pub users : Map ℕ User
  pub sites : List BusinessSite
  pub quota_periods : List (ℕ × String × User)

unfoldable pub owes : ℕ → BusinessSite → Bool
owes user s =
    is_some (lookup user s.issued)
    || unlimited_for s user
    || any (λ g. g.user_id == user) s.sent_grants

abbrev pub is_pending : Option QuotaMeter → Bool
is_pending none = false
is_pending (some m) = m.pending_reset

abbrev pub has_queue : User → Bool
has_queue u = elim u.plan_queue [ [] ↦ false | x ∷ xs ↦ true ]

-- The plan is over and another one waits.
abbrev pub plan_over : ℕ → User → Bool
plan_over now u = has_queue u && ltb 0 u.expires && leb u.expires now

abbrev pub period_over : ℕ → QuotaMeter → Bool
period_over now m = ltb 0 m.ends && leb m.ends now

abbrev pub set_pending : User → User
set_pending u = record u { meter = on_meter (λ m. record m { pending_reset = true }) u.meter }

-- Where the new period starts: after whole 30-day periods, or at the first of the present month,
-- rather than at the time at which the round is run.
unfoldable pub period_start : Calendar → ℕ → ℕ → Option Entitlement → Result ℕ
period_start cal now ends none = ok now
period_start cal now ends (some e) =
    if ltb 0 ends && leb ends now
    then (if e.cycle == "30d"
        then ok (ends + (now - ends) / (30 * day) * (30 * day))
        else if e.cycle == "month"
        then (do loc ← or_fail (cal.load e.timezone) unknown_zone; ok (loc.month_start now))
        else ok ends)
    else ok now

abbrev pub period_end : Calendar → ℕ → Option Entitlement → Result ℕ
period_end cal start none = ok 0
period_end cal start (some e) = next_period cal start e.cycle e.timezone

-- The watermarks stay; the baselines move up to them.
unfoldable pub new_period : String → ℕ → ℕ → User → QuotaMeter → QuotaMeter
new_period period start ends u m = record m {
  period_id = period;
  start = start;
  ends = ends;
  pending_reset = false;
  upload_remainder = 0;
  download_remainder = 0;
  base_upload = m.upload;
  base_download = m.download;
  raw_base_upload = u.upload;
  raw_base_download = u.download;
}

unfoldable pub rolled_over : Round → User → Result User
rolled_over r u = do
  m ← or_fail u.meter nil_pointer
  start ← period_start r.calendar r.now m.ends u.entitlement
  ends ← period_end r.calendar start u.entitlement
  ok (record u { meter = some (new_period r.period start ends u m) })

abbrev pub budget_of : BusinessGrant → ℕ
budget_of g = if g.budget == 0 && ltb 0 g.quota then g.quota else g.budget

-- A bounded grant gets its budget again, counted from the present usage of the site.
unfoldable pub renew_grants :
    String → BusinessSite → ℕ → List BusinessGrant → Result (List BusinessGrant)
renew_grants period s user [] = ok []
renew_grants period s user (g ∷ gs) =
    let rest = renew_grants period s user gs in
    if not (g.user_id == user) then (do kept ← rest; ok (g ∷ kept)) else (do
      quota ←
          if ltb 0 g.quota
          then add_counter (pos (total (usage_of s user))) (pos (budget_of g))
          else ok 0
      kept ← rest
      ok (record g { budget = budget_of g; quota = quota; period_id = period } ∷ kept))

renew_site : String → String → ℕ → BusinessSite → Result BusinessSite
unfolding renew_grants
renew_site revision period user s =
    if any (λ g. g.user_id == user) s.grants
    then (do
      grants ← renew_grants period s user s.grants
      ok (record s { grants = grants; revision = revision }))
    else ok s

renew_sites : String → String → ℕ → List BusinessSite → Result (List BusinessSite)
unfolding renew_site
renew_sites revision period user [] = ok []
renew_sites revision period user (s ∷ ss) =
    let rest = renew_sites revision period user ss in
    (do t ← renew_site revision period user s; ts ← rest; ok (t ∷ ts))

-- INSERT ... ON CONFLICT DO NOTHING
unfoldable pub archive : ℕ → String → User → List (ℕ × String × User) → List (ℕ × String × User)
archive user period u rows =
    if any (λ row. row.0 == user && row.1 == period) rows then rows else (user, period, u) ∷ rows

abbrev pub period_name : Option QuotaMeter → String
period_name none = ""
period_name (some m) = m.period_id

-- After the barrier: the account comes back from the collected traffic.
restore_step : Round → User → Panel → Panel
unfolding archive
restore_step r u p =
    let (v, restored) = restore_previous_plan r.period r.revision r.now u in
    if restored
    then record p {
      users = insert u.id v p.users;
      quota_periods =
          if period_name u.meter == ""
          then p.quota_periods
          else archive u.id (period_name u.meter) u p.quota_periods;
    }
    else p

roll_step : Round → User → Panel → Result Panel
unfolding renew_sites archive
roll_step r u p = do
  v ← rolled_over r u
  sites ← renew_sites r.revision r.period u.id p.sites
  ok (record p {
    users = insert u.id v p.users;
    sites = sites;
    quota_periods = archive u.id (period_name u.meter) u p.quota_periods;
  })

collected : Round → ℕ → Panel → Result (User × Panel)
collected r user p = do
  users ← r.collect p.users
  u ← or_fail (lookup user users) not_found
  ok (u, record p { users = users })

-- A paused plan: first the account is stopped, in a later round the plan is restored.
unfoldable pub advance_plan : Round → User → Panel → Result Panel
unfolding init_meter restore_step collected
advance_plan r u p =
    let v = init_meter r.period r.now u in
    if not (is_pending v.meter)
    then ok (record p { users = insert u.id (set_pending v) p.users })
    else if any (owes u.id) p.sites
    then ok p
    else (do (w, q) ← collected r u.id p; ok (restore_step r w q))

unfoldable pub advance_period : Round → User → QuotaMeter → Panel → Result Panel
unfolding roll_step collected
advance_period r u m p =
    let stopped = not m.pending_reset && period_over r.now m in
    let q = if stopped then record p { users = insert u.id (set_pending u) p.users } else p in
    if not (m.pending_reset || stopped)
    then ok p
    else if any (owes u.id) p.sites
    then ok q
    else (do (w, x) ← collected r u.id q; roll_step r w x)

unfoldable pub advance_user : Round → User → Panel → Result Panel
advance_user r u p =
    if r.barrier u.id
    then ok p
    else if plan_over r.now u
    then advance_plan r u p
    else elim u.meter [ none ↦ ok p | some m ↦ advance_period r u m p ]

-- The accounts are read once, at the start of the round.
unfoldable pub advance_users : Round → List User → Panel → Result Panel
advance_users r [] p = ok p
advance_users r (u ∷ us) p = do q ← advance_user r u p; advance_users r us q
