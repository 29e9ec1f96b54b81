-- ===== src/Tests/Queues.antt =====
-- Sites, shares of a plan, monthly budgets, and the queue of tasks.
use guangyue_panel.Prelude.{
  ℕ, ◌+◌, ◌-◌, ◌≤◌, ◌<◌, ◌≡◌, refl, String, Bool, true, false, none, some, List, [], ◌∷◌, All,
  sum_of, ok, lookup, nat_eq, string_eq, any, arith, ◌⊎◌,
}
use guangyue_panel.Domain.Account.{quota_used, active}
use guangyue_panel.Sites.{
  unlimited_for, BusinessGrant, BusinessSite, no_usage, total, usage_of, max_cooldown,
  refresh_monthly_budget, monthly_budget_available, utc_month,
}
use guangyue_panel.Sites.Grants.{
  effective_business_grant, reserved_for, core_record, business_remaining_quota, remaining_after,
  site_runtime_reservation,
}
use guangyue_panel.Sites.Safety.{
  held_elsewhere, unlimited_elsewhere, grant_no_overcommit, held_by_sites, core_leaves_reservations,
}
use guangyue_panel.Sites.Budget.{refresh_gives_deadline, refresh_reopens, refresh_twice}
use guangyue_panel.Commerce.Fulfil.Budgets.{purchase_site_budgets, budgets_within_quota}
use guangyue_panel.Jobs.{Task, waiting, is_waiting, submit, claim, claimed, insert_task, earliest}
use guangyue_panel.Jobs.Rows.{IsQueue}
use guangyue_panel.Jobs.Invariant.{done, step, submits, claims, Reaches-IsQueue}
use guangyue_panel.Jobs.Order.{submit_twice, IsFirst, claim-IsFirst}
use guangyue_panel.Tests.Sample.{buyer}
use guangyue_panel.Domain.Counters.{add_counter}

abbrev grant : BusinessGrant
grant = record { period_id = "p0"; budget = 0; user_id = 7; quota = 0 }

abbrev site : BusinessSite
site = record {
  id = "s1";
  enabled = true;
  removed = false;
  mounted = false;
  connected = true;
  protocol = some 2;
  rate_rules = [];
  period_rules = [];
  usage_baseline = [];
  monthly_budget = 1000;
  monthly_usage = 1000;
  monthly_budget_period = 0;
  cooldown_seconds = 0;
  budget_cooldown_until = 0;
  grants = grant ∷ [];
  sent_grants = [];
  revision = "";
  applied = "";
  desired = "";
  usage = (7, record no_usage { upload = 10; download = 20 }) ∷ [];
  issued = [];
  issued_unlimited = [];
}

abbrev other_site : BusinessSite
other_site = record site { id = "s2"; usage = []; issued = (7, 50) ∷ [] }

abbrev sites : List BusinessSite
sites = site ∷ other_site ∷ []

granted : effective_business_grant sites buyer site grant ≡ ok (some (record grant { quota = 180 }))
unfolding effective_business_grant business_remaining_quota remaining_after lookup quota_used
    site_runtime_reservation total add_counter
granted = refl

grant_no_overcommit_example :
    (180 - total (usage_of site 7) + held_elsewhere 7 "s1" sites + quota_used buyer ≤ 300)
    × (total (usage_of site 7) < 180)
    × (unlimited_elsewhere 7 "s1" sites ≡ false)
    × (◌≡◌ {A = ℕ} 7 7)
grant_no_overcommit_example =
    grant_no_overcommit sites buyer site grant (record grant { quota = 180 }) (omega arith) granted

served : active 50 (core_record sites buyer) ≡ true
unfolding active core_record reserved_for lookup site_runtime_reservation total quota_used
served = refl

core_leaves_reservations_example :
    (any (λ s. unlimited_for s 7) sites ≡ false) × (quota_used buyer + held_by_sites 7 sites < 300)
core_leaves_reservations_example = core_leaves_reservations sites buyer 50 (omega arith) served

budgets_within_quota_example :
    sum_of (λ row. row.1) (purchase_site_budgets buyer true (λ s. true) (λ s. true) sites) ≤ 300
budgets_within_quota_example = budgets_within_quota buyer true (λ s. true) (λ s. true) sites

-- In the month of the window, at its limit.
abbrev full_site : BusinessSite
full_site = record site { monthly_budget_period = 23641 }

closed : monthly_budget_available 100 (refresh_monthly_budget 100 full_site) ≡ false
unfolding monthly_budget_available refresh_monthly_budget utc_month
closed = refl

refresh_gives_deadline_example :
    (100 < (refresh_monthly_budget 100 full_site).budget_cooldown_until)
    × (((refresh_monthly_budget 100 full_site).budget_cooldown_until ≡ 0)
        ⊎ ((refresh_monthly_budget 100 full_site).budget_cooldown_until ≤ 100 + max_cooldown))
refresh_gives_deadline_example = refresh_gives_deadline 100 full_site closed

abbrev paused_site : BusinessSite
paused_site = record full_site { budget_cooldown_until = 60 }

refresh_reopens_example :
    (monthly_budget_available 100 (refresh_monthly_budget 100 paused_site) ≡ true)
    × ((refresh_monthly_budget 100 paused_site).monthly_usage ≡ 0)
    × ((refresh_monthly_budget 100 paused_site).budget_cooldown_until ≡ 0)
refresh_reopens_example = refresh_reopens 100 paused_site (omega arith) (omega arith)

refresh_twice_example :
    refresh_monthly_budget 100 (refresh_monthly_budget 100 full_site)
    ≡ refresh_monthly_budget 100 full_site
refresh_twice_example = refresh_twice 100 full_site

abbrev task : Task
task = record {
  id = "t1";
  kind = "geoip";
  target = "x";
  guard_text = "";
  dedup_key = some "geoip:x";
  state = waiting;
  actor_id = 1;
  created = 10;
  started = 0;
  finished = 0;
  next_at = 10;
  attempts = 0;
  result = none;
}

submitted : submit 64 true "t1" "geoip" "x" "" 1 10 [] ≡ ok (task, task ∷ [])
unfolding submit insert_task
submitted = refl

abbrev by_id : String → String → Bool
by_id a b = false

claims_it : claim by_id 11 (task ∷ []) ≡ some (record task { attempts = 1 }, claimed 11 task ∷ [])
unfolding claim earliest
claims_it = refl

empty-IsQueue : IsQueue 64 []
empty-IsQueue = record { within = omega arith; alone = λ k. omega arith; rows = tt }

Reaches-IsQueue_example : IsQueue 64 (claimed 11 task ∷ [])
Reaches-IsQueue_example = Reaches-IsQueue 64 [] (claimed 11 task ∷ []) empty-IsQueue (
    step (submits true "t1" "geoip" "x" "" 1 10 task submitted)
      (step (claims by_id 11 (record task { attempts = 1 }) claims_it) done))

submit_twice_example : submit 64 true "t2" "geoip" "x" "g" 2 20 (task ∷ []) ≡ ok (task, task ∷ [])
submit_twice_example =
    submit_twice 64 true "t1" "t2" "geoip" "x" "" "g" 1 2 10 20 [] task (task ∷ []) submitted

claim-IsFirst_example :
    ((claim by_id 11 (task ∷ []) ≡ none)
      × All (λ u. is_waiting u ≡ true → ¬ (u.next_at ≤ 11)) (task ∷ []))
    ⊎ ((t : Task) × (ts' : List Task) × (claim by_id 11 (task ∷ [])
          ≡ some (record t { attempts = t.attempts + 1 }, ts'))
        × IsFirst 11 (task ∷ []) t)
claim-IsFirst_example = claim-IsFirst by_id 11 (task ∷ [])
