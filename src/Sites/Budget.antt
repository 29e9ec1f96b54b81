-- ===== src/Sites/Budget.antt =====
-- A site that has used up its monthly budget pauses for its cooldown, and always comes back.
use guangyue_panel.Prelude.{ℕ, ◌+◌, ◌≤◌, ◌<◌, ◌≡◌, true, false, arith, ◌⊎◌, nat_eq}
use guangyue_panel.Sites.{
  BusinessSite, refresh_monthly_budget, monthly_budget_available, max_cooldown,
}

-- A site that a refresh leaves closed has a deadline: it lies ahead, and if it is set by this
-- refresh it lies no further than the longest cooldown.
pub refresh_gives_deadline :
    (now : ℕ) (v : BusinessSite)
    → monthly_budget_available now (refresh_monthly_budget now v) ≡ false
    → let w = refresh_monthly_budget now v in
      (now < w.budget_cooldown_until)
      × ((w.budget_cooldown_until ≡ v.budget_cooldown_until)
          ⊎ (w.budget_cooldown_until ≤ now + max_cooldown))
unfolding refresh_monthly_budget monthly_budget_available
refresh_gives_deadline now v closed = ground arith

-- Once the deadline of a pause has passed, the next refresh opens the site, its window empty and
-- without a deadline.
pub refresh_reopens :
    (now : ℕ) (v : BusinessSite)
    → 0 < v.budget_cooldown_until
    → v.budget_cooldown_until ≤ now
    → let w = refresh_monthly_budget now v in
      (monthly_budget_available now w ≡ true)
      × (w.monthly_usage ≡ 0)
      × (w.budget_cooldown_until ≡ 0)
unfolding refresh_monthly_budget monthly_budget_available
refresh_reopens now v set passed = ground arith

-- Refreshing twice at one instant is refreshing once.
pub refresh_twice :
    (now : ℕ) (v : BusinessSite)
    → refresh_monthly_budget now (refresh_monthly_budget now v) ≡ refresh_monthly_budget now v
unfolding refresh_monthly_budget
refresh_twice now v = ground arith
