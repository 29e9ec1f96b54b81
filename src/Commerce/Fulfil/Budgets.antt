-- ===== src/Commerce/Fulfil/Budgets.antt =====
-- `purchaseSiteBudgets` of controlplane/commerce_fulfilment.go: the shares of a new plan's quota at
-- the sites that carry their own grants. Whether the owner of a site is enabled, and
-- whether a site or the controller has a node that the account may use, are parameters.
use guangyue_panel.Prelude.{
  ℕ, ◌+◌, ◌-◌, ◌/◌, ◌≤◌, String, Bool, not, ◌&&◌, ◌||◌, List, Map, [], ◌∷◌, ◌==◌, nat_eq,
  if◌then◌else◌, any, min, max, sum_of, arith,
}
use guangyue_panel.Domain.Account.{User}
use guangyue_panel.Sites.{BusinessSite}

unfoldable pub is_eligible : ℕ → (BusinessSite → Bool) → (BusinessSite → Bool) → BusinessSite → Bool
is_eligible user owners nodes s =
    s.enabled
    && not s.removed
    && owners s
    && (s.mounted || any (λ g. g.user_id == user) s.grants)
    && nodes s

-- How many places share the quota: the eligible sites, and the controller itself.
abbrev pub count_shares :
    ℕ → Bool → (BusinessSite → Bool) → (BusinessSite → Bool) → List BusinessSite → ℕ
count_shares user local owners nodes sites =
    (if local then 1 else 0) + sum_of (λ s. if is_eligible user owners nodes s then 1 else 0) sites

share_of : ℕ → ℕ → ℕ → ℕ
share_of quota shares remaining = min remaining (max 1 (quota / max 1 shares))

-- The loop that gives out the shares.
unfoldable pub site_budgets :
    ℕ → ℕ → ℕ → (BusinessSite → Bool) → (BusinessSite → Bool) → List BusinessSite → ℕ → Map String ℕ
unfolding share_of
site_budgets user quota shares owners nodes [] remaining = []
site_budgets user quota shares owners nodes (s ∷ ss) remaining =
    let budget = share_of quota shares remaining in
    let skipped = site_budgets user quota shares owners nodes ss remaining in
    let rest = site_budgets user quota shares owners nodes ss (remaining - budget) in
    if not (is_eligible user owners nodes s) || s.mounted
    then skipped
    else if quota == 0
    then (s.id, 0) ∷ skipped
    else if remaining == 0
    then skipped
    else (s.id, budget) ∷ rest

unfoldable pub purchase_site_budgets :
    User → Bool → (BusinessSite → Bool) → (BusinessSite → Bool) → List BusinessSite → Map String ℕ
purchase_site_budgets u local owners nodes sites =
    site_budgets u.id u.quota (count_shares u.id local owners nodes sites) owners nodes sites
      u.quota

budgets_within :
    (user quota shares : ℕ) (owners nodes : BusinessSite → Bool) (sites : List BusinessSite)
    (remaining : ℕ)
    → sum_of (λ row. row.1) (site_budgets user quota shares owners nodes sites remaining)
      ≤ remaining
unfolding site_budgets
budgets_within user quota shares owners nodes [] remaining = ground arith
budgets_within user quota shares owners nodes (s ∷ ss) remaining = ground (
  arith,
  budgets_within user quota shares owners nodes ss remaining,
  budgets_within user quota shares owners nodes ss (remaining - share_of quota shares remaining),
)

-- The shares of a plan together are no more than its quota, however many sites carry it and
-- however the least share of one byte rounds up.
pub budgets_within_quota :
    (u : User) (local : Bool) (owners nodes : BusinessSite → Bool) (sites : List BusinessSite)
    → sum_of (λ row. row.1) (purchase_site_budgets u local owners nodes sites) ≤ u.quota
unfolding purchase_site_budgets
budgets_within_quota u local owners nodes sites =
    budgets_within u.id u.quota (count_shares u.id local owners nodes sites) owners nodes sites
      u.quota
