-- ===== src/Sites/Grants.antt =====
-- controlplane/business_quota.go: what is reserved at sites, what is left of a quota, what a site may
-- be granted, and the quota that is left to the controller's own core.
use guangyue_panel.Prelude.{
  ℕ, ◌+◌, ◌-◌, String, false, not, ◌&&◌, ◌||◌, Option, none, some, List, [], ◌∷◌, ltb, leb, ◌==◌,
  nat_eq, string_eq, if◌then◌else◌, pos, Result, ok, ◌>>=◌,
}
use guangyue_panel.Domain.Account.{User, quota_used}
use guangyue_panel.Domain.Counters.{add_counter}
use guangyue_panel.Sites.{BusinessGrant, BusinessSite, total, usage_of, issued_to, unlimited_for}

-- The largest quota that the configured grants or the issued ceilings give a user.
granted_limit : ℕ → ℕ → List BusinessGrant → ℕ
granted_limit user limit [] = limit
granted_limit user limit (g ∷ gs) =
    granted_limit user (if g.user_id == user && ltb limit g.quota then g.quota else limit) gs

unfoldable pub site_reservation : BusinessSite → ℕ → ℕ
unfolding granted_limit total
site_reservation v user = granted_limit user (issued_to v user) v.grants - total (usage_of v user)

unfoldable pub site_runtime_reservation : BusinessSite → ℕ → ℕ
site_runtime_reservation v user =
    if unlimited_for v user then 0 else issued_to v user - total (usage_of v user)

-- The loop of `businessRemainingQuota` over the other sites.
unfoldable pub remaining_after : ℕ → String → List BusinessSite → ℕ → ℕ
remaining_after user site [] remaining = remaining
remaining_after user site (s ∷ ss) remaining =
    let skipped = remaining_after user site ss remaining in
    let reduced = remaining_after user site ss (remaining - site_runtime_reservation s user) in
    if s.id == site
    then skipped
    else if unlimited_for s user
    then 0
    else if leb remaining (site_runtime_reservation s user)
    then 0
    else reduced

unfoldable pub business_remaining_quota : List BusinessSite → User → String → ℕ
business_remaining_quota sites u site =
    if u.quota == 0 then 0 else remaining_after u.id site sites (u.quota - quota_used u)

-- `none` is the answer that nothing may be sent.
unfoldable pub effective_business_grant :
    List BusinessSite → User → BusinessSite → BusinessGrant → Result (Option BusinessGrant)
effective_business_grant sites u site grant =
    let used = total (usage_of site u.id) in
    let remaining = business_remaining_quota sites u site.id in
    if not (grant.user_id == u.id)
    then ok none
    else if ltb 0 grant.quota && leb grant.quota used
    then ok none
    else if u.quota == 0
    then ok (some grant)
    else if remaining == 0
    then ok none
    else (do
      max_quota ← add_counter (pos used) (pos remaining)
      let quota = if grant.quota == 0 || ltb max_quota grant.quota then max_quota else grant.quota
      ok (if leb quota used then none else some (record grant { quota = quota })))

-- The reservation loop of `coreRecords`: `none` is an unlimited grant at some site.
unfoldable pub reserved_for : ℕ → List BusinessSite → Option ℕ
reserved_for user [] = some 0
reserved_for user (s ∷ ss) =
    let rest = reserved_for user ss in
    if unlimited_for s user
    then none
    else elim rest [ none ↦ none | some n ↦ some (site_runtime_reservation s user + n) ]

-- What the controller's core may still authorise for one account.
unfoldable pub core_record : List BusinessSite → User → User
core_record sites u = if u.quota == 0 then u else elim (reserved_for u.id sites) [
  | none ↦ record u { enabled = false }
  | some reserved ↦
      if leb u.quota reserved
      then record u { enabled = false }
      else record u { quota = u.quota - reserved }
]
