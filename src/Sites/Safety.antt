-- ===== src/Sites/Safety.antt =====
-- Quota is never promised twice: not to two sites, and not to a site and the controller's own core.
use guangyue_panel.Prelude.{
  ℕ, ◌+◌, ◌-◌, ◌≤◌, ◌<◌, ◌≡◌, refl, String, Bool, true, false, Option, none, some, List, [], ◌∷◌,
  leb, ◌==◌, nat_eq, string_eq, any, if◌then◌else◌, arith, ok, Bool-cases, Option-cases, inl, inr,
}
use guangyue_panel.Domain.Account.{User, quota_used, active}
use guangyue_panel.Domain.Counters.Weighted.{add_counter_lem}
use guangyue_panel.Sites.{BusinessGrant, BusinessSite, total, usage_of, unlimited_for}
use guangyue_panel.Sites.Grants.{
  site_runtime_reservation, remaining_after, business_remaining_quota, effective_business_grant,
  reserved_for, core_record,
}

-- What all sites but one hold of a user's quota.
pub held_elsewhere : ℕ → String → List BusinessSite → ℕ
held_elsewhere user site [] = 0
held_elsewhere user site (s ∷ ss) =
    let rest = held_elsewhere user site ss in
    if s.id == site then rest else site_runtime_reservation s user + rest

pub unlimited_elsewhere : ℕ → String → List BusinessSite → Bool
unlimited_elsewhere user site [] = false
unlimited_elsewhere user site (s ∷ ss) =
    let rest = unlimited_elsewhere user site ss in
    if s.id == site then rest else if unlimited_for s user then true else rest

-- The loop with its early returns is the plain difference.
pub remaining_after_lem :
    (user : ℕ) (site : String) (sites : List BusinessSite) (n : ℕ)
    → remaining_after user site sites n
      ≡ (if unlimited_elsewhere user site sites then 0 else n - held_elsewhere user site sites)
unfolding remaining_after held_elsewhere unlimited_elsewhere
remaining_after_lem user site [] n = ground arith
remaining_after_lem user site (s ∷ ss) n = ground (
  arith,
  remaining_after_lem user site ss n,
  remaining_after_lem user site ss (n - site_runtime_reservation s user),
)

-- A grant of a limited plan never promises more than what the plan has left: what the site may
-- still use, what all other sites hold and what has been used stay together within the quota. It
-- is for the user, leaves the site something to use, and is refused while some other site holds
-- the user without limit.
pub grant_no_overcommit :
    (sites : List BusinessSite) (u : User) (site : BusinessSite) (grant g : BusinessGrant)
    → 0 < u.quota
    → effective_business_grant sites u site grant ≡ ok (some g)
    → (g.quota - total (usage_of site u.id) + held_elsewhere u.id site.id sites + quota_used u
        ≤ u.quota)
      × (total (usage_of site u.id) < g.quota)
      × (unlimited_elsewhere u.id site.id sites ≡ false)
      × (g.user_id ≡ u.id)
unfolding effective_business_grant business_remaining_quota
grant_no_overcommit sites u site grant g limited h = ground (
  arith,
  remaining_after_lem u.id site.id sites (u.quota - quota_used u),
  add_counter_lem (total (usage_of site u.id)) (business_remaining_quota sites u site.id),
)

core_record-limited :
    (sites : List BusinessSite) (u : User) (r : Option ℕ)
    → 0 < u.quota
    → reserved_for u.id sites ≡ r
    → core_record sites u ≡ elim r [
      | none ↦ record u { enabled = false }
      | some n ↦
          if leb u.quota n then record u { enabled = false } else record u { quota = u.quota - n }
    ]
unfolding core_record
core_record-limited sites u r limited e =
    let positive : (u.quota == 0) ≡ false = ground arith in rw positive (rw e)

active-disabled : (now : ℕ) (u : User) → active now (record u { enabled = false }) ≡ false
unfolding active
active-disabled now u = refl

active-quota :
    (now q : ℕ) (u : User) → 0 < q → active now (record u { quota = q }) ≡ true → quota_used u < q
unfolding active quota_used
active-quota now q u p h = ground arith

served_within :
    (now n : ℕ) (u : User)
    → active now
        (if leb u.quota n then record u { enabled = false } else record u { quota = u.quota - n })
      ≡ true
    → quota_used u + n < u.quota
served_within now n u h = elim (Bool-cases (leb u.quota n)) [
  | inl all ↦ let off = rw all at h in absurd (ground (arith, off, active-disabled now u))
  | inr some_left ↦
      let on : active now (record u { quota = u.quota - n }) ≡ true = rw some_left at h in
      let below : quota_used u < u.quota - n = active-quota now (u.quota - n) u (ground arith) on in
      omega (arith, below)
]

-- What all sites hold of a user's quota.
abbrev pub held_by_sites : ℕ → List BusinessSite → ℕ
held_by_sites user [] = 0
held_by_sites user (s ∷ ss) = site_runtime_reservation s user + held_by_sites user ss

reserved_for_lem :
    (user : ℕ) (sites : List BusinessSite) (n : ℕ)
    → reserved_for user sites ≡ some n
    → (any (λ s. unlimited_for s user) sites ≡ false) × (n ≡ held_by_sites user sites)
unfolding reserved_for
reserved_for_lem user [] n h = ground (arith, h)
reserved_for_lem user (s ∷ ss) n h = elim (Option-cases (reserved_for user ss)) [
  | inl endless ↦ absurd (ground (arith, h, endless))
  | inr (m, found) ↦ let rest = reserved_for_lem user ss m found in ground (arith, h, found, rest)
]

-- The core serves an account with a quota only while what it has used and what all sites hold stay
-- below its quota together, and no site holds it without limit.
pub core_leaves_reservations :
    (sites : List BusinessSite) (u : User) (now : ℕ)
    → 0 < u.quota
    → active now (core_record sites u) ≡ true
    → (any (λ s. unlimited_for s u.id) sites ≡ false)
      × (quota_used u + held_by_sites u.id sites < u.quota)
core_leaves_reservations sites u now limited served =
    elim (Option-cases (reserved_for u.id sites)) [
      | inl endless ↦
          let off = rw (core_record-limited sites u none limited endless) at served in
          absurd (ground (arith, off, active-disabled now u))
      | inr (n, found) ↦
          let all = reserved_for_lem u.id sites n found in
          let room =
            served_within now n u
              (rw (core_record-limited sites u (some n) limited found) at served) in
          (all.0, omega (arith, all.1, room))
    ]
