-- ===== src/Commerce/Fulfil.antt =====
-- `fulfilOrder` and `purchaseSiteBudgets` of controlplane/commerce_fulfilment.go: an order in
-- provisioning is opened or fails, an order in refunding is paid back. The handler reads and writes
-- in one step. A nil pointer that Go would follow into a panic is the error `nil_pointer`.
pub mod Budgets
pub mod Proofs
pub mod Money
use guangyue_panel.Prelude.{
  ℕ, ◌+◌, ◌-◌, ◌*◌, String, Bool, true, false, not, ◌&&◌, ◌||◌, Option, none, some, List, Map, [],
  ◌∷◌, ltb, leb, ◌==◌, nat_eq, string_eq, if◌then◌else◌, lookup, any, max, Result, ok, err, guard,
  or_fail, ◌>>=◌, ◌>>◌, is_some, pos, neg, ltb_ℤ, conflict, not_found, no_rows, nil_pointer,
  entitlement_replaced,
}
use guangyue_panel.Domain.Account.{User, QuotaMeter, Entitlement}
use guangyue_panel.Domain.Counters.{add_counter}
use guangyue_panel.Domain.Periods.{Calendar, day}
use guangyue_panel.Plans.{on_meter, assign_plan, opened_plan, purchase_plan}
use guangyue_panel.Sites.{BusinessGrant, BusinessSite, total, usage_of, unlimited_for}
use guangyue_panel.Wallet.{Movement}
use guangyue_panel.Commerce.{
  Order, OrderState, provisioning, completed, failed, refunding, refunded, refund_pending,
  OrderAction, purchase, renew, Shop, AttemptState, paid, attempt_completed, same_state,
}
use guangyue_panel.Commerce.Settle.{order_movement, settle}
use guangyue_panel.Commerce.Confirm.{validate_entitlement_sites}
use guangyue_panel.Commerce.Cancel.{
  update_attempt, to_refund, return_payment, resume_meter, release_movement, fail_provisioning,
}
use guangyue_panel.Commerce.Fulfil.Budgets.{purchase_site_budgets}

-- What the worker asks of the installation: fresh identifiers, the collection of the traffic of the
-- running cores into the accounts (`reconcile`, `collect`, `settleHYRevocations`), whether the owner of
-- a site is enabled, and whether a site or the controller itself has a node that an account may use.
pub record Server : Type 0 where
  pub now : ℕ
  pub transaction : String
  pub period : String
  pub revision : String
  pub cycle_id : String
  pub controller : Bool
  pub calendar : Calendar
  pub collect : Map ℕ User → Result (Map ℕ User)
  pub local_nodes : User → Bool
  pub owner_enabled : BusinessSite → Bool
  pub site_nodes : User → BusinessSite → Bool

-- Some site still has to give account of what it was allowed for this user.
unfoldable pub outstanding : ℕ → BusinessSite → Bool
outstanding user s =
    is_some (lookup user s.issued)
    || unlimited_for s user
    || any (λ g. g.user_id == user) s.sent_grants

abbrev pub needs_barrier : Order → Bool
needs_barrier o =
    (elim o.action [ purchase ↦ true | renew ↦ false ]) || same_state o.state refunding

-- The account that the order is about to make.
pub opened_user : Server → Order → User → User
opened_user v o u = elim o.action [
  | purchase ↦ assign_plan v.calendar v.period v.revision o.offer.plan v.now "" u
  | renew ↦ record u { expires = max v.now u.expires + o.offer.plan.valid_days * day }
]

-- The grants of one user at one site after a purchase: none at a mounted site, which derives its
-- own, and none where the site has no share; else a bounded share, counted from the present usage.
unfoldable pub reissue :
    String → Option ℕ → BusinessSite → ℕ → List BusinessGrant → Result (List BusinessGrant)
reissue period budget s user [] = ok []
reissue period budget s user (g ∷ gs) =
    let rest = reissue period budget s user gs in
    if not (g.user_id == user) then (do kept ← rest; ok (g ∷ kept)) else elim budget [
      | none ↦ rest
      | some b ↦ if s.mounted then rest else (do
        quota ← if ltb 0 b then add_counter (pos (total (usage_of s user))) (pos b) else ok 0
        kept ← rest
        ok (record g { budget = b; quota = quota; period_id = period } ∷ kept))
    ]

-- A site without a grant of the user is left as it is.
unfoldable pub reissue_site :
    String → String → Map String ℕ → ℕ → BusinessSite → Result BusinessSite
unfolding reissue
reissue_site revision period budgets user s =
    if any (λ g. g.user_id == user) s.grants
    then (do
      grants ← reissue period (lookup s.id budgets) s user s.grants
      ok (record s { grants = grants; revision = revision }))
    else ok s

unfoldable pub reissue_sites :
    String → String → Map String ℕ → ℕ → List BusinessSite → Result (List BusinessSite)
unfolding reissue_site
reissue_sites revision period budgets user [] = ok []
reissue_sites revision period budgets user (s ∷ ss) =
    let rest = reissue_sites revision period budgets user ss in
    (do t ← reissue_site revision period budgets user s; ts ← rest; ok (t ∷ ts))

-- An account that was disabled in the meantime gets its money back.
unfoldable pub refuse_disabled : Server → Order → User → Shop → Result Shop
refuse_disabled v o u s =
    settle (release_movement v.transaction 0 o u) (record o { state = failed }) o.state
      (resume_meter u) (return_payment to_refund o s)

abbrev pub is_source : String → Entitlement → Bool
is_source order e = e.order_id == order || e.renewal_order_id == order

-- What the account is after a refund: a renewal gives back its days, a purchase ends now.
refunded_user : Server → Order → User → Entitlement → User
refunded_user v o u e = elim o.action [
  | renew ↦ record (resume_meter u) {
    expires = o.before_expiry;
    entitlement = some (record e { renewal_order_id = ""; revision = v.revision });
  }
  | purchase ↦ record (resume_meter u) { expires = v.now }
]

unfoldable pub refund_movement : String → ℕ → Order → User → Option Movement
refund_movement transaction actor o u =
    if o.attempt_id == "" && ltb_ℤ (pos 0) o.refund_amount
    then some (order_movement transaction u.id actor "refund" "refund" o.id o.refund_amount (pos 0))
    else none

abbrev pub refund_state : Order → OrderState
refund_state o = if o.attempt_id == "" then refunded else refund_pending

unfoldable pub refund_order : Server → Order → User → Shop → Result Shop
unfolding refunded_user
refund_order v o u s = do
  e ← or_fail u.entitlement entitlement_replaced
  guard (is_source o.id e) entitlement_replaced
  m ← or_fail u.meter nil_pointer
  settle (refund_movement v.transaction 0 o u) (record o { state = refund_state o }) o.state
      (refunded_user v o u e) (return_payment to_refund o s)

-- What was frozen for the order is spent.
unfoldable pub capture_movement : String → Order → User → Option Movement
capture_movement transaction o u =
    if o.attempt_id == "" && ltb 0 o.offer.price
    then some (
        order_movement transaction u.id 0 "capture" "purchase" o.id (pos 0)
          (neg (pos o.offer.price)))
    else none

abbrev pub on_open : AttemptState → AttemptState
on_open paid = attempt_completed
on_open a = a

unfoldable pub open_payment : Order → Shop → Shop
unfolding update_attempt
open_payment o s =
    if o.attempt_id == ""
    then s
    else record s { attempts = update_attempt on_open o.attempt_id s.attempts }

unfoldable pub renewed_user : Server → Order → User → Result User
renewed_user v o u = do
  e ← or_fail u.entitlement nil_pointer
  ok (record u {
    expires = max v.now u.expires + o.offer.plan.valid_days * day;
    entitlement = some (record e { renewal_order_id = o.id; revision = v.revision });
  })

-- An error of the new period's end is lost as soon as a site with a grant of the user is written:
-- then the period has no end.
unfoldable pub bought_user : Server → Order → User → List BusinessSite → Result User
bought_user v o u sites =
    elim (purchase_plan v.calendar v.period v.revision v.cycle_id o.offer.plan v.now o.id u) [
      | ok w ↦ ok w
      | err e ↦
          if any (λ s. any (λ g. g.user_id == u.id) s.grants) sites
          then ok
              (opened_plan v.calendar v.period v.revision v.cycle_id o.offer.plan v.now 0 o.id u)
          else err e
    ]

unfoldable pub purchased :
    Server → Map String ℕ → Order → User → Shop → Result (User × List BusinessSite)
purchased v budgets o u s = do
  m ← or_fail u.meter nil_pointer
  sites ← reissue_sites v.revision v.cycle_id budgets u.id s.sites
  w ← bought_user v o u s.sites
  ok (w, sites)

abbrev pub opened_account :
    Server → Map String ℕ → Order → User → Shop → Result (User × List BusinessSite)
opened_account v budgets o u s = elim o.action [
  | renew ↦ (do w ← renewed_user v o u; ok (w, s.sites))
  | purchase ↦ purchased v budgets o u s
]

unfoldable pub open_order : Server → Map String ℕ → Order → User → Shop → Result Shop
open_order v budgets o u s = do
  (w, sites) ← opened_account v budgets o u s
  settle (capture_movement v.transaction o u)
      (record o { state = completed; applied_revision = v.revision }) o.state w
      (open_payment o (record s { sites = sites }))

abbrev pub fulfil_branch : Server → Map String ℕ → Order → User → Shop → Result Shop
fulfil_branch v budgets o u s =
    if not u.enabled && same_state o.state provisioning
    then refuse_disabled v o u s
    else if same_state o.state refunding
    then refund_order v o u s
    else open_order v budgets o u s

-- The transaction: the stored row must still be in the state, and with the payment, that was read.
unfoldable pub fulfil_step : Server → Map String ℕ → Order → User → Shop → Result Shop
fulfil_step v budgets o u s = do
  row ← or_fail (lookup o.id s.orders) no_rows
  guard (same_state row.state o.state && row.attempt_id == o.attempt_id) conflict
  fulfil_branch v budgets o u s

budgets_for : Server → Order → User → List BusinessSite → Map String ℕ
budgets_for v o u sites = elim o.action [
  | renew ↦ []
  | purchase ↦
      let future = assign_plan v.calendar v.period v.revision o.offer.plan v.now "" u in
      purchase_site_budgets future (v.local_nodes future) v.owner_enabled (v.site_nodes future)
        sites
]

-- After the barrier, with the account as the collected traffic has left it.
unfoldable pub fulfil_settled : Server → Order → User → Shop → Result Shop
unfolding opened_user budgets_for
fulfil_settled v o u s =
    if same_state o.state provisioning
    then (if validate_entitlement_sites v.controller s.sites (opened_user v o u) true
        then fulfil_step v (budgets_for v o u s.sites) o u s
        else fail_provisioning v.transaction o s)
    else fulfil_step v [] o u s

-- The collection writes the accounts at once, so they stay as collected when the order fails later;
-- a collection that fails is taken to have written nothing.
unfoldable pub collected_shop : Server → Order → Shop → Shop
collected_shop v o s = elim (lookup o.user_id s.users) [
  | none ↦ s
  | some u ↦
      if needs_barrier o && not (any (outstanding u.id) s.sites)
      then (elim (v.collect s.users) [ ok users ↦ record s { users = users } | err e ↦ s ])
      else s
]

-- The tables where it succeeds; where it fails, what is left is `collected_shop`.
unfoldable pub fulfil_order : Server → Order → Shop → Result Shop
fulfil_order v o s = do
  u ← or_fail (lookup o.user_id s.users) not_found
  (if needs_barrier o
      then (if any (outstanding u.id) s.sites then ok s else (do
        users ← v.collect s.users
        w ← or_fail (lookup u.id users) not_found
        fulfil_settled v o w (record s { users = users })))
      else fulfil_settled v o u s)
