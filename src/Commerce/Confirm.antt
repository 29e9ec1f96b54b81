-- ===== src/Commerce/Confirm.antt =====
-- The action `confirm` of `orderAction` (controlplane/commerce_order_actions.go): a pending order is
-- paid from the balance, or by a payment that has arrived, and goes into provisioning. Also
-- `countOfferPurchases` and `validateEntitlementSites`. The handler reads and writes in one step;
-- the lock on a chain of crypto payments and the replay of operations are not modelled.
pub mod Proofs
use guangyue_panel.Prelude.{
  ℕ, ◌+◌, ◌-◌, ◌*◌, ◌≤◌, ◌<◌, ◌≡◌, refl, sym, String, Bool, true, false, not, ◌&&◌, ◌||◌, Option,
  none, some, List, Map, [], ◌∷◌, ltb, leb, ◌==◌, nat_eq, string_eq, if◌then◌else◌, lookup, any,
  arith, min, Result, ok, err, guard, or_fail, ◌>>=◌, ◌>>◌, >>=-eq-ok, is_some, pos, neg, max,
  sum_of, Option-cases, Bool-cases, inl, inr, not_found, forbidden, module_off, offer_unavailable,
  limit_reached, order_changed, unpaid, bad_payment, sites_outdated,
}
use guangyue_panel.Prelude.Text.{trim_space}
use guangyue_panel.Domain.Account.{User, QuotaMeter, init_meter}
use guangyue_panel.Domain.Periods.{Calendar, day}
use guangyue_panel.Plans.{Plan, on_meter, assign_plan}
use guangyue_panel.Sites.{BusinessSite, unlimited_for}
use guangyue_panel.Wallet.{Movement}
use guangyue_panel.Commerce.{
  Order, OrderState, pending, provisioning, completed, refunding, OrderAction, purchase, renew,
  Offer, Shop, PaymentReceipt, PaymentAttempt, AttemptState, paid, ReceiptState, verified, applied,
  same_state,
}
use guangyue_panel.Commerce.Settle.{order_movement, settle, settle-Books, Books, held_change}
use guangyue_panel.Commerce.Held.{held_by}

-- What a handler is called with, and what it asks of the installation: `version_of` is the digest
-- `userCommerceVersion`, `transaction` the fresh id of a movement.
pub record Request : Type 0 where
  pub order : String
  pub actor : User
  pub attempt_id : String
  pub now : ℕ
  pub transaction : String
  pub period : String
  pub payment_module : Bool
  pub controller : Bool
  pub calendar : Calendar
  pub version_of : User → String

-- An old site with a stake in the user cannot carry plans and quota periods.
unfoldable pub site_outdated : User → Bool → BusinessSite → Bool
site_outdated u reset s =
    not s.connected
    && (any (λ g. g.user_id == u.id) s.grants
        || is_some (lookup u.id s.issued)
        || unlimited_for s u.id)
    && (elim s.protocol [ none ↦ true | some p ↦ ltb p 2 ])
    && (is_some u.entitlement || is_some u.node_group_ids || reset)

unfoldable pub validate_entitlement_sites : Bool → List BusinessSite → User → Bool → Bool
validate_entitlement_sites controller sites u reset =
    not controller || not (any (site_outdated u reset) sites)

abbrev takes_slot : OrderState → Bool
takes_slot pending = true
takes_slot provisioning = true
takes_slot completed = true
takes_slot refunding = true
takes_slot _ = false

unfoldable pub count_offer_purchases : ℕ → String → String → Map String Order → ℕ
count_offer_purchases user offer exclude orders =
    sum_of
      (λ row.
        if row.1.user_id == user
          && not (row.0 == exclude)
          && takes_slot row.1.state
          && row.1.offer.id == offer
        then 1
        else 0)
      orders

abbrev counts_as_paid : ReceiptState → Bool
counts_as_paid verified = true
counts_as_paid applied = true
counts_as_paid _ = false

-- MIN(created) of the receipts of an attempt that stand; 0 where there is none.
first_receipt : String → List PaymentReceipt → ℕ
first_receipt attempt [] = 0
first_receipt attempt (r ∷ rs) =
    let later = first_receipt attempt rs in
    if r.attempt_id == attempt && counts_as_paid r.state
    then (if later == 0 then r.created else min r.created later)
    else later

abbrev paid_in_time : Request → Order → Shop → Bool
paid_in_time r o s =
    let received = first_receipt o.attempt_id s.receipts in
    not (o.attempt_id == "")
    && r.attempt_id == o.attempt_id
    && ltb 0 received
    && ltb received o.expires

abbrev resetting : Option QuotaMeter → Bool
resetting none = false
resetting (some m) = m.pending_reset

abbrev is_paid_for : String → Option PaymentAttempt → Bool
is_paid_for order none = false
is_paid_for order (some a) = a.order_id == order && (elim a.state [ paid ↦ true | _ ↦ false ])

unfoldable pub find_order : Request → Shop → Result (Order × User)
find_order r s = do
  o ← or_fail (lookup r.order s.orders) not_found
  guard (r.actor.role == "owner" || r.actor.id == o.user_id) not_found
  u ← or_fail (lookup o.user_id s.users) not_found
  ok (o, u)

check_offer : Request → Order → User → Shop → Result (Unit {0})
unfolding count_offer_purchases
check_offer r o u s = do
  offer ← or_fail (lookup o.offer.id s.offers) offer_unavailable
  plan ← or_fail (lookup o.offer.plan.id s.plans) offer_unavailable
  guard (offer.enabled && not plan.archived) offer_unavailable
  guard
      (offer.purchase_limit == 0
        || ltb (count_offer_purchases u.id offer.id o.id s.orders) offer.purchase_limit)
      limit_reached

-- The order as it was bought and the account as it was then; a payment that came before the order
-- ran out counts even if it is confirmed later.
check_order : Request → Order → User → Shop → Result (Unit {0})
unfolding first_receipt
check_order r o u s = do
  guard (same_state o.state pending) order_changed
  guard (ltb r.now o.expires || paid_in_time r o s) order_changed
  guard (u.enabled && o.expected == r.version_of u && not (resetting u.meter)) order_changed

check_payment : Request → Order → Shop → Result (Unit {0})
check_payment r o s =
    if o.attempt_id == ""
    then guard (trim_space r.attempt_id == "") bad_payment
    else guard
        (trim_space r.attempt_id == o.attempt_id
          && is_paid_for o.id (lookup o.attempt_id s.attempts))
        unpaid

-- The account that the order is about to make.
future_user : Request → Order → User → User
future_user r o u = elim o.action [
  | renew ↦ record u { expires = u.expires + o.offer.plan.valid_days * day }
  | purchase ↦ assign_plan r.calendar r.period "" o.offer.plan r.now o.id u
]

unfoldable pub confirm_checks : Request → Order → User → Shop → Result (Unit {0})
unfolding check_offer check_order check_payment future_user
confirm_checks r o u s = do
  guard (not (o.attempt_id == "") || r.payment_module) module_off
  guard (r.actor.id == o.user_id) forbidden
  check_offer r o u s
  check_order r o u s
  check_payment r o s
  guard (validate_entitlement_sites r.controller s.sites (future_user r o u) true) sites_outdated

abbrev meter_end : Option QuotaMeter → ℕ
meter_end none = 0
meter_end (some m) = m.ends

-- A purchase stops the account until the old plan is settled.
unfoldable pub confirmed_user : Request → Order → User → User
unfolding init_meter
confirmed_user r o u =
    let v = init_meter r.period r.now u in
    elim o.action [
      | renew ↦ v
      | purchase ↦ record v { meter = on_meter (λ m. record m { pending_reset = true }) v.meter }
    ]

unfoldable pub confirmed_order : Request → Order → User → Order
unfolding init_meter
confirmed_order r o u = record o {
  previous_end = meter_end (init_meter r.period r.now u).meter;
  started = r.now;
  state = provisioning;
}

-- A balance order freezes its price.
unfoldable pub hold_movement : Request → Order → User → Option Movement
hold_movement r o u =
    if o.attempt_id == "" && ltb 0 o.offer.price
    then some (
        order_movement r.transaction u.id r.actor.id "hold" "hold" o.id (neg (pos o.offer.price))
          (pos o.offer.price))
    else none

unfoldable pub confirm_order : Request → Shop → Result Shop
confirm_order r s = do
  (o, u) ← find_order r s
  confirm_checks r o u s
  settle (hold_movement r o u) (confirmed_order r o u) o.state (confirmed_user r o u) s
