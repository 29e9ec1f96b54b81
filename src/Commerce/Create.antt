-- ===== src/Commerce/Create.antt =====
-- `createOrder` of controlplane/commerce_orders.go. The unique index of persistence/migrations on the
-- open orders of a user is the check at the insertion; the replay of operations is not modelled.
use guangyue_panel.Prelude.{
  ℕ, ◌+◌, ◌≡◌, refl, String, Bool, true, false, not, ◌&&◌, ◌||◌, Option, none, some, Map, ltb, ◌==◌,
  nat_eq, string_eq, if◌then◌else◌, lookup, lookup-insert, insert, any, arith, Result, ok, err,
  guard, or_fail, ◌>>=◌, ◌>>◌, >>=-eq-ok, guard-eq-ok, is_some, pos, module_off, offer_unavailable,
  limit_reached, order_changed, orders_pending, sites_outdated,
}
use guangyue_panel.Domain.Account.{User, QuotaMeter, Entitlement}
use guangyue_panel.Plans.{assign_plan}
use guangyue_panel.Commerce.{
  Order, OrderState, pending, provisioning, refunding, OrderAction, purchase, renew, Offer, Shop,
  same_state,
}
use guangyue_panel.Commerce.Confirm.{Request, validate_entitlement_sites, count_offer_purchases}
use guangyue_panel.Commerce.Settle.{Books, key-insert}
use guangyue_panel.Commerce.Moves.{Lives, here}
use guangyue_panel.Commerce.Held.{held_by, held_orders-insert_new}

-- Commerce orders that still wait for something: one at most for each user.
abbrev pub is_open : OrderState → Bool
is_open pending = true
is_open provisioning = true
is_open refunding = true
is_open _ = false

unfoldable pub commerce_pending_except : ℕ → String → Map String Order → Bool
commerce_pending_except user exclude orders =
    any (λ row. row.1.user_id == user && is_open row.1.state && not (row.0 == exclude)) orders

unfoldable pub commerce_pending : ℕ → Map String Order → Bool
commerce_pending user orders = any (λ row. row.1.user_id == user && is_open row.1.state) orders

-- The plan that is offered is the one that the account runs.
abbrev pub runs_plan : ℕ → Offer → User → Entitlement → Bool
runs_plan now offer u e =
    (u.expires == 0 || ltb now u.expires)
    && e.plan_id == offer.plan.id
    && e.version == offer.plan.version

unfoldable pub order_kind : ℕ → Offer → User → Result OrderAction
order_kind now offer u = elim u.entitlement [
  | none ↦ ok purchase
  | some e ↦
      if runs_plan now offer u e
      then (if u.expires == 0 || offer.plan.valid_days == 0 then err order_changed else ok renew)
      else ok purchase
]

abbrev pub settling : Option QuotaMeter → Bool
settling none = false
settling (some m) = m.pending_reset

new_order : Request → Offer → OrderAction → User → Order
new_order r offer action u = record {
  id = r.order;
  user_id = u.id;
  state = pending;
  created = r.now;
  expires = r.now + 900;
  offer = offer;
  action = action;
  before_expiry = u.expires;
  applied_revision = "";
  expected = r.version_of u;
  previous_end = 0;
  started = 0;
  next_attempt = 0;
  attempts = 0;
  refund_amount = pos 0;
  attempt_id = "";
  provider_id = "";
}

unfoldable pub insert_order : Order → Shop → Result Shop
unfolding commerce_pending
insert_order o s = do
  guard (not (is_some (lookup o.id s.orders)) && not (commerce_pending o.user_id s.orders))
      orders_pending
  ok (record s { orders = insert o.id o s.orders })

-- The version is of the offer that the client has seen; `r.order` is the fresh identifier.
unfoldable pub create_order : Request → String → ℕ → Shop → Result Shop
unfolding new_order
create_order r offer_id version s = do
  guard r.payment_module module_off
  offer ← or_fail (lookup offer_id s.offers) offer_unavailable
  guard (offer.enabled && offer.version == version) offer_unavailable
  plan ← or_fail (lookup offer.plan.id s.plans) offer_unavailable
  guard (not plan.archived) offer_unavailable
  guard
      (offer.purchase_limit == 0
        || ltb (count_offer_purchases r.actor.id offer.id "" s.orders) offer.purchase_limit)
      limit_reached
  guard (not (settling r.actor.meter)) order_changed
  guard (not (commerce_pending r.actor.id s.orders)) orders_pending
  action ← order_kind r.now offer r.actor
  guard
      (validate_entitlement_sites r.controller s.sites
        (assign_plan r.calendar r.period "" offer.plan r.now "" r.actor) true)
      sites_outdated
  insert_order (new_order r offer action r.actor) s

insert-Books :
    (o : Order) (s s' : Shop)
    → insert_order o s ≡ ok s'
    → same_state o.state pending ≡ true
    → Books s
    → Books s'
unfolding insert_order held_by
insert-Books o s s' h state b =
    let g =
      guard-eq-ok
        (not (is_some (lookup o.id s.orders)) && not (commerce_pending o.user_id s.orders))
        orders_pending _ h in
    let fresh : lookup o.id s.orders ≡ none = ground (arith, g.0) in
    let same : s' ≡ record s { orders = insert o.id o s.orders } = ground (arith, g.1) in
    rw same (record {
      sound = b.sound;
      matches = record {
        at = λ user.
            ground
              (arith, b.matches.at user, held_orders-insert_new user o.id o s.orders fresh, state);
      };
      order_key = key-insert (λ (x : Order). x.id) o s.orders b.order_key;
      user_key = b.user_key;
    })

create_order-ok :
    (r : Request) (offer_id : String) (version : ℕ) (s s' : Shop)
    → create_order r offer_id version s ≡ ok s'
    → (o : Order) × (insert_order o s ≡ ok s')
      × (o.id ≡ r.order)
      × (o.user_id ≡ r.actor.id)
      × (same_state o.state pending ≡ true)
      × (o.offer.enabled ≡ true)
      × (lookup offer_id s.offers ≡ some o.offer)
unfolding create_order
create_order-ok r offer_id version s s' h =
    let a = guard-eq-ok r.payment_module module_off _ h in
    let b = >>=-eq-ok (or_fail (lookup offer_id s.offers) offer_unavailable) _ a.1 in
    let c = guard-eq-ok (b.0.enabled && b.0.version == version) offer_unavailable _ b.2 in
    let d = >>=-eq-ok (or_fail (lookup b.0.plan.id s.plans) offer_unavailable) _ c.1 in
    let e = guard-eq-ok (not d.0.archived) offer_unavailable _ d.2 in
    let f =
      guard-eq-ok
        (b.0.purchase_limit == 0
          || ltb (count_offer_purchases r.actor.id b.0.id "" s.orders) b.0.purchase_limit)
        limit_reached _ e.1 in
    let g = guard-eq-ok (not (settling r.actor.meter)) order_changed _ f.1 in
    let k = guard-eq-ok (not (commerce_pending r.actor.id s.orders)) orders_pending _ g.1 in
    let l = >>=-eq-ok (order_kind r.now b.0 r.actor) _ k.1 in
    let m =
      guard-eq-ok
        (validate_entitlement_sites r.controller s.sites
          (assign_plan r.calendar r.period "" b.0.plan r.now "" r.actor) true)
        sites_outdated _ l.2 in
    (new_order r b.0 l.0 r.actor, m.1, refl, refl, refl, ground (arith, c.0), ground (arith, b.1))

-- A new order keeps the books.
pub create-Books :
    (r : Request) (offer_id : String) (version : ℕ) (s s' : Shop)
    → create_order r offer_id version s ≡ ok s'
    → Books s
    → Books s'
create-Books r offer_id version s s' h b =
    let (o, done, name, user, state, enabled, offer) = create_order-ok r offer_id version s s' h in
    insert-Books o s s' done state b

insert-Lives : (o : Order) (s s' : Shop) → insert_order o s ≡ ok s' → Lives s s'
unfolding insert_order
insert-Lives o s s' h id row there =
    let g =
      guard-eq-ok
        (not (is_some (lookup o.id s.orders)) && not (commerce_pending o.user_id s.orders))
        orders_pending _ h in
    let same : s'.orders ≡ insert o.id o s.orders = ground (arith, g.1) in
    let other : (o.id == id) ≡ false = ground (arith, g.0, there, string_eq.beq_iff o.id id) in
    (row, rw same (ground (arith, lookup-insert o.id id o s.orders, there, other)), here)

-- A new order leaves the others as they are.
pub create-Lives :
    (r : Request) (offer_id : String) (version : ℕ) (s s' : Shop)
    → create_order r offer_id version s ≡ ok s'
    → Lives s s'
create-Lives r offer_id version s s' h =
    let (o, inserted, name, user, state, enabled, offer) =
      create_order-ok r offer_id version s s' h in
    insert-Lives o s s' inserted
