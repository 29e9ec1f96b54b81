-- ===== src/Commerce/Review/Quiet.antt =====
-- Asking for a refund, withdrawing the request and rejecting it: the actions that move no money.
use guangyue_panel.Prelude.{
  ◌≡◌, String, insert, lookup-insert, not, ◌&&◌, ◌||◌, none, some, Map, leb, ◌==◌, nat_eq,
  string_eq, lookup, arith, ok, or_fail, >>=-eq-ok, guard-eq-ok, inl, inr, ◌⊎◌, Error, not_found,
  conflict, forbidden, invalid_reason, not_refundable, entitlement_replaced, int_laws,
}
use guangyue_panel.Domain.Account.{User}
use guangyue_panel.Plans.Position.{order_entitlement_position}
use guangyue_panel.Commerce.{Order, completed, Shop, same_state, RefundRequest}
use guangyue_panel.Commerce.Settle.{settle, charge, settle-Books, settle-ok, Books}
use guangyue_panel.Commerce.Review.{
  Review, find_review, names_open, names_current, is_requested, is_found, request_refund,
  cancel_refund, reject_refund,
}

pub find_review-ok :
    (denied : Error) (v : Review) (s : Shop) (o : Order) (u : User)
    → find_review denied v s ≡ ok (o, u)
    → (lookup v.call.order s.orders ≡ some o) × (lookup o.user_id s.users ≡ some u)
unfolding find_review
find_review-ok denied v s o u h =
    let p = >>=-eq-ok (or_fail (lookup v.call.order s.orders) not_found) _ h in
    let q =
      guard-eq-ok (v.call.actor.role == "owner" || v.call.actor.id == p.0.user_id) denied _ p.2 in
    let t = >>=-eq-ok (or_fail (lookup p.0.user_id s.users) not_found) _ q.1 in
    let w = guard-eq-ok (names_current v (lookup p.0.id s.requests)) conflict _ t.2 in
    (ground (arith, p.1, w.1), ground (arith, p.1, t.1, w.1))

-- A write of the table of requests does not touch the books.
pub requests-Books :
    (s : Shop) (requests : Map String RefundRequest)
    → Books s
    → Books (record s { requests = requests })
requests-Books s requests b = record {
  sound = b.sound;
  matches = record { at = b.matches.at };
  order_key = b.order_key;
  user_key = b.user_key;
}

-- The same order, if any, stands under each key.
abbrev pub SameOrders : Shop → Shop → Type 0
SameOrders s s' = (id : String) → lookup id s'.orders ≡ lookup id s.orders

insert-SameOrders :
    (o : Order) (s s' : Shop)
    → s'.orders ≡ insert o.id o s.orders
    → lookup o.id s.orders ≡ some o
    → SameOrders s s'
insert-SameOrders o s s' put there = λ id.
    rw put
      (rw (lookup-insert o.id id o s.orders) (ground (arith, there, string_eq.beq_iff o.id id)))

-- A handler that writes an order as it was, and requests, keeps the books and every balance.
quiet_step :
    (o : Order) (u : User) (requests : Map String RefundRequest) (s s' : Shop)
    → settle none o o.state u (record s { requests = requests }) ≡ ok s'
    → lookup o.id s.orders ≡ some o
    → Books s
    → Books s' × (s'.ledger ≡ s.ledger) × SameOrders s s'
unfolding charge
quiet_step o u requests s s' h there b =
    let t = record s { requests = requests } in
    (
      settle-Books none o o o.state u t s' h there (λ user. omega int_laws)
          (requests-Books s requests b),
      ground (arith, (settle-ok none o o.state u t s' h).0),
      insert-SameOrders o s s' (ground (arith, (settle-ok none o o.state u t s' h).1)) there,
    )

request_quiet :
    (v : Review) (s s' : Shop)
    → request_refund v s ≡ ok s'
    → Books s
    → Books s' × (s'.ledger ≡ s.ledger) × SameOrders s s'
unfolding request_refund
request_quiet v s s' h b =
    let p = >>=-eq-ok (find_review forbidden v s) _ h in
    let o = p.0.0 in
    let f = find_review-ok forbidden v s o p.0.1 p.1 in
    let g = guard-eq-ok (v.call.actor.id == o.user_id) forbidden _ p.2 in
    let k = guard-eq-ok (leb v.reason_length 500) invalid_reason _ g.1 in
    let l = guard-eq-ok (same_state o.state completed) not_refundable _ k.1 in
    let m =
      guard-eq-ok (is_found (order_entitlement_position p.0.1 o.id)) entitlement_replaced _ l.1 in
    let n = guard-eq-ok (not (is_requested (lookup o.id s.requests))) conflict _ m.1 in
    quiet_step o p.0.1 _ s s' n.1 (rw (b.order_key v.call.order o f.0) f.0) b

cancel_quiet :
    (v : Review) (s s' : Shop)
    → cancel_refund v s ≡ ok s'
    → Books s
    → Books s' × (s'.ledger ≡ s.ledger) × SameOrders s s'
unfolding cancel_refund
cancel_quiet v s s' h b =
    let p = >>=-eq-ok (find_review forbidden v s) _ h in
    let o = p.0.0 in
    let f = find_review-ok forbidden v s o p.0.1 p.1 in
    let g = guard-eq-ok (names_open v (lookup o.id s.requests)) conflict _ p.2 in
    let k = guard-eq-ok (v.call.actor.id == o.user_id) forbidden _ g.1 in
    let l = guard-eq-ok (leb v.reason_length 500) invalid_reason _ k.1 in
    let m =
      guard-eq-ok (same_state o.state completed && is_requested (lookup o.id s.requests))
        not_refundable _ l.1 in
    quiet_step o p.0.1 _ s s' m.1 (rw (b.order_key v.call.order o f.0) f.0) b

reject_quiet :
    (v : Review) (s s' : Shop)
    → reject_refund v s ≡ ok s'
    → Books s
    → Books s' × (s'.ledger ≡ s.ledger) × SameOrders s s'
unfolding reject_refund
reject_quiet v s s' h b =
    let a = guard-eq-ok (v.call.actor.role == "owner") forbidden _ h in
    let p = >>=-eq-ok (find_review forbidden v s) _ a.1 in
    let o = p.0.0 in
    let f = find_review-ok forbidden v s o p.0.1 p.1 in
    let g = guard-eq-ok (names_open v (lookup o.id s.requests)) conflict _ p.2 in
    let k =
      guard-eq-ok (same_state o.state completed && is_requested (lookup o.id s.requests))
        not_refundable _ g.1 in
    let l = guard-eq-ok (leb v.reason_length 500) invalid_reason _ k.1 in
    quiet_step o p.0.1 _ s s' l.1 (rw (b.order_key v.call.order o f.0) f.0) b

pub review_moves_nothing :
    (v : Review) (s s' : Shop)
    → Books s
    → (request_refund v s ≡ ok s') ⊎ ((cancel_refund v s ≡ ok s') ⊎ (reject_refund v s ≡ ok s'))
    → Books s' × (s'.ledger ≡ s.ledger) × SameOrders s s'
review_moves_nothing v s s' b (inl h) = request_quiet v s s' h b
review_moves_nothing v s s' b (inr (inl h)) = cancel_quiet v s s' h b
review_moves_nothing v s s' b (inr (inr h)) = reject_quiet v s s' h b
