-- ===== src/Commerce/Review/Proofs.antt =====
-- Refund requests move no money; a refund that is approved keeps the books.
use guangyue_panel.Prelude.{
  ℕ, ◌+◌, ◌≡◌, refl, sym, subst, Bool, true, false, not, none, some, ◌==◌, nat_eq, string_eq,
  if◌then◌else◌, lookup, arith, ℤ, ok, >>=-eq-ok, guard-eq-ok, pos, ◌+ℤ◌, inl, inr, ◌⊎◌, not_found,
  conflict, forbidden, not_refundable, entitlement_replaced, orders_pending,
}
use guangyue_panel.Domain.Account.{User}
use guangyue_panel.Wallet.{wallet}
use guangyue_panel.Plans.Position.{Position, active, queued, missing, order_entitlement_position}
use guangyue_panel.Commerce.{
  Order, OrderState, provisioning, completed, refunding, refunded, refund_pending, Shop, same_state,
  approved,
}
use guangyue_panel.Commerce.Confirm.{Request}
use guangyue_panel.Commerce.Settle.{
  settle, charge, settle-Books, settle-ok, settle-balances, Books, held_change,
}
use guangyue_panel.Commerce.Held.{held_by}
use guangyue_panel.Commerce.Refund.{refundable_order_amount}
use guangyue_panel.Commerce.Create.{commerce_pending_except}
use guangyue_panel.Commerce.Cancel.{return_payment, to_refund}
use guangyue_panel.Commerce.Cancel.Proofs.{return_payment-Books, orders-return_payment}
use guangyue_panel.Commerce.Moves.{
  Move, Writes, settle-Writes, same_state-eq, refund_running as edge_running,
  refund_queued as edge_queued, refund_queued_provider as edge_provider,
}
use guangyue_panel.Commerce.Review.{
  Review, find_review, names_open, is_found, decide_open, refund_running, refund_queued, refund_way,
  refund_action, unqueue, queue_movement,
}
use guangyue_panel.Commerce.Review.Quiet.{find_review-ok, requests-Books}

way :
    (v : Review) (o : Order) (u : User) (s s' : Shop) (q : Position)
    → order_entitlement_position u o.id ≡ q
    → refund_way v o u s q ≡ ok s'
    → ((order_entitlement_position u o.id ≡ active) × (refund_running v o u s ≡ ok s'))
      ⊎ ((i : ℕ) × (order_entitlement_position u o.id ≡ queued i)
          × (refund_queued v i o u s ≡ ok s'))
way v o u s s' active at_place h = inl (at_place, h)
way v o u s s' (queued i) at_place h = inr (i, at_place, h)
way v o u s s' missing at_place h = cc

-- What a refund has checked, and the way it has gone.
pub refund_action-ok :
    (v : Review) (s s' : Shop)
    → refund_action v s ≡ ok s'
    → (o : Order) × (u : User) × (lookup v.call.order s.orders ≡ some o)
      × (lookup o.user_id s.users ≡ some u)
      × (same_state o.state completed ≡ true)
      × (commerce_pending_except u.id o.id s.orders ≡ false)
      × (((order_entitlement_position u o.id ≡ active) × (refund_running v o u s ≡ ok s'))
          ⊎ ((i : ℕ) × (order_entitlement_position u o.id ≡ queued i)
              × (refund_queued v i o u s ≡ ok s')))
unfolding refund_action
refund_action-ok v s s' h =
    let a = guard-eq-ok (v.call.actor.role == "owner") forbidden _ h in
    let p = >>=-eq-ok (find_review not_found v s) _ a.1 in
    let o = p.0.0 in
    let u = p.0.1 in
    let f = find_review-ok not_found v s o u p.1 in
    let g = guard-eq-ok (names_open v (lookup o.id s.requests)) conflict _ p.2 in
    let k = guard-eq-ok (same_state o.state completed) not_refundable _ g.1 in
    let l = guard-eq-ok (is_found (order_entitlement_position u o.id)) entitlement_replaced _ k.1 in
    let m = guard-eq-ok (not (commerce_pending_except u.id o.id s.orders)) orders_pending _ l.1 in
    (
      o,
      u,
      f.0,
      f.1,
      k.0,
      ground (arith, m.0),
      way v o u s s' (order_entitlement_position u o.id) refl m.1,
    )

running_shift :
    (o : Order) (amount : ℤ) (started : ℕ) (user : ℕ)
    → same_state o.state completed ≡ true
    → pos (held_by user o) +ℤ pos 0
      ≡ pos (
          held_by user (record o {
            refund_amount = amount;
            started = started;
            next_attempt = 0;
            state = refunding;
          }))
unfolding held_by ◌+ℤ◌
running_shift o amount started user state = ground arith

running-Writes :
    (v : Review) (o : Order) (u : User) (s s' : Shop)
    → same_state o.state completed ≡ true
    → refund_running v o u s ≡ ok s'
    → Writes s s'
unfolding refund_running
running-Writes v o u s s' state h =
    settle-Writes none _ o.state _ s (record s { requests = _ }) s' h refl
      (subst (λ x. Move x refunding) (sym (same_state-eq o.state completed state)) edge_running)

running-Books :
    (v : Review) (o : Order) (u : User) (s s' : Shop)
    → lookup o.id s.orders ≡ some o
    → same_state o.state completed ≡ true
    → refund_running v o u s ≡ ok s'
    → Books s
    → Books s' × (s'.ledger ≡ s.ledger)
unfolding refund_running charge
running-Books v o u s s' there state h b = (
  settle-Books none _ o o.state _ (record s { requests = _ }) s' h there
      (λ user. running_shift o (refundable_order_amount o u v.call.now) v.call.now user state)
      (requests-Books s _ b),
  ground (arith, (settle-ok none _ o.state _ (record s { requests = _ }) s' h).0),
)

queued_shift :
    (r : Request) (amount : ℤ) (o : Order) (u : User) (state : OrderState) (user : ℕ)
    → same_state o.state completed ≡ true
    → same_state state provisioning ≡ false
    → pos (held_by user o) +ℤ held_change user (queue_movement r amount o u)
      ≡ pos (held_by user (record o { refund_amount = amount; state = state }))
unfolding held_by ◌+ℤ◌ queue_movement
queued_shift r amount o u state user done gone = ground arith

pub queued-ok :
    (v : Review) (i : ℕ) (o : Order) (u : User) (s s' : Shop)
    → refund_queued v i o u s ≡ ok s'
    → (w : User) × (state : OrderState) × (same_state state provisioning ≡ false)
      × (settle
            (queue_movement v.call (refundable_order_amount o u v.call.now) o u)
            (record o { refund_amount = refundable_order_amount o u v.call.now; state = state })
            o.state
            w
            (return_payment to_refund o
              (record s { requests = decide_open approved o.id s.requests }))
          ≡ ok s')
unfolding refund_queued
queued-ok v i o u s s' h = let p = >>=-eq-ok (unqueue o i u) _ h in (p.0, _, ground arith, p.2)

queued_edge : (b : Bool) → Move completed (if b then refunded else refund_pending)
queued_edge true = edge_queued
queued_edge false = edge_provider

queued-Writes :
    (v : Review) (i : ℕ) (o : Order) (u : User) (s s' : Shop)
    → same_state o.state completed ≡ true
    → refund_queued v i o u s ≡ ok s'
    → Writes s s'
unfolding refund_queued
queued-Writes v i o u s s' state h =
    let p = >>=-eq-ok (unqueue o i u) _ h in
    let t = record s { requests = decide_open approved o.id s.requests } in
    settle-Writes _ _ o.state p.0 s (return_payment to_refund o t) s' p.2
      (orders-return_payment to_refund o t).0
      (subst (λ x. Move x (if o.attempt_id == "" then refunded else refund_pending))
        (sym (same_state-eq o.state completed state)) (queued_edge (o.attempt_id == "")))

queued-Books :
    (v : Review) (i : ℕ) (o : Order) (u : User) (s s' : Shop)
    → lookup o.id s.orders ≡ some o
    → same_state o.state completed ≡ true
    → refund_queued v i o u s ≡ ok s'
    → Books s
    → Books s'
queued-Books v i o u s s' there state h b =
    let (w, after, gone, done) = queued-ok v i o u s s' h in
    let t = record s { requests = decide_open approved o.id s.requests } in
    let amount = refundable_order_amount o u v.call.now in
    settle-Books (queue_movement v.call amount o u)
      (record o { refund_amount = amount; state = after }) o o.state w
      (return_payment to_refund o t) s' done (rw ((orders-return_payment to_refund o t).0) there)
      (λ user. queued_shift v.call amount o u after user state gone)
      (return_payment-Books to_refund o t (requests-Books s _ b))

-- A refund that an owner has ordered keeps the books.
pub refund-Books : (v : Review) (s s' : Shop) → refund_action v s ≡ ok s' → Books s → Books s'
refund-Books v s s' h b =
    let (o, u, order_there, user_there, state, alone, way) = refund_action-ok v s s' h in
    let there : lookup o.id s.orders ≡ some o =
      rw (b.order_key v.call.order o order_there) order_there in
    elim way [
      | inl (at_place, done) ↦ (running-Books v o u s s' there state done b).0
      | inr (i, at_place, done) ↦ queued-Books v i o u s s' there state done b
    ]

pub refund-Writes : (v : Review) (s s' : Shop) → refund_action v s ≡ ok s' → Writes s s'
refund-Writes v s s' h =
    let (o, u, order_there, user_there, state, alone, way) = refund_action-ok v s s' h in
    elim way [
      | inl (at_place, done) ↦ running-Writes v o u s s' state done
      | inr (i, at_place, done) ↦ queued-Writes v i o u s s' state done
    ]

-- What an owner's refund gives back at once: the whole price of a purchase that waits in the queue
-- and was paid from the balance, and nothing otherwise.
abbrev pub paid_at_once : Order → User → ℕ
paid_at_once o u = elim (order_entitlement_position u o.id) [
  | queued i ↦ if o.attempt_id == "" then o.offer.price else 0
  | _ ↦ 0
]

queued_pays :
    (v : Review) (i : ℕ) (o : Order) (u : User) (s s' : Shop)
    → u.id ≡ o.user_id
    → order_entitlement_position u o.id ≡ queued i
    → refund_queued v i o u s ≡ ok s'
    → ((wallet o.user_id s'.ledger).available
        ≡ (wallet o.user_id s.ledger).available + paid_at_once o u)
      × ((wallet o.user_id s'.ledger).held ≡ (wallet o.user_id s.ledger).held)
unfolding queue_movement refundable_order_amount
queued_pays v i o u s s' own place h =
    let (w, after, gone, done) = queued-ok v i o u s s' h in
    let t = record s { requests = decide_open approved o.id s.requests } in
    let amount = refundable_order_amount o u v.call.now in
    let b =
      settle-balances (queue_movement v.call amount o u)
        (record o { refund_amount = amount; state = after }) o.state w
        (return_payment to_refund o t) s' o.user_id done in
    let same = (orders-return_payment to_refund o t).1 in
    (ground (arith, b.0, own, same, place), ground (arith, b.1, own, same, place))

-- In a shop whose books are right, an owner's refund that goes through gives back at once the
-- whole price of a purchase that waits in the queue and was paid from the balance; a refund of the
-- running plan, or of one paid through a provider, moves no money yet; and nothing that is held
-- changes.
pub refund_pays :
    (v : Review) (s s' : Shop) (o : Order) (u : User)
    → Books s
    → refund_action v s ≡ ok s'
    → lookup v.call.order s.orders ≡ some o
    → lookup o.user_id s.users ≡ some u
    → ((wallet o.user_id s'.ledger).available
        ≡ (wallet o.user_id s.ledger).available + paid_at_once o u)
      × ((wallet o.user_id s'.ledger).held ≡ (wallet o.user_id s.ledger).held)
refund_pays v s s' o u b h order_found user_found =
    let (o', u', order_there, user_there, state, alone, way) = refund_action-ok v s s' h in
    let same_order : o' ≡ o = ground (arith, order_there, order_found) in
    let same_user : u' ≡ u = ground (arith, user_there, user_found, same_order) in
    let pays : (x : Order) (y : User) → Type 0 = λ x y.
      ((wallet x.user_id s'.ledger).available
        ≡ (wallet x.user_id s.ledger).available + paid_at_once x y)
      × ((wallet x.user_id s'.ledger).held ≡ (wallet x.user_id s.ledger).held) in
    subst (pays o) same_user (
      subst (λ x. pays x u') same_order
        (elim way [
          | inl (at_place, done) ↦
              let l =
                (running-Books v o' u' s s'
                  (rw (b.order_key v.call.order o' order_there) order_there) state done b).1 in
              (ground (arith, l, at_place), ground (arith, l, at_place))
          | inr (i, at_place, done) ↦
              queued_pays v i o' u' s s' (b.user_key o'.user_id u' user_there) at_place done
        ]))
