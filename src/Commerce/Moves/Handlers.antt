-- ===== src/Commerce/Moves/Handlers.antt =====
-- Every handler writes at most one order, along an edge of the life of an order.
use guangyue_panel.Prelude.{
  ℕ, ◌≡◌, refl, sym, subst, String, true, not, ◌&&◌, ◌||◌, Map, ◌==◌, nat_eq, string_eq, if_true,
  if_false, lookup, arith, ok, or_fail, >>=-eq-ok, guard-eq-ok, conflict, not_found, no_rows,
  nil_pointer, entitlement_replaced, Bool-cases, inl, inr, any,
}
use guangyue_panel.Domain.Account.{User}
use guangyue_panel.Commerce.{
  OrderState, Order, Shop, same_state, pending, provisioning, completed, failed, expired, cancelled,
  refunding, refunded, refund_pending,
}
use guangyue_panel.Commerce.Confirm.{
  Request, confirm_order, confirmed_order, confirmed_user, hold_movement,
  validate_entitlement_sites,
}
use guangyue_panel.Commerce.Confirm.Proofs.{confirm_order-ok}
use guangyue_panel.Commerce.Cancel.{
  cancel_order, on_cancel, to_refund, return_payment, release_movement, resume_meter,
  resume_purchase, fail_provisioning,
}
use guangyue_panel.Commerce.Cancel.Proofs.{cancel_order-ok, orders-return_payment}
use guangyue_panel.Commerce.Fulfil.{
  Server, outstanding, needs_barrier, refuse_disabled, refund_movement, refund_state, refund_order,
  capture_movement, open_payment, opened_user, is_source, fulfil_branch, fulfil_step,
  fulfil_settled, fulfil_order,
}
use guangyue_panel.Commerce.Fulfil.Proofs.{open_order-ok, open_payment-tables}
use guangyue_panel.Commerce.Moves.{
  Move, confirm, cancel_pending, cancel_provisioning, complete, fail, pay_back, pay_back_provider,
  Writes, settle-Writes, same_state-eq,
}

-- An edge from the state that a test has found.
edge_from : (x y z : OrderState) → same_state x y ≡ true → Move y z → Move x z
edge_from x y z h m = subst (λ s. Move s z) (sym (same_state-eq x y h)) m

pub confirm-Writes : (r : Request) (s s' : Shop) → confirm_order r s ≡ ok s' → Writes s s'
unfolding confirmed_order
confirm-Writes r s s' h =
    let (o, u, order_there, user_there, c, done) = confirm_order-ok r s s' h in
    settle-Writes (hold_movement r o u) (confirmed_order r o u) o.state (confirmed_user r o u) s s
      s' done refl (edge_from o.state pending provisioning c.open_order confirm)

cancel_edge :
    (x : OrderState) → (same_state x pending || same_state x provisioning) ≡ true → Move x cancelled
cancel_edge pending h = cancel_pending
cancel_edge provisioning h = cancel_provisioning
cancel_edge completed h = cc
cancel_edge failed h = cc
cancel_edge expired h = cc
cancel_edge cancelled h = cc
cancel_edge refunding h = cc
cancel_edge refunded h = cc
cancel_edge refund_pending h = cc

pub cancel-Writes : (r : Request) (s s' : Shop) → cancel_order r s ≡ ok s' → Writes s s'
cancel-Writes r s s' h =
    let (o, u, v, order_there, user_there, cancellable, done) = cancel_order-ok r s s' h in
    settle-Writes (release_movement r.transaction r.actor.id o u) (record o { state = cancelled })
      o.state v s (return_payment on_cancel o s) s' done (orders-return_payment on_cancel o s).0
      (cancel_edge o.state cancellable)

pub fail-Writes :
    (transaction : String) (o : Order) (s s' : Shop)
    → fail_provisioning transaction o s ≡ ok s'
    → Writes s s'
unfolding fail_provisioning
fail-Writes transaction o s s' h =
    let p = >>=-eq-ok (or_fail (lookup o.user_id s.users) not_found) _ h in
    settle-Writes (release_movement transaction 0 o p.0) (record o { state = failed }) provisioning
      (resume_purchase o p.0) s (return_payment to_refund o s) s' p.2
      (orders-return_payment to_refund o s).0 fail

pay_back_edge : (o : Order) → same_state o.state refunding ≡ true → Move o.state (refund_state o)
pay_back_edge o h = elim (Bool-cases (o.attempt_id == "")) [
  | inl balance ↦ rw balance (edge_from o.state refunding refunded h pay_back)
  | inr online ↦ rw online (edge_from o.state refunding refund_pending h pay_back_provider)
]

refund-Writes :
    (v : Server) (o : Order) (u : User) (s s' : Shop)
    → same_state o.state refunding ≡ true
    → refund_order v o u s ≡ ok s'
    → Writes s s'
unfolding refund_order
refund-Writes v o u s s' back h =
    let e = >>=-eq-ok (or_fail u.entitlement entitlement_replaced) _ h in
    let g = guard-eq-ok (is_source o.id e.0) entitlement_replaced _ e.2 in
    let m = >>=-eq-ok (or_fail u.meter nil_pointer) _ g.1 in
    settle-Writes (refund_movement v.transaction 0 o u) (record o { state = refund_state o })
      o.state _ s (return_payment to_refund o s) s' m.2 (orders-return_payment to_refund o s).0
      (pay_back_edge o back)

step-Writes :
    (v : Server) (budgets : Map String ℕ) (o : Order) (u : User) (s s' : Shop)
    → same_state o.state provisioning ≡ not (same_state o.state refunding)
    → fulfil_step v budgets o u s ≡ ok s'
    → Writes s s'
unfolding fulfil_step refuse_disabled
step-Writes v budgets o u s s' due h =
    let p = >>=-eq-ok (or_fail (lookup o.id s.orders) no_rows) _ h in
    let g =
      guard-eq-ok (same_state p.0.state o.state && p.0.attempt_id == o.attempt_id) conflict
        (fulfil_branch v budgets o u s) p.2 in
    elim (Bool-cases (not u.enabled && same_state o.state provisioning)) [
      | inl disabled ↦
          settle-Writes (release_movement v.transaction 0 o u) (record o { state = failed }) o.state
            (resume_meter u) s (return_payment to_refund o s) s' (if_true _ _ disabled g.1)
            (orders-return_payment to_refund o s).0
            (edge_from o.state provisioning failed (ground (arith, disabled)) fail)
      | inr go ↦ elim (Bool-cases (same_state o.state refunding)) [
        | inl back ↦ refund-Writes v o u s s' back (if_true _ _ back (if_false _ _ go g.1))
        | inr due_open ↦
            let (w, sites, done) =
              open_order-ok v budgets o u s s' (if_false _ _ due_open (if_false _ _ go g.1)) in
            settle-Writes (capture_movement v.transaction o u)
              (record o { state = completed; applied_revision = v.revision }) o.state w s
              (open_payment o (record s { sites = sites })) s' done
              (open_payment-tables o (record s { sites = sites })).0
              (edge_from o.state provisioning completed (ground (arith, due, due_open)) complete)
      ]
    ]

settled-Writes :
    (v : Server) (o : Order) (u : User) (s s' : Shop)
    → same_state o.state provisioning ≡ not (same_state o.state refunding)
    → fulfil_settled v o u s ≡ ok s'
    → Writes s s'
unfolding fulfil_settled
settled-Writes v o u s s' due h = elim (Bool-cases (same_state o.state provisioning)) [
  | inr refund ↦ step-Writes v _ o u s s' due (if_false _ _ refund h)
  | inl due_open ↦
      elim (Bool-cases (validate_entitlement_sites v.controller s.sites (opened_user v o u) true)) [
        | inl valid ↦ step-Writes v _ o u s s' due (if_true _ _ valid (if_true _ _ due_open h))
        | inr outdated ↦
            fail-Writes v.transaction o s s' (if_false _ _ outdated (if_true _ _ due_open h))
      ]
]

pub same_orders-Writes : (s t s' : Shop) → t.orders ≡ s.orders → Writes t s' → Writes s s'
same_orders-Writes s t s' same (inl w) = inl (cc (w, same))
same_orders-Writes s t s' same (inr w) = inr (record {
  row = w.row;
  new = w.new;
  there = rw⁻¹ same w.there;
  orders = rw⁻¹ same w.orders;
  move = w.move;
})

pub fulfil-Writes :
    (v : Server) (o : Order) (s s' : Shop)
    → same_state o.state provisioning ≡ not (same_state o.state refunding)
    → fulfil_order v o s ≡ ok s'
    → Writes s s'
unfolding fulfil_order
fulfil-Writes v o s s' due h =
    let p = >>=-eq-ok (or_fail (lookup o.user_id s.users) not_found) _ h in
    elim (Bool-cases (needs_barrier o)) [
      | inr free ↦ settled-Writes v o p.0 s s' due (if_false _ _ free p.2)
      | inl barrier ↦ elim (Bool-cases (any (outstanding p.0.id) s.sites)) [
        | inl waits ↦ inl (ground (arith, barrier, waits, p.2))
        | inr clear ↦
            let k = if_false _ _ clear (if_true _ _ barrier p.2) in
            let q = >>=-eq-ok (v.collect s.users) _ k in
            let t = >>=-eq-ok (or_fail (lookup p.0.id q.0) not_found) _ q.2 in
            same_orders-Writes s (record s { users = q.0 }) s' refl
              (settled-Writes v o t.0 (record s { users = q.0 }) s' due t.2)
      ]
    ]
