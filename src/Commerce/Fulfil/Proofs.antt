-- ===== src/Commerce/Fulfil/Proofs.antt =====
-- Fulfilment keeps the books: what an order held is spent, given back, or still held, once.
use guangyue_panel.Prelude.{
  ℕ, ◌≡◌, refl, sym, subst, String, true, false, not, ◌&&◌, some, List, Map, ◌==◌, nat_eq,
  string_eq, if_true, if_false, lookup, any, arith, Result, ok, or_fail, >>=-eq-ok, guard-eq-ok,
  pos, ◌+ℤ◌, Bool-cases, inl, inr, ◌⊎◌, not_found, conflict, no_rows, nil_pointer,
  entitlement_replaced,
}
use guangyue_panel.Domain.Account.{User}
use guangyue_panel.Commerce.{
  Order, OrderState, provisioning, completed, failed, refunding, Shop, same_state,
}
use guangyue_panel.Sites.{BusinessSite}
use guangyue_panel.Commerce.Confirm.{validate_entitlement_sites}
use guangyue_panel.Commerce.Settle.{settle, settle-Books, Books, held_change}
use guangyue_panel.Commerce.Held.{held_by}
use guangyue_panel.Commerce.Cancel.{return_payment, to_refund, resume_meter, release_movement}
use guangyue_panel.Commerce.Cancel.Proofs.{
  return_payment-Books, orders-return_payment, fail-Books, release_shift,
}
use guangyue_panel.Commerce.Fulfil.{
  Server, outstanding, needs_barrier, refuse_disabled, refund_movement, refund_state, refund_order,
  capture_movement, open_payment, opened_account, fulfil_branch, is_source, open_order, opened_user,
  fulfil_step, fulfil_settled, fulfil_order,
}

refuse-Books :
    (v : Server) (o : Order) (u : User) (s s' : Shop)
    → lookup o.id s.orders ≡ some o
    → u.id ≡ o.user_id
    → refuse_disabled v o u s ≡ ok s'
    → Books s
    → Books s'
unfolding refuse_disabled
refuse-Books v o u s s' there own h b =
    settle-Books (release_movement v.transaction 0 o u) (record o { state = failed }) o o.state
      (resume_meter u) (return_payment to_refund o s) s' h
      (rw ((orders-return_payment to_refund o s).0) there)
      (λ user. release_shift v.transaction 0 o u failed user own refl)
      (return_payment-Books to_refund o s b)

refund_shift :
    (transaction : String) (actor : ℕ) (o : Order) (u : User) (state : OrderState) (user : ℕ)
    → same_state o.state provisioning ≡ false
    → same_state state provisioning ≡ false
    → pos (held_by user o) +ℤ held_change user (refund_movement transaction actor o u)
      ≡ pos (held_by user (record o { state = state }))
unfolding held_by refund_movement ◌+ℤ◌
refund_shift transaction actor o u state user open_order gone = ground arith

refund-Books :
    (v : Server) (o : Order) (u : User) (s s' : Shop)
    → lookup o.id s.orders ≡ some o
    → same_state o.state provisioning ≡ false
    → refund_order v o u s ≡ ok s'
    → Books s
    → Books s'
unfolding refund_order
refund-Books v o u s s' there state h b =
    let e = >>=-eq-ok (or_fail u.entitlement entitlement_replaced) _ h in
    let g = guard-eq-ok (is_source o.id e.0) entitlement_replaced _ e.2 in
    let m = >>=-eq-ok (or_fail u.meter nil_pointer) _ g.1 in
    settle-Books (refund_movement v.transaction 0 o u) (record o { state = refund_state o }) o
      o.state _ (return_payment to_refund o s) s' m.2
      (rw ((orders-return_payment to_refund o s).0) there)
      (λ user. refund_shift v.transaction 0 o u (refund_state o) user state (ground arith))
      (return_payment-Books to_refund o s b)

capture_shift :
    (transaction : String) (o : Order) (u : User) (state : OrderState) (revision : String)
    (user : ℕ)
    → u.id ≡ o.user_id
    → same_state o.state provisioning ≡ true
    → same_state state provisioning ≡ false
    → pos (held_by user o) +ℤ held_change user (capture_movement transaction o u)
      ≡ pos (held_by user (record o { state = state; applied_revision = revision }))
unfolding held_by capture_movement ◌+ℤ◌
capture_shift transaction o u state revision user own held gone = ground arith

-- The sites, and what becomes of a payment, are not in the books.
open_payment-Books :
    (o : Order) (s : Shop) (sites : List BusinessSite)
    → Books s
    → Books (open_payment o (record s { sites = sites }))
unfolding open_payment
open_payment-Books o s sites b = elim (Bool-cases (o.attempt_id == "")) [
  | inl balance ↦ rw balance (record {
    sound = b.sound;
    matches = record { at = b.matches.at };
    order_key = b.order_key;
    user_key = b.user_key;
  })
  | inr online ↦ rw online (record {
    sound = b.sound;
    matches = record { at = b.matches.at };
    order_key = b.order_key;
    user_key = b.user_key;
  })
]

pub open_payment-tables :
    (o : Order) (s : Shop)
    → ((open_payment o s).orders ≡ s.orders) × ((open_payment o s).ledger ≡ s.ledger)
unfolding open_payment
open_payment-tables o s = ground arith

pub open_order-ok :
    (v : Server) (budgets : Map String ℕ) (o : Order) (u : User) (s s' : Shop)
    → open_order v budgets o u s ≡ ok s'
    → (w : User) × (sites : List BusinessSite) × (settle
          (capture_movement v.transaction o u)
          (record o { state = completed; applied_revision = v.revision })
          o.state
          w
          (open_payment o (record s { sites = sites }))
        ≡ ok s')
unfolding open_order
open_order-ok v budgets o u s s' h =
    let p = >>=-eq-ok (opened_account v budgets o u s) _ h in (p.0.0, p.0.1, p.2)

open-Books :
    (v : Server) (budgets : Map String ℕ) (o : Order) (u : User) (s s' : Shop)
    → lookup o.id s.orders ≡ some o
    → u.id ≡ o.user_id
    → same_state o.state provisioning ≡ true
    → open_order v budgets o u s ≡ ok s'
    → Books s
    → Books s'
open-Books v budgets o u s s' there own state h b =
    let (w, sites, done) = open_order-ok v budgets o u s s' h in
    settle-Books (capture_movement v.transaction o u)
      (record o { state = completed; applied_revision = v.revision }) o o.state w
      (open_payment o (record s { sites = sites })) s' done
      (rw ((open_payment-tables o (record s { sites = sites })).0) there)
      (λ user. capture_shift v.transaction o u completed v.revision user own state refl)
      (open_payment-Books o s sites b)

-- What the worker hands to `fulfilOrder`: a stored order that is being provisioned or refunded.
pub record IsDue (o : Order) (s : Shop) : Type 0 where
  pub there : lookup o.id s.orders ≡ some o
  pub state : same_state o.state provisioning ≡ not (same_state o.state refunding)

step-Books :
    (v : Server) (budgets : Map String ℕ) (o : Order) (u : User) (s s' : Shop)
    → IsDue o s
    → u.id ≡ o.user_id
    → fulfil_step v budgets o u s ≡ ok s'
    → Books s
    → Books s'
unfolding fulfil_step
step-Books v budgets o u s s' due own h b =
    let p = >>=-eq-ok (or_fail (lookup o.id s.orders) no_rows) _ h in
    let g =
      guard-eq-ok (same_state p.0.state o.state && p.0.attempt_id == o.attempt_id) conflict
        (fulfil_branch v budgets o u s) p.2 in
    elim (Bool-cases (not u.enabled && same_state o.state provisioning)) [
      | inl disabled ↦ refuse-Books v o u s s' due.there own (let k = rw disabled at g.1 in k) b
      | inr go ↦ elim (Bool-cases (same_state o.state refunding)) [
        | inl back ↦
            refund-Books v o u s s' due.there (ground (arith, due.state, back))
              (let k = rw (go, back) at g.1 in k) b
        | inr due_open ↦
            open-Books v budgets o u s s' due.there own (ground (arith, due.state, due_open))
              (let k = rw (go, due_open) at g.1 in k) b
      ]
    ]

settled-Books :
    (v : Server) (o : Order) (u : User) (s s' : Shop)
    → IsDue o s
    → u.id ≡ o.user_id
    → fulfil_settled v o u s ≡ ok s'
    → Books s
    → Books s'
unfolding fulfil_settled
settled-Books v o u s s' due own h b = elim (Bool-cases (same_state o.state provisioning)) [
  | inr refund ↦ step-Books v _ o u s s' due own (let k = rw refund at h in k) b
  | inl due_open ↦
      elim (Bool-cases (validate_entitlement_sites v.controller s.sites (opened_user v o u) true)) [
        | inl valid ↦ step-Books v _ o u s s' due own (let k = rw (due_open, valid) at h in k) b
        | inr outdated ↦
            fail-Books v.transaction o s s' due.there (let k = rw (due_open, outdated) at h in k) b
      ]
]

-- The collection of traffic leaves every account under its own identifier.
pub record IsCollector (collect : Map ℕ User → Result (Map ℕ User)) : Type 0 where
  pub keys :
      (users users' : Map ℕ User)
      → collect users ≡ ok users'
      → ((id : ℕ) (u : User) → lookup id users ≡ some u → u.id ≡ id)
      → (id : ℕ) (u : User) → lookup id users' ≡ some u
      → u.id ≡ id

-- Either the order waits and nothing has changed, or the transaction has run on the account as the
-- collected traffic has left it.
pub fulfil_order-ok :
    (v : Server) (o : Order) (s s' : Shop)
    → IsCollector v.collect
    → fulfil_order v o s ≡ ok s'
    → Books s
    → (s' ≡ s)
      ⊎ ((u : User) × (users : Map ℕ User) × (u.id ≡ o.user_id)
          × Books (record s { users = users })
          × (fulfil_settled v o u (record s { users = users }) ≡ ok s'))
unfolding fulfil_order
fulfil_order-ok v o s s' c h b =
    let p = >>=-eq-ok (or_fail (lookup o.user_id s.users) not_found) _ h in
    let found : lookup o.user_id s.users ≡ some p.0 = ground (arith, p.1) in
    let own = b.user_key o.user_id p.0 found in
    elim (Bool-cases (needs_barrier o)) [
      | inr free ↦ inr (p.0, s.users, own, b, if_false _ _ free p.2)
      | inl barrier ↦ elim (Bool-cases (any (outstanding p.0.id) s.sites)) [
        | inl waits ↦ inl (ground (arith, barrier, waits, p.2))
        | inr clear ↦
            let k = if_false _ _ clear (if_true _ _ barrier p.2) in
            let q = >>=-eq-ok (v.collect s.users) _ k in
            let t = >>=-eq-ok (or_fail (lookup p.0.id q.0) not_found) _ q.2 in
            let keyed = c.keys s.users q.0 q.1 b.user_key in
            let again : lookup p.0.id q.0 ≡ some t.0 = ground (arith, t.1) in
            inr (
              t.0,
              q.0,
              cc (own, keyed p.0.id t.0 again),
              record {
                sound = b.sound;
                matches = record { at = b.matches.at };
                order_key = b.order_key;
                user_key = keyed;
              },
              t.2,
            )
      ]
    ]

-- Fulfilment of an order that is due keeps the books, where collecting traffic leaves the accounts
-- under their own identifiers.
pub fulfil-Books :
    (v : Server) (o : Order) (s s' : Shop)
    → IsCollector v.collect
    → IsDue o s
    → fulfil_order v o s ≡ ok s'
    → Books s
    → Books s'
fulfil-Books v o s s' c due h b = elim (fulfil_order-ok v o s s' c h b) [
  | inl waits ↦ subst Books (sym waits) b
  | inr (u, users, own, keyed, done) ↦
      settled-Books v o u (record s { users = users }) s'
        (record { there = due.there; state = due.state }) own done keyed
]
