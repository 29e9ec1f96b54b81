-- ===== src/Commerce/Fulfil/Money.antt =====
-- Where the money of an order goes when it is fulfilled.
use guangyue_panel.Prelude.{
  ℕ, ◌+◌, ◌≡◌, refl, String, true, not, ◌&&◌, Option, some, Map, ◌==◌, nat_eq, string_eq,
  if◌then◌else◌, lookup, lookup-insert, arith, ok, or_fail, >>=-eq-ok, guard-eq-ok, pos_part,
  Bool-cases, inl, inr, ◌⊎◌, not_found, conflict, no_rows, nil_pointer, entitlement_replaced,
}
use guangyue_panel.Domain.Account.{User}
use guangyue_panel.Wallet.{Movement, wallet}
use guangyue_panel.Commerce.{
  Order, OrderState, provisioning, completed, failed, refunding, Shop, same_state,
}
use guangyue_panel.Commerce.Confirm.{validate_entitlement_sites}
use guangyue_panel.Commerce.Settle.{settle, settle-ok, settle-balances, Books}
use guangyue_panel.Commerce.Cancel.{
  return_payment, to_refund, resume_meter, release_movement, fail_provisioning, resume_purchase,
}
use guangyue_panel.Commerce.Cancel.Proofs.{frozen, orders-return_payment, release_balances}
use guangyue_panel.Commerce.Fulfil.{
  Server, refuse_disabled, refund_movement, refund_state, refund_order, capture_movement,
  open_payment, opened_user, is_source, fulfil_branch, open_order, fulfil_step, fulfil_settled,
  fulfil_order,
}
use guangyue_panel.Commerce.Fulfil.Proofs.{
  IsDue, IsCollector, fulfil_order-ok, open_order-ok, open_payment-tables,
}

-- The order has gone to `state`, `given` has come to what its buyer has available, and `taken` has
-- left what is held.
pub record Fate (o : Order) (state : OrderState) (given taken : ℕ) (s s' : Shop) : Type 0 where
  pub row : Order
  pub stored : lookup o.id s'.orders ≡ some row
  pub reached : row.state ≡ state
  pub available :
      (wallet o.user_id s'.ledger).available ≡ (wallet o.user_id s.ledger).available + given
  pub held : (wallet o.user_id s'.ledger).held + taken ≡ (wallet o.user_id s.ledger).held

-- What an order that is refunded has to give back to the balance.
abbrev pub refund_due : Order → ℕ
refund_due o = if o.attempt_id == "" then pos_part o.refund_amount else 0

stored_row :
    (m : Option Movement) (o : Order) (old : OrderState) (u : User) (s s' : Shop)
    → settle m o old u s ≡ ok s'
    → lookup o.id s'.orders ≡ some o
stored_row m o old u s s' h =
    let p = settle-ok m o old u s s' h in
    rw p.1 (ground (arith, lookup-insert o.id o.id o s.orders, string_eq.beq_iff o.id o.id))

release-Fate :
    (transaction : String) (o : Order) (old : OrderState) (u v : User) (s s1 s' : Shop)
    → u.id ≡ o.user_id
    → s1.ledger ≡ s.ledger
    → settle (release_movement transaction 0 o u) (record o { state = failed }) old v s1 ≡ ok s'
    → Fate o failed (frozen o) (frozen o) s s'
release-Fate transaction o old u v s s1 s' own same h =
    let b =
      release_balances transaction 0 o (record o { state = failed }) old u v s s1 s' own same h in
    record {
      row = record o { state = failed };
      stored =
          stored_row (release_movement transaction 0 o u) (record o { state = failed }) old v s1 s'
            h;
      reached = refl;
      available = b.0;
      held = b.1;
    }

refund-Fate :
    (v : Server) (o : Order) (u : User) (s s' : Shop)
    → u.id ≡ o.user_id
    → refund_order v o u s ≡ ok s'
    → Fate o (refund_state o) (refund_due o) 0 s s'
unfolding refund_order refund_movement
refund-Fate v o u s s' own h =
    let e = >>=-eq-ok (or_fail u.entitlement entitlement_replaced) _ h in
    let g = guard-eq-ok (is_source o.id e.0) entitlement_replaced _ e.2 in
    let m = >>=-eq-ok (or_fail u.meter nil_pointer) _ g.1 in
    let t =
      settle-balances (refund_movement v.transaction 0 o u) (record o { state = refund_state o })
        o.state _ (return_payment to_refund o s) s' o.user_id m.2 in
    let same = (orders-return_payment to_refund o s).1 in
    record {
      row = record o { state = refund_state o };
      stored =
          stored_row (refund_movement v.transaction 0 o u) (record o { state = refund_state o })
            o.state _ (return_payment to_refund o s) s' m.2;
      reached = refl;
      available = ground (arith, t.0, own, same);
      held = ground (arith, t.1, own, same);
    }

open-Fate :
    (v : Server) (budgets : Map String ℕ) (o : Order) (u : User) (s s' : Shop)
    → u.id ≡ o.user_id
    → same_state o.state provisioning ≡ true
    → open_order v budgets o u s ≡ ok s'
    → Fate o completed 0 (frozen o) s s'
unfolding capture_movement
open-Fate v budgets o u s s' own state h =
    let (w, sites, done) = open_order-ok v budgets o u s s' h in
    let row = record o { state = completed; applied_revision = v.revision } in
    let s1 = open_payment o (record s { sites = sites }) in
    let t =
      settle-balances (capture_movement v.transaction o u) row o.state w s1 s' o.user_id done in
    let same = (open_payment-tables o (record s { sites = sites })).1 in
    record {
      row = row;
      stored = stored_row (capture_movement v.transaction o u) row o.state w s1 s' done;
      reached = refl;
      available = ground (arith, t.0, own, same);
      held = ground (arith, t.1, own, same, state);
    }

-- What can become of an order: it waits and nothing has moved; it is completed and what it had
-- frozen is spent; it has failed and what it had frozen is available again; or it is paid back.
abbrev pub Fates : Order → Shop → Shop → Type 0
Fates o s s' =
    ((s'.orders ≡ s.orders) × (s'.ledger ≡ s.ledger))
    ⊎ (Fate o completed 0 (frozen o) s s'
        ⊎ (Fate o failed (frozen o) (frozen o) s s'
            ⊎ Fate o (refund_state o) (refund_due o) 0 s s'))

fail-Fate :
    (transaction : String) (o : Order) (s s' : Shop)
    → Books s
    → fail_provisioning transaction o s ≡ ok s'
    → Fate o failed (frozen o) (frozen o) s s'
unfolding fail_provisioning
fail-Fate transaction o s s' b h =
    let p = >>=-eq-ok (or_fail (lookup o.user_id s.users) not_found) _ h in
    let found : lookup o.user_id s.users ≡ some p.0 = ground (arith, p.1) in
    release-Fate transaction o provisioning p.0 (resume_purchase o p.0) s
      (return_payment to_refund o s) s' (b.user_key o.user_id p.0 found)
      (orders-return_payment to_refund o s).1 p.2

step-Fates :
    (v : Server) (budgets : Map String ℕ) (o : Order) (u : User) (s s' : Shop)
    → IsDue o s
    → u.id ≡ o.user_id
    → fulfil_step v budgets o u s ≡ ok s'
    → Fates o s s'
unfolding fulfil_step refuse_disabled
step-Fates v budgets o u s s' due own h =
    let p = >>=-eq-ok (or_fail (lookup o.id s.orders) no_rows) _ h in
    let g =
      guard-eq-ok (same_state p.0.state o.state && p.0.attempt_id == o.attempt_id) conflict
        (fulfil_branch v budgets o u s) p.2 in
    elim (Bool-cases (not u.enabled && same_state o.state provisioning)) [
      | inl disabled ↦ inr (
          inr (
            inl (
              release-Fate v.transaction o o.state u (resume_meter u) s
                (return_payment to_refund o s) s' own (orders-return_payment to_refund o s).1
                (let k = rw disabled at g.1 in k))))
      | inr go ↦ elim (Bool-cases (same_state o.state refunding)) [
        | inl back ↦
            inr (inr (inr (refund-Fate v o u s s' own (let k = rw (go, back) at g.1 in k))))
        | inr due_open ↦ inr (
            inl (
              open-Fate v budgets o u s s' own (ground (arith, due.state, due_open))
                (let k = rw (go, due_open) at g.1 in k)))
      ]
    ]

settled-Fates :
    (v : Server) (o : Order) (u : User) (s s' : Shop)
    → Books s
    → IsDue o s
    → u.id ≡ o.user_id
    → fulfil_settled v o u s ≡ ok s'
    → Fates o s s'
unfolding fulfil_settled
settled-Fates v o u s s' b due own h = elim (Bool-cases (same_state o.state provisioning)) [
  | inr refund ↦ step-Fates v _ o u s s' due own (let k = rw refund at h in k)
  | inl due_open ↦
      elim (Bool-cases (validate_entitlement_sites v.controller s.sites (opened_user v o u) true)) [
        | inl valid ↦ step-Fates v _ o u s s' due own (let k = rw (due_open, valid) at h in k)
        | inr outdated ↦ inr (
            inr
              (inl (fail-Fate v.transaction o s s' b (let k = rw (due_open, outdated) at h in k))))
      ]
]

same-Fate :
    (o : Order) (state : OrderState) (given taken : ℕ) (s : Shop) (users : Map ℕ User) (s' : Shop)
    → Fate o state given taken (record s { users = users }) s'
    → Fate o state given taken s s'
same-Fate o state given taken s users s' f = record {
  row = f.row;
  stored = f.stored;
  reached = f.reached;
  available = f.available;
  held = f.held;
}

same-Fates :
    (o : Order) (s : Shop) (users : Map ℕ User) (s' : Shop)
    → Fates o (record s { users = users }) s'
    → Fates o s s'
same-Fates o s users s' (inl w) = inl w
same-Fates o s users s' (inr (inl f)) = inr (inl (same-Fate o completed 0 (frozen o) s users s' f))
same-Fates o s users s' (inr (inr (inl f))) =
    inr (inr (inl (same-Fate o failed (frozen o) (frozen o) s users s' f)))
same-Fates o s users s' (inr (inr (inr f))) =
    inr (inr (inr (same-Fate o (refund_state o) (refund_due o) 0 s users s' f)))

-- In a shop whose books are right, where collecting traffic leaves accounts under their own
-- identifiers, fulfilment of a stored order in provisioning or refunding, if it commits, has one
-- of four ends: the order waits and no order and no money has changed; it is completed and what it
-- had frozen is spent; it has failed and what it had frozen is available again; or it is refunded
-- and its refund is available, which is nothing at once for an order paid through a provider.
pub fulfil-Fates :
    (v : Server) (o : Order) (s s' : Shop)
    → IsCollector v.collect
    → Books s
    → IsDue o s
    → fulfil_order v o s ≡ ok s'
    → Fates o s s'
fulfil-Fates v o s s' c b due h = elim (fulfil_order-ok v o s s' c h b) [
  | inl waits ↦ inl (cc waits, cc waits)
  | inr (u, users, own, keyed, done) ↦ same-Fates o s users s' (
      settled-Fates v o u (record s { users = users }) s' keyed
        (record { there = due.there; state = due.state }) own done)
]
