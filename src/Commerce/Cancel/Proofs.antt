-- ===== src/Commerce/Cancel/Proofs.antt =====
-- Cancelled and failed orders give back what they held, once.
use guangyue_panel.Prelude.{
  ℕ, ◌+◌, ◌≡◌, refl, subst, String, true, false, ◌&&◌, ◌||◌, some, ◌==◌, nat_eq, string_eq,
  if◌then◌else◌, lookup, arith, ok, or_fail, >>=-eq-ok, guard-eq-ok, pos, ◌+ℤ◌, Bool-cases, inl,
  inr, not_found, not_cancellable,
}
use guangyue_panel.Domain.Account.{User}
use guangyue_panel.Wallet.{wallet}
use guangyue_panel.Commerce.{
  Order, OrderState, pending, provisioning, cancelled, failed, AttemptState, Shop, same_state,
}
use guangyue_panel.Commerce.Settle.{settle, settle-Books, settle-balances, Books, held_change}
use guangyue_panel.Commerce.Held.{held_by}
use guangyue_panel.Commerce.Confirm.{Request, find_order}
use guangyue_panel.Commerce.Confirm.Proofs.{find_order-ok}
use guangyue_panel.Commerce.Cancel.{
  return_payment, on_cancel, to_refund, release_movement, cancel_order, fail_provisioning,
}

-- What becomes of the payment does not touch the books.
pub return_payment-Books :
    (change : AttemptState → AttemptState) (o : Order) (s : Shop)
    → Books s
    → Books (return_payment change o s)
unfolding return_payment
return_payment-Books change o s b = elim (Bool-cases (o.attempt_id == "")) [
  | inl balance ↦ rw balance b
  | inr online ↦ rw online (record {
    sound = b.sound;
    matches = record { at = b.matches.at };
    order_key = b.order_key;
    user_key = b.user_key;
  })
]

pub orders-return_payment :
    (change : AttemptState → AttemptState) (o : Order) (s : Shop)
    → ((return_payment change o s).orders ≡ s.orders)
      × ((return_payment change o s).ledger ≡ s.ledger)
unfolding return_payment
orders-return_payment change o s = ground arith

-- Leaving provisioning by any way gives the held price back.
pub release_shift :
    (transaction : String) (actor : ℕ) (o : Order) (u : User) (state : OrderState) (user : ℕ)
    → u.id ≡ o.user_id
    → same_state state provisioning ≡ false
    → pos (held_by user o) +ℤ held_change user (release_movement transaction actor o u)
      ≡ pos (held_by user (record o { state = state }))
unfolding held_by release_movement ◌+ℤ◌
release_shift transaction actor o u state user own gone = ground arith

pub cancel_order-ok :
    (r : Request) (s s' : Shop)
    → cancel_order r s ≡ ok s'
    → (o : Order) × (u : User) × (v : User) × (lookup r.order s.orders ≡ some o)
      × (lookup o.user_id s.users ≡ some u)
      × ((same_state o.state pending || same_state o.state provisioning) ≡ true)
      × (settle
            (release_movement r.transaction r.actor.id o u)
            (record o { state = cancelled })
            o.state
            v
            (return_payment on_cancel o s)
          ≡ ok s')
unfolding cancel_order
cancel_order-ok r s s' h =
    let p = >>=-eq-ok (find_order r s) _ h in
    let f = find_order-ok r s p.0.0 p.0.1 p.1 in
    let g =
      guard-eq-ok (same_state p.0.0.state pending || same_state p.0.0.state provisioning)
        not_cancellable _ p.2 in
    (p.0.0, p.0.1, _, f.0, f.1, g.0, g.1)

-- A cancellation keeps the books.
pub cancel-Books : (r : Request) (s s' : Shop) → cancel_order r s ≡ ok s' → Books s → Books s'
cancel-Books r s s' h b =
    let (o, u, v, order_there, user_there, cancellable, done) = cancel_order-ok r s s' h in
    settle-Books (release_movement r.transaction r.actor.id o u) (record o { state = cancelled }) o
      o.state v (return_payment on_cancel o s) s' done
      (rw ((orders-return_payment on_cancel o s).0, b.order_key r.order o order_there) order_there)
      (λ user.
        release_shift r.transaction r.actor.id o u cancelled user
          (b.user_key o.user_id u user_there) refl)
      (return_payment-Books on_cancel o s b)

-- A failed provisioning keeps the books, where the order that was read is the stored one.
pub fail-Books :
    (transaction : String) (o : Order) (s s' : Shop)
    → lookup o.id s.orders ≡ some o
    → fail_provisioning transaction o s ≡ ok s'
    → Books s
    → Books s'
unfolding fail_provisioning
fail-Books transaction o s s' there h b =
    let p = >>=-eq-ok (or_fail (lookup o.user_id s.users) not_found) _ h in
    let found : lookup o.user_id s.users ≡ some p.0 = ground (arith, p.1) in
    settle-Books (release_movement transaction 0 o p.0) (record o { state = failed }) o provisioning
      _ (return_payment to_refund o s) s' p.2 (rw ((orders-return_payment to_refund o s).0) there)
      (λ user. release_shift transaction 0 o p.0 failed user (b.user_key o.user_id p.0 found) refl)
      (return_payment-Books to_refund o s b)

-- What an order in provisioning has frozen.
abbrev pub frozen : Order → ℕ
frozen o = if o.attempt_id == "" && same_state o.state provisioning then o.offer.price else 0

pub release_balances :
    (transaction : String) (actor : ℕ) (o o' : Order) (old : OrderState) (u v : User)
    (s s1 s' : Shop)
    → u.id ≡ o.user_id
    → s1.ledger ≡ s.ledger
    → settle (release_movement transaction actor o u) o' old v s1 ≡ ok s'
    → ((wallet o.user_id s'.ledger).available ≡ (wallet o.user_id s.ledger).available + frozen o)
      × ((wallet o.user_id s'.ledger).held + frozen o ≡ (wallet o.user_id s.ledger).held)
unfolding release_movement
release_balances transaction actor o o' old u v s s1 s' own same done =
    let t =
      settle-balances (release_movement transaction actor o u) o' old v s1 s' o.user_id done in
    (ground (arith, t.0, own, same), ground (arith, t.1, own, same))

-- In a shop whose books are right, a cancellation that goes through gives back exactly what the
-- order has frozen, from held to available.
pub cancel_returns_hold :
    (r : Request) (s s' : Shop) (o : Order)
    → Books s
    → cancel_order r s ≡ ok s'
    → lookup r.order s.orders ≡ some o
    → ((wallet o.user_id s'.ledger).available ≡ (wallet o.user_id s.ledger).available + frozen o)
      × ((wallet o.user_id s'.ledger).held + frozen o ≡ (wallet o.user_id s.ledger).held)
cancel_returns_hold r s s' o b h found =
    let (o', u, v, order_there, user_there, cancellable, done) = cancel_order-ok r s s' h in
    let same : o' ≡ o = ground (arith, order_there, found) in
    subst
      (λ x.
        ((wallet x.user_id s'.ledger).available ≡ (wallet x.user_id s.ledger).available + frozen x)
        × ((wallet x.user_id s'.ledger).held + frozen x ≡ (wallet x.user_id s.ledger).held))
      same
      (release_balances r.transaction r.actor.id o' (record o' { state = cancelled }) o'.state u v s
        (return_payment on_cancel o' s) s' (b.user_key o'.user_id u user_there)
        (orders-return_payment on_cancel o' s).1 done)
