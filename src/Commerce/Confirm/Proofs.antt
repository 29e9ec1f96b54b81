-- ===== src/Commerce/Confirm/Proofs.antt =====
-- What a confirmation does to the books and to the buyer's wallet.
use guangyue_panel.Prelude.{
  ℕ, ◌+◌, ◌≡◌, subst, true, not, ◌&&◌, ◌||◌, some, ltb, ◌==◌, nat_eq, string_eq, lookup, arith, ok,
  guard, or_fail, >>=-eq-ok, pos, ◌+ℤ◌, not_found, Bool-cases, inl, inr, ◌⊎◌, guard-eq-ok, guard-ok,
  then-eq-ok, unpaid, module_off, forbidden, order_changed,
}
use guangyue_panel.Prelude.Text.{trim_space}
use guangyue_panel.Domain.Account.{User}
use guangyue_panel.Wallet.{wallet}
use guangyue_panel.Commerce.{Order, pending, Shop, same_state}
use guangyue_panel.Commerce.Settle.{settle, settle-Books, settle-balances, Books, held_change}
use guangyue_panel.Commerce.Held.{held_by}
use guangyue_panel.Commerce.Confirm.{
  Request, find_order, check_offer, check_order, check_payment, confirm_checks, confirmed_user,
  confirmed_order, hold_movement, confirm_order, is_paid_for, paid_in_time, resetting,
}

pub find_order-ok :
    (r : Request) (s : Shop) (o : Order) (u : User)
    → find_order r s ≡ ok (o, u)
    → (lookup r.order s.orders ≡ some o) × (lookup o.user_id s.users ≡ some u)
unfolding find_order
find_order-ok r s o u h =
    let p = >>=-eq-ok (or_fail (lookup r.order s.orders) not_found) _ h in
    let q = guard-eq-ok (r.actor.role == "owner" || r.actor.id == p.0.user_id) not_found _ p.2 in
    let t = >>=-eq-ok (or_fail (lookup p.0.user_id s.users) not_found) _ q.1 in
    (ground (arith, p.1, t.2), ground (arith, p.1, t.1, t.2))

-- What the checks establish of the order and of its payment.
pub record IsConfirmable (r : Request) (o : Order) (u : User) (s : Shop) : Type 0 where
  pub own : r.actor.id ≡ o.user_id
  pub open_order : same_state o.state pending ≡ true
  pub enabled : u.enabled ≡ true
  pub unchanged : o.expected ≡ r.version_of u
  pub paid_for : (o.attempt_id ≡ "") ⊎ (is_paid_for o.id (lookup o.attempt_id s.attempts) ≡ true)

check_payment-ok :
    (r : Request) (o : Order) (s : Shop)
    → check_payment r o s ≡ ok tt
    → (o.attempt_id ≡ "") ⊎ (is_paid_for o.id (lookup o.attempt_id s.attempts) ≡ true)
unfolding check_payment
check_payment-ok r o s h = elim (Bool-cases (o.attempt_id == "")) [
  | inl balance ↦ inl ((string_eq.beq_iff o.attempt_id "").0 balance)
  | inr online ↦
      let k = rw online at h in
      let g =
        guard-ok
          (trim_space r.attempt_id == o.attempt_id
            && is_paid_for o.id (lookup o.attempt_id s.attempts))
          unpaid k in
      inr (ground (arith, g))
]

pub confirm_checks-ok :
    (r : Request) (o : Order) (u : User) (s : Shop)
    → confirm_checks r o u s ≡ ok tt
    → IsConfirmable r o u s
unfolding confirm_checks check_order
confirm_checks-ok r o u s h =
    let a = guard-eq-ok (not (o.attempt_id == "") || r.payment_module) module_off _ h in
    let b = guard-eq-ok (r.actor.id == o.user_id) forbidden _ a.1 in
    let c = then-eq-ok (check_offer r o u s) _ b.1 in
    let d = then-eq-ok (check_order r o u s) _ c.1 in
    let e = then-eq-ok (check_payment r o s) _ d.1 in
    let f = guard-eq-ok (same_state o.state pending) order_changed _ d.0 in
    let g =
      guard-eq-ok (ltb r.now o.expires || paid_in_time r o s) order_changed
        (guard (u.enabled && o.expected == r.version_of u && not (resetting u.meter)) order_changed)
        f.1 in
    let k =
      guard-ok (u.enabled && o.expected == r.version_of u && not (resetting u.meter)) order_changed
        g.1 in
    record {
      own = ground (arith, b.0);
      open_order = f.0;
      enabled = ground (arith, k);
      unchanged = ground (arith, k, string_eq.beq_iff o.expected (r.version_of u));
      paid_for = check_payment-ok r o s e.0;
    }

pub confirm_order-ok :
    (r : Request) (s s' : Shop)
    → confirm_order r s ≡ ok s'
    → (o : Order) × (u : User) × (lookup r.order s.orders ≡ some o)
      × (lookup o.user_id s.users ≡ some u)
      × IsConfirmable r o u s
      × (settle (hold_movement r o u) (confirmed_order r o u) o.state (confirmed_user r o u) s
          ≡ ok s')
unfolding confirm_order
confirm_order-ok r s s' h =
    let p = >>=-eq-ok (find_order r s) _ h in
    let f = find_order-ok r s p.0.0 p.0.1 p.1 in
    let c = then-eq-ok (confirm_checks r p.0.0 p.0.1 s) _ p.2 in
    (p.0.0, p.0.1, f.0, f.1, confirm_checks-ok r p.0.0 p.0.1 s c.0, c.1)

confirm_shift :
    (r : Request) (o : Order) (u : User) (user : ℕ)
    → u.id ≡ o.user_id
    → same_state o.state pending ≡ true
    → pos (held_by user o) +ℤ held_change user (hold_movement r o u)
      ≡ pos (held_by user (confirmed_order r o u))
unfolding held_by hold_movement confirmed_order ◌+ℤ◌
confirm_shift r o u user own open_order = ground arith

-- A confirmation keeps the books: what it freezes in the wallet is what the order then holds.
pub confirm-Books : (r : Request) (s s' : Shop) → confirm_order r s ≡ ok s' → Books s → Books s'
confirm-Books r s s' h b =
    let (o, u, order_there, user_there, c, done) = confirm_order-ok r s s' h in
    settle-Books (hold_movement r o u) (confirmed_order r o u) o o.state (confirmed_user r o u) s s'
      done (unfold confirmed_order in rw (b.order_key r.order o order_there) order_there)
      (λ user. confirm_shift r o u user (b.user_key o.user_id u user_there) c.open_order) b

-- The price of a balance order moves from what its buyer has available to what is held; a paid
-- order moves nothing.
abbrev pub TakesPrice : Order → Shop → Shop → Type 0
TakesPrice o s s' =
    let w = wallet o.user_id s.ledger in
    let w' = wallet o.user_id s'.ledger in
    ((o.attempt_id ≡ "")
      × (w.available ≡ w'.available + o.offer.price)
      × (w'.held ≡ w.held + o.offer.price))
    ⊎ ((is_paid_for o.id (lookup o.attempt_id s.attempts) ≡ true)
        × (w'.available ≡ w.available)
        × (w'.held ≡ w.held))

takes_price :
    (r : Request) (s s' : Shop) (o : Order) (u : User)
    → u.id ≡ o.user_id
    → IsConfirmable r o u s
    → settle (hold_movement r o u) (confirmed_order r o u) o.state (confirmed_user r o u) s ≡ ok s'
    → TakesPrice o s s'
unfolding hold_movement
takes_price r s s' o u own c done =
    let t =
      settle-balances (hold_movement r o u) (confirmed_order r o u) o.state (confirmed_user r o u) s
        s' o.user_id done in
    elim (Bool-cases (o.attempt_id == "")) [
      | inl balance ↦ inl (
        (string_eq.beq_iff o.attempt_id "").0 balance,
        ground (arith, t.0, balance, own),
        ground (arith, t.1, balance, own),
      )
      | inr online ↦ elim c.paid_for [
        | inl e ↦ absurd (ground (arith, online, e, string_eq.beq_iff o.attempt_id ""))
        | inr arrived ↦ inr (arrived, ground (arith, t.0, online), ground (arith, t.1, online))
      ]
    ]

-- In a shop whose books are right, a confirmation of an order that is paid from the balance moves
-- its price from what its buyer has available to what is held; an order with a payment is
-- confirmed only on an attempt for it that is paid, and its buyer's balances stay as they were.
pub confirm-TakesPrice :
    (r : Request) (s s' : Shop) (o : Order)
    → Books s
    → confirm_order r s ≡ ok s'
    → lookup r.order s.orders ≡ some o
    → TakesPrice o s s'
confirm-TakesPrice r s s' o b h found =
    let (o', u, order_there, user_there, c, done) = confirm_order-ok r s s' h in
    let same : o' ≡ o = ground (arith, order_there, found) in
    takes_price r s s' o u (subst (λ x. u.id ≡ x.user_id) same (b.user_key o'.user_id u user_there))
      (subst (λ x. IsConfirmable r x u s) same c)
      (subst
        (λ x.
          settle (hold_movement r x u) (confirmed_order r x u) x.state (confirmed_user r x u) s
          ≡ ok s')
        same done)
