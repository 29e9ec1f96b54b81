-- ===== src/Payments/Quiet.antt =====
-- What callbacks and refunds of controlplane/payment_receipts.go and controlplane/payment_refunds.go
-- leave of the shop: no money moves, and at most one order, which holds nothing, changes its state.
use guangyue_panel.Prelude.{
  ℕ, ◌≡◌, ◌⊎◌, ◌∙◌, refl, sym, subst, ap, String, false, not, Option, none, some, ◌∷◌,
  if◌then◌else◌, if_true, if_false, ◌==◌, nat_eq, string_eq, lookup, insert, arith, Bool-cases, inl,
  inr, any, ok, ◌>>=◌, or_fail, >>=-eq-ok, guard-eq-ok, conflict, no_rows, unique_violation,
}
use guangyue_panel.Commerce.{
  Order, OrderState, pending, provisioning, failed, same_state, Shop, PaymentAttempt, AttemptState,
  paid, refund_required, verified, receipt_refund_required, review_required, save_order,
}
use guangyue_panel.Commerce.Held.{held_by, held_orders-insert}
use guangyue_panel.Commerce.Settle.{Books, key-insert}
use guangyue_panel.Commerce.Moves.{Move, fail_unpaid, Writes, same_state-eq}
use guangyue_panel.Payments.{
  Callback, VerifiedEvent, Till, Refusal, same_event_row, same_transaction, event_row, duplicate,
  good_event, waits_for, fail_row, fail_waiting, claim_attempt, refuse_payment, claim_payment,
  claim_reason, receive, receipt_of, receipt_for, add_receipt, record_new, record_payment_event,
  newest, named_by,
}
use guangyue_panel.Payments.Receipts.{ok-same, ok-till}
use guangyue_panel.Payments.Outcomes.{claim_attempt-shop, if_good, taken_by}

-- One order that held nothing has gone along an edge to a state in which it holds nothing.
pub record Ends (s s' : Shop) : Type 0 where
  pub new : Order
  pub row : Order
  pub there : lookup new.id s.orders ≡ some row
  pub before : same_state row.state provisioning ≡ false
  pub after : same_state new.state provisioning ≡ false
  pub move : Move row.state new.state
  pub orders : s'.orders ≡ insert new.id new s.orders

pub record IsQuiet (s s' : Shop) : Type 0 where
  pub ledger : s'.ledger ≡ s.ledger
  pub users : s'.users ≡ s.users
  pub writes : (s'.orders ≡ s.orders) ⊎ Ends s s'

pub same-IsQuiet : (s s' : Shop) → s ≡ s' → IsQuiet s s'
same-IsQuiet s s' e = record {
  ledger = ap (λ x. x.ledger) (sym e);
  users = ap (λ x. x.users) (sym e);
  writes = inl (ap (λ x. x.orders) (sym e));
}

holds_nothing :
    (user : ℕ) (o : Order) → same_state o.state provisioning ≡ false → held_by user o ≡ 0
unfolding held_by
holds_nothing user o h = rw h refl

pub IsQuiet-Books : (s s' : Shop) → IsQuiet s s' → Books s → Books s'
IsQuiet-Books s s' q b = elim q.writes [
  | inl same ↦ record {
    sound = rw q.ledger b.sound;
    matches = record { at = λ user. rw (q.ledger, same) (b.matches.at user) };
    order_key = rw same b.order_key;
    user_key = rw q.users b.user_key;
  }
  | inr w ↦ record {
    sound = rw q.ledger b.sound;
    matches = record {
      at = λ user.
          rw (q.ledger, w.orders)
            (omega (
              arith,
              held_orders-insert user w.new.id w.new w.row s.orders w.there,
              holds_nothing user w.new w.after,
              holds_nothing user w.row w.before,
              b.matches.at user,
            ));
    };
    order_key = rw w.orders (key-insert (λ (x : Order). x.id) w.new s.orders b.order_key);
    user_key = rw q.users b.user_key;
  }
]

pub IsQuiet-Writes : (s s' : Shop) → IsQuiet s s' → Writes s s'
IsQuiet-Writes s s' q = elim q.writes [
  | inl same ↦ inl same
  | inr w ↦
      inr (record { row = w.row; new = w.new; there = w.there; orders = w.orders; move = w.move })
]

-- A guarded write between two states in which nothing is held.
pub save-IsQuiet :
    (o : Order) (old : OrderState) (s s' : Shop)
    → same_state old provisioning ≡ false
    → same_state o.state provisioning ≡ false
    → Move old o.state
    → save_order o old s ≡ ok s'
    → IsQuiet s s'
unfolding save_order
save-IsQuiet o old s s' free_before free_after m h =
    let p = >>=-eq-ok (or_fail (lookup o.id s.orders) conflict) _ h in
    let g = guard-eq-ok (same_state p.0.state old) conflict _ p.2 in
    let was = same_state-eq p.0.state old g.0 in
    let same = ok-same _ s' g.1 in
    record {
      ledger = ap (λ x. x.ledger) (sym same);
      users = ap (λ x. x.users) (sym same);
      writes = inr (record {
        new = o;
        row = p.0;
        there = ground (arith, p.1);
        before = ap (λ x. same_state x provisioning) was ∙ free_before;
        after = free_after;
        move = subst (λ x. Move x o.state) (sym was) m;
        orders = ap (λ x. x.orders) (sym same);
      });
    }

fail_row-IsQuiet :
    (a : PaymentAttempt) (o : Option Order) (s s' : Shop) → fail_row a o s ≡ ok s' → IsQuiet s s'
fail_row-IsQuiet a none s s' h = same-IsQuiet s s' (ok-same s s' h)
fail_row-IsQuiet a (some o) s s' h =
    let save = save_order (record o { state = failed }) pending s in
    elim (Bool-cases (waits_for a o)) [
      | inl waits ↦
          save-IsQuiet (record o { state = failed }) pending s s' refl refl fail_unpaid
            (if_true save (ok s) waits h)
      | inr others ↦ same-IsQuiet s s' (ok-same s s' (if_false save (ok s) others h))
    ]

pub fail_waiting-IsQuiet :
    (order : String) (a : PaymentAttempt) (s s' : Shop)
    → fail_waiting order a s ≡ ok s'
    → IsQuiet s s'
unfolding fail_waiting
fail_waiting-IsQuiet order a s s' h =
    let row = fail_row a (lookup order s.orders) s in
    elim (Bool-cases (order == "")) [
      | inl topup ↦ same-IsQuiet s s' (ok-same s s' (if_true (ok s) row topup h))
      | inr named ↦ fail_row-IsQuiet a (lookup order s.orders) s s' (if_false (ok s) row named h)
    ]

-- What is written after it does not touch the orders.
pub kept_orders :
    (s t t' : Shop)
    → t'.orders ≡ t.orders
    → (t.orders ≡ s.orders) ⊎ Ends s t
    → (t'.orders ≡ s.orders) ⊎ Ends s t'
kept_orders s t t' e (inl same) = inl (e ∙ same)
kept_orders s t t' e (inr w) = inr (record {
  new = w.new;
  row = w.row;
  there = w.there;
  before = w.before;
  after = w.after;
  move = w.move;
  orders = e ∙ w.orders;
})

pub from_added :
    (s t t' : Shop)
    → s.orders ≡ t.orders
    → (t'.orders ≡ t.orders) ⊎ Ends t t'
    → (t'.orders ≡ s.orders) ⊎ Ends s t'
from_added s t t' e (inl same) = inl (same ∙ sym e)
from_added s t t' e (inr w) = inr (record {
  new = w.new;
  row = w.row;
  there = ap (lookup w.new.id) e ∙ w.there;
  before = w.before;
  after = w.after;
  move = w.move;
  orders = w.orders ∙ ap (insert w.new.id w.new) (sym e);
})

attempt-IsQuiet :
    (c : Callback) (e : VerifiedEvent) (a : PaymentAttempt) (state : AttemptState) (s t s' : Shop)
    → IsQuiet s t
    → claim_attempt c e a state t ≡ ok s'
    → IsQuiet s s'
attempt-IsQuiet c e a state s t s' q h =
    subst (IsQuiet s) (sym (claim_attempt-shop c e a state t s' h)) (record {
      ledger = q.ledger;
      users = q.users;
      writes =
          kept_orders s t (record t { attempts = insert a.id (taken_by e state a) t.attempts }) refl
            q.writes;
    })

refuse-IsQuiet :
    (c : Callback) (e : VerifiedEvent) (a : PaymentAttempt) (s s' : Shop)
    → refuse_payment c e a s ≡ ok s'
    → IsQuiet s s'
unfolding refuse_payment
refuse-IsQuiet c e a s s' k =
    let first = fail_waiting a.order_id a s >>= λ u. claim_attempt c e a refund_required u in
    elim (Bool-cases (a.external_ref == "")) [
      | inl free ↦
          let f =
            >>=-eq-ok (fail_waiting a.order_id a s) (λ u. claim_attempt c e a refund_required u)
              (if_true first (ok s) free k) in
          attempt-IsQuiet c e a refund_required s f.0 s'
            (fail_waiting-IsQuiet a.order_id a s f.0 f.1) f.2
      | inr used ↦ same-IsQuiet s s' (ok-same s s' (if_false first (ok s) used k))
    ]

claim-IsQuiet :
    (c : Callback) (e : VerifiedEvent) (a : PaymentAttempt) (x : Option Refusal) (s s' : Shop)
    → claim_payment c e a x s ≡ ok s'
    → IsQuiet s s'
unfolding claim_payment
claim-IsQuiet c e a none s s' k =
    let t = add_receipt (receipt_for c e a verified) s in
    attempt-IsQuiet c e a paid s t s' (record { ledger = refl; users = refl; writes = inl refl }) k
claim-IsQuiet c e a (some r) s s' k =
    let t = add_receipt (receipt_for c e a receipt_refund_required) s in
    let q = refuse-IsQuiet c e a t s' k in
    record { ledger = q.ledger; users = q.users; writes = from_added s t s' refl q.writes }

receive-IsQuiet :
    (c : Callback) (e : VerifiedEvent) (named : Option PaymentAttempt) (s s' : Shop)
    → receive c e named s ≡ ok s'
    → IsQuiet s s'
unfolding receive
receive-IsQuiet c e none s s' k =
    let q = ok-same (add_receipt (receipt_of c e review_required) s) s' k in
    record {
      ledger = ap (λ x. x.ledger) (sym q);
      users = ap (λ x. x.users) (sym q);
      writes = inl (ap (λ x. x.orders) (sym q));
    }
receive-IsQuiet c e (some found) s s' k =
    let p = >>=-eq-ok (or_fail (lookup found.id s.attempts) no_rows) _ k in
    claim-IsQuiet c e p.0 (claim_reason c e p.0 s.orders) s s' p.2

-- A callback moves no money.
pub record_payment_event-IsQuiet :
    (c : Callback) (e : VerifiedEvent) (t t' : Till)
    → record_payment_event c e t ≡ ok t'
    → IsQuiet t.shop t'.shop
unfolding record_payment_event record_new
record_payment_event-IsQuiet c e t t' k =
    let known = record t { events = event_row c e duplicate ∷ t.events } in
    let new = record_new c e t in
    let seen = any (same_transaction c.scope e.external_ref) t.shop.receipts in
    let third = if seen then ok known else new in
    let second = if any (same_event_row c e) t.events then ok t else third in
    let k2 = if_good (good_event e) second k in
    elim (Bool-cases (any (same_event_row c e) t.events)) [
      | inl again ↦
          same-IsQuiet t.shop t'.shop
            (ap (λ x. x.shop) (ok-till t t' (if_true (ok t) third again k2)))
      | inr first ↦
          let k3 = if_false (ok t) third first k2 in
          elim (Bool-cases seen) [
            | inl double ↦
                same-IsQuiet t.shop t'.shop
                  (ap (λ x. x.shop) (ok-till known t' (if_true (ok known) new double k3)))
            | inr fresh ↦
                let g =
                  guard-eq-ok (not (any (λ r. r.id == c.receipt_id) t.shop.receipts))
                    unique_violation _ (if_false (ok known) new fresh k3) in
                let named = newest c.order (named_by c e) t.shop.attempts in
                let p = >>=-eq-ok (receive c e named t.shop) _ g.1 in
                subst (λ x. IsQuiet t.shop x.shop) (ok-till _ t' p.2)
                  (receive-IsQuiet c e named t.shop p.0 p.1)
          ]
    ]
