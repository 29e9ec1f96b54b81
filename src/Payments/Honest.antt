-- ===== src/Payments/Honest.antt =====
-- Callbacks and reconciliations of controlplane/payment_receipts.go in any order.
use guangyue_panel.Prelude.{
  ◌≡◌, ◌∙◌, refl, sym, subst, ap, String, true, false, not, Option, none, some, ◌∷◌, if◌then◌else◌,
  if_true, if_false, ◌==◌, nat_eq, string_eq, lookup, insert, arith, Bool-cases, inl, inr, any, ok,
  err, ◌>>=◌, or_fail, >>=-eq-ok, guard-eq-ok, no_rows, unique_violation, bad_payment,
}
use guangyue_panel.Commerce.{
  Shop, PaymentAttempt, AttemptState, ReceiptState, verified, receipt_refund_required,
  review_required, paid, refund_required,
}
use guangyue_panel.Payments.{
  Callback, VerifiedEvent, Till, Refusal, same_transaction, same_event_row, event_row, duplicate,
  good_event, taken, fail_waiting, claim_attempt, refuse_payment, claim_payment, claim_reason,
  receive, receipt_of, receipt_for, add_receipt, record_new, record_payment_event, newest, named_by,
}
use guangyue_panel.Payments.Reconcile.{Office, reconcile_payment_receipt}
use guangyue_panel.Payments.Once.{IsHonest, Keeps-IsHonest}
use guangyue_panel.Payments.Claims.{claim_reason-IsUsable, or_fail-some}
use guangyue_panel.Payments.Kept.{fail_waiting-Rest, reconcile-Keeps}
use guangyue_panel.Payments.Receipts.{ok-same, ok-till, good_ref, add-IsHonest, claim-IsHonest}

claim_attempt-ok :
    (c : Callback) (e : VerifiedEvent) (a : PaymentAttempt) (state : AttemptState) (s s' : Shop)
    → claim_attempt c e a state s ≡ ok s'
    → (s'.receipts ≡ s.receipts)
      × (s'.attempts
          ≡ insert a.id (record a { state = state; external_ref = e.external_ref }) s.attempts)
unfolding claim_attempt
claim_attempt-ok c e a state s s' h =
    let g = guard-eq-ok (not (any (taken c e) s.attempts)) unique_violation _ h in
    (ground (arith, g.1), ground (arith, g.1))

module _ (c : Callback) (e : VerifiedEvent) (a : PaymentAttempt) (s s' : Shop)
    (good : (e.external_ref == "") ≡ false)
    (fresh : any (same_transaction c.scope e.external_ref) s.receipts ≡ false)
    (there : lookup a.id s.attempts ≡ some a) (h : IsHonest s.receipts s.attempts) where
  claimed-IsHonest :
      (state : AttemptState) (r : ReceiptState)
      → (a.external_ref == "") ≡ true
      → (s'.receipts ≡ receipt_for c e a r ∷ s.receipts)
      → (s'.attempts
          ≡ insert a.id (record a { state = state; external_ref = e.external_ref }) s.attempts)
      → IsHonest s'.receipts s'.attempts
  claimed-IsHonest state r free receipts attempts =
      rw (receipts, attempts)
        (claim-IsHonest (receipt_for c e a r) a
          (record a { state = state; external_ref = e.external_ref }) s.receipts s.attempts there
          refl free good refl fresh h)

  refuse-IsHonest :
      refuse_payment c e a (add_receipt (receipt_for c e a receipt_refund_required) s) ≡ ok s'
      → IsHonest s'.receipts s'.attempts
  unfolding refuse_payment
  refuse-IsHonest k =
      let r = receipt_for c e a receipt_refund_required in
      let t = add_receipt r s in
      let first = fail_waiting a.order_id a t >>= λ u. claim_attempt c e a refund_required u in
      elim (Bool-cases (a.external_ref == "")) [
        | inl free ↦
            let f =
              >>=-eq-ok (fail_waiting a.order_id a t) (λ u. claim_attempt c e a refund_required u)
                (if_true first (ok t) free k) in
            let rest = fail_waiting-Rest a.order_id a t f.0 f.1 in
            let w = claim_attempt-ok c e a refund_required f.0 s' f.2 in
            claimed-IsHonest refund_required receipt_refund_required free (w.0 ∙ rest.receipts) (
              w.1
              ∙ ap
                  (λ x.
                    insert a.id
                      (record a { state = refund_required; external_ref = e.external_ref }) x)
                  rest.attempts)
        | inr used ↦
            let same : t ≡ s' = ok-same t s' (if_false first (ok t) used k) in
            subst (λ x. IsHonest x.receipts x.attempts) same
              (add-IsHonest r s.receipts s.attempts refl fresh h)
      ]

  claim-keeps :
      (x : Option Refusal)
      → claim_reason c e a s.orders ≡ x
      → claim_payment c e a x s ≡ ok s'
      → IsHonest s'.receipts s'.attempts
  unfolding claim_payment
  claim-keeps none reason k =
      let w = claim_attempt-ok c e a paid (add_receipt (receipt_for c e a verified) s) s' k in
      claimed-IsHonest paid verified (claim_reason-IsUsable c e a s.orders reason).unclaimed w.0 w.1
  claim-keeps (some r) reason k = refuse-IsHonest k

receive-IsHonest :
    (c : Callback) (e : VerifiedEvent) (named : Option PaymentAttempt) (s s' : Shop)
    → (e.external_ref == "") ≡ false
    → any (same_transaction c.scope e.external_ref) s.receipts ≡ false
    → receive c e named s ≡ ok s'
    → IsHonest s.receipts s.attempts
    → IsHonest s'.receipts s'.attempts
unfolding receive
receive-IsHonest c e none s s' good fresh k h =
    subst (λ x. IsHonest x.receipts x.attempts)
      (ok-same (add_receipt (receipt_of c e review_required) s) s' k)
      (add-IsHonest (receipt_of c e review_required) s.receipts s.attempts refl fresh h)
receive-IsHonest c e (some found) s s' good fresh k h =
    let p = >>=-eq-ok (or_fail (lookup found.id s.attempts) no_rows) _ k in
    let row = or_fail-some (lookup found.id s.attempts) no_rows p.0 p.1 in
    let own = subst (λ x. lookup x s.attempts ≡ some p.0) (sym (h.keyed found.id p.0 row)) row in
    claim-keeps c e p.0 s s' good fresh own h (claim_reason c e p.0 s.orders) refl p.2

-- A callback that goes through, on each of its branches.
record-keeps :
    (c : Callback) (e : VerifiedEvent) (t t' : Till)
    → record_payment_event c e t ≡ ok t'
    → IsHonest t.shop.receipts t.shop.attempts
    → IsHonest t'.shop.receipts t'.shop.attempts
unfolding record_payment_event record_new
record-keeps c e t t' k h =
    let known = record t { events = event_row c e duplicate ∷ t.events } in
    let new = record_new c e t in
    let third =
      if any (same_transaction c.scope e.external_ref) t.shop.receipts then ok known else new in
    let second = if any (same_event_row c e) t.events then ok t else third in
    elim (Bool-cases (not (good_event e))) [
      | inl bad ↦ cc (if_true (err bad_payment) second bad k)
      | inr good ↦
          let k2 = if_false (err bad_payment) second good k in
          elim (Bool-cases (any (same_event_row c e) t.events)) [
            | inl again ↦
                subst (λ x. IsHonest x.shop.receipts x.shop.attempts)
                  (ok-till t t' (if_true (ok t) third again k2)) h
            | inr unseen ↦
                let k3 = if_false (ok t) third unseen k2 in
                elim (Bool-cases (any (same_transaction c.scope e.external_ref) t.shop.receipts)) [
                  | inl double ↦
                      subst (λ x. IsHonest x.shop.receipts x.shop.attempts)
                        (ok-till known t' (if_true (ok known) new double k3)) h
                  | inr fresh ↦
                      let k4 = if_false (ok known) new fresh k3 in
                      let g =
                        guard-eq-ok (not (any (λ r. r.id == c.receipt_id) t.shop.receipts))
                          unique_violation _ k4 in
                      let p =
                        >>=-eq-ok
                          (receive c e (newest c.order (named_by c e) t.shop.attempts) t.shop) _
                          g.1 in
                      subst (λ x. IsHonest x.shop.receipts x.shop.attempts) (ok-till _ t' p.2)
                        (receive-IsHonest c e (newest c.order (named_by c e) t.shop.attempts) t.shop
                          p.0 (good_ref e good) fresh p.1 h)
                ]
          ]
    ]

-- Callbacks of providers and rounds of the worker.
pub data Step : Till → Till → Type 0 where
  receives :
      {t t' : Till} (c : Callback) (e : VerifiedEvent)
      → record_payment_event c e t ≡ ok t'
      → Step t t'
  reconciles :
      {t : Till} (f : Office) (id : String) (s : Shop)
      → reconcile_payment_receipt f id t.shop ≡ ok s
      → Step t (record t { shop = s })

pub data Reaches : Till → Till → Type 0 where
  here : {t : Till} → Reaches t t
  next : {t u v : Till} → Reaches t u → Step u v → Reaches t v

Step-IsHonest :
    {t t' : Till}
    → Step t t'
    → IsHonest t.shop.receipts t.shop.attempts
    → IsHonest t'.shop.receipts t'.shop.attempts
Step-IsHonest {t} {t'} (receives c e k) h = record-keeps c e t t' k h
Step-IsHonest {t} (reconciles f id s k) h =
    Keeps-IsHonest t.shop s (reconcile-Keeps f id t.shop s k) h

-- Whatever callbacks and reconciliations run, in whatever order: if at first each attempt was
-- honoured by at most one receipt, and by none before it had been claimed, no two receipts carried
-- one transaction of an account, and attempts stood under their own names, then so it is
-- afterwards.
pub Reaches-IsHonest :
    {t t' : Till}
    → Reaches t t'
    → IsHonest t.shop.receipts t.shop.attempts
    → IsHonest t'.shop.receipts t'.shop.attempts
Reaches-IsHonest here h = h
Reaches-IsHonest (next r st) h = Step-IsHonest st (Reaches-IsHonest r h)
