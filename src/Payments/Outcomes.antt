-- ===== src/Payments/Outcomes.antt =====
-- What a callback of a provider comes to: the branches of `recordPaymentEvent`
-- (controlplane/payment_receipts.go) against the acceptance of a payment.
use guangyue_panel.Prelude.{
  ◌≡◌, ◌≢◌, ◌⊎◌, ◌∙◌, refl, sym, subst, ap, String, Bool, true, false, not, Option, none, some, Map,
  ◌∷◌, if◌then◌else◌, if_true, if_false, ◌==◌, nat_eq, string_eq, lookup, insert, arith, Bool-cases,
  inl, inr, any, Result, ok, err, ◌>>=◌, or_fail, >>=-eq-ok, guard-eq-ok, no_rows, unique_violation,
  bad_payment, conflict,
}
use guangyue_panel.Commerce.{
  Order, pending, failed, same_state, save_order, Shop, PaymentAttempt, AttemptState, paid,
  refund_required, verified, receipt_refund_required, review_required,
}
use guangyue_panel.Commerce.Moves.{same_state-eq}
use guangyue_panel.Payments.{
  Callback, VerifiedEvent, Till, Refusal, same_transaction, same_event_row, event_row, duplicate,
  recorded, good_event, taken, waits_for, fail_row, fail_waiting, claim_attempt, refuse_payment,
  claim_payment, claim_reason, receive, receipt_of, receipt_for, add_receipt, record_new,
  record_payment_event, newest, named_by,
}
use guangyue_panel.Payments.Claims.{
  IsUsable, claim_reason-IsUsable, IsUsable-claim_reason, or_fail-some,
}
use guangyue_panel.Payments.Receipts.{ok-same, ok-till}

-- The row of an attempt that a payment has taken.
abbrev pub taken_by : VerifiedEvent → AttemptState → PaymentAttempt → PaymentAttempt
taken_by e state a = record a { state = state; external_ref = e.external_ref }

-- No order of this payment is pending on it.
abbrev pub NoneWaits : String → PaymentAttempt → Map String Order → Type 0
NoneWaits order a orders =
    (o : Order)
    → order ≢ ""
    → lookup order orders ≡ some o
    → o.attempt_id ≡ a.id
    → o.state ≡ pending
    → ⊥

-- The order that waited for this payment has failed; the orders stay only if none waited.
abbrev pub FailsWaiting : PaymentAttempt → Map String Order → Map String Order → Type 0
FailsWaiting a orders orders' =
    ((orders' ≡ orders) × NoneWaits a.order_id a orders)
    ⊎ ((o : Order) × (lookup a.order_id orders ≡ some o)
        × (o.attempt_id ≡ a.id)
        × (o.state ≡ pending)
        × (orders' ≡ insert o.id (record o { state = failed }) orders))

-- The row of the attempt that a callback names.
abbrev pub IsNamed : Option PaymentAttempt → Shop → PaymentAttempt → Type 0
IsNamed named s a =
    (found : PaymentAttempt) × (named ≡ some found)
    × (lookup found.id s.attempts ≡ some a)
    × (a.id ≡ found.id)

pub data Receives (c : Callback) (e : VerifiedEvent) (named : Option PaymentAttempt) (s s' : Shop)
    : Type 0 where
  unknown :
      named ≡ none → s' ≡ add_receipt (receipt_of c e review_required) s → Receives c e named s s'
  accepted :
      (a : PaymentAttempt)
      → IsNamed named s a
      → IsUsable c e a s.orders
      → (s' ≡ record s {
        receipts = receipt_for c e a verified ∷ s.receipts;
        attempts = insert a.id (taken_by e paid a) s.attempts;
      })
      → Receives c e named s s'
  refused :
      (a : PaymentAttempt) (orders : Map String Order)
      → IsNamed named s a
      → (IsUsable c e a s.orders → ⊥)
      → a.external_ref ≡ ""
      → FailsWaiting a s.orders orders
      → (s' ≡ record s {
        receipts = receipt_for c e a receipt_refund_required ∷ s.receipts;
        attempts = insert a.id (taken_by e refund_required a) s.attempts;
        orders = orders;
      })
      → Receives c e named s s'
  surplus :
      (a : PaymentAttempt)
      → IsNamed named s a
      → (a.external_ref ≡ "" → ⊥)
      → (s' ≡ record s { receipts = receipt_for c e a receipt_refund_required ∷ s.receipts })
      → Receives c e named s s'

pub data Outcome (c : Callback) (e : VerifiedEvent) (t t' : Till) : Type 0 where
  repeated : any (same_event_row c e) t.events ≡ true → t' ≡ t → Outcome c e t t'
  doubled :
      any (same_transaction c.scope e.external_ref) t.shop.receipts ≡ true
      → t' ≡ record t { events = event_row c e duplicate ∷ t.events }
      → Outcome c e t t'
  received :
      any (same_transaction c.scope e.external_ref) t.shop.receipts ≡ false
      → Receives c e (newest c.order (named_by c e) t.shop.attempts) t.shop t'.shop
      → t'.events ≡ event_row c e recorded ∷ t.events
      → Outcome c e t t'

pub claim_attempt-shop :
    (c : Callback) (e : VerifiedEvent) (a : PaymentAttempt) (state : AttemptState) (s s' : Shop)
    → claim_attempt c e a state s ≡ ok s'
    → s' ≡ record s { attempts = insert a.id (taken_by e state a) s.attempts }
unfolding claim_attempt
claim_attempt-shop c e a state s s' h =
    let g = guard-eq-ok (not (any (taken c e) s.attempts)) unique_violation _ h in
    sym (ok-same _ s' g.1)

save-failed :
    (o : Order) (s s' : Shop)
    → save_order (record o { state = failed }) pending s ≡ ok s'
    → s' ≡ record s { orders = insert o.id (record o { state = failed }) s.orders }
unfolding save_order
save-failed o s s' h =
    let r = >>=-eq-ok (or_fail (lookup o.id s.orders) conflict) _ h in
    let g = guard-eq-ok (same_state r.0.state pending) conflict _ r.2 in sym (ok-same _ s' g.1)

abbrev Fails : String → PaymentAttempt → Shop → Shop → Type 0
Fails order a s s' =
    ((s' ≡ s) × NoneWaits order a s.orders)
    ⊎ ((o : Order) × (lookup order s.orders ≡ some o)
        × (o.attempt_id ≡ a.id)
        × (o.state ≡ pending)
        × (s' ≡ record s { orders = insert o.id (record o { state = failed }) s.orders }))

fail_row-Fails :
    (order : String) (a : PaymentAttempt) (x : Option Order) (s s' : Shop)
    → lookup order s.orders ≡ x
    → fail_row a x s ≡ ok s'
    → Fails order a s s'
fail_row-Fails order a none s s' there h =
    inl (sym (ok-same s s' h), λ o given found own waiting. cc (there, found))
fail_row-Fails order a (some o) s s' there h =
    let save = save_order (record o { state = failed }) pending s in
    elim (Bool-cases (waits_for a o)) [
      | inl waits ↦ inr (
        o,
        there,
        ground (arith, waits, string_eq.beq_iff o.attempt_id a.id),
        same_state-eq o.state pending (ground (arith, waits)),
        save-failed o s s' (if_true save (ok s) waits h),
      )
      | inr others ↦ inl (
        sym (ok-same s s' (if_false save (ok s) others h)),
        λ o' given found own waiting.
            let same : o' ≡ o = ground (arith, there, found) in
            ground (arith, same, others, own, waiting, string_eq.beq_iff o.attempt_id a.id),
      )
    ]

fail_waiting-Fails :
    (order : String) (a : PaymentAttempt) (s s' : Shop)
    → fail_waiting order a s ≡ ok s'
    → Fails order a s s'
unfolding fail_waiting
fail_waiting-Fails order a s s' h =
    let row = fail_row a (lookup order s.orders) s in
    elim (Bool-cases (order == "")) [
      | inl empty ↦ inl (
        sym (ok-same s s' (if_true (ok s) row empty h)),
        λ o given found own waiting. given ((string_eq.beq_iff order "").0 empty),
      )
      | inr given ↦
          fail_row-Fails order a (lookup order s.orders) s s' refl (if_false (ok s) row given h)
    ]

refuse-Receives :
    (c : Callback) (e : VerifiedEvent) (named : Option PaymentAttempt) (a : PaymentAttempt)
    (s s' : Shop)
    → IsNamed named s a
    → (IsUsable c e a s.orders → ⊥)
    → refuse_payment c e a (add_receipt (receipt_for c e a receipt_refund_required) s) ≡ ok s'
    → Receives c e named s s'
unfolding refuse_payment
refuse-Receives c e named a s s' there unusable k =
    let t = add_receipt (receipt_for c e a receipt_refund_required) s in
    let take' = λ (u : Shop). claim_attempt c e a refund_required u in
    let first = fail_waiting a.order_id a t >>= take' in
    elim (Bool-cases (a.external_ref == "")) [
      | inl free ↦
          let f = >>=-eq-ok (fail_waiting a.order_id a t) take' (if_true first (ok t) free k) in
          let w = claim_attempt-shop c e a refund_required f.0 s' f.2 in
          let unclaimed = (string_eq.beq_iff a.external_ref "").0 free in
          elim (fail_waiting-Fails a.order_id a t f.0 f.1) [
            | inl (same, idle) ↦ refused a s.orders there unusable unclaimed (inl (refl, idle)) (
                w
                ∙ ap
                    (λ (u : Shop). record u {
                      attempts = insert a.id (taken_by e refund_required a) u.attempts;
                    })
                    same)
            | inr (o, found, own, waits, same) ↦
                refused a (insert o.id (record o { state = failed }) s.orders) there unusable
                  unclaimed (inr (o, found, own, waits, refl))
                  (w
                    ∙ ap
                        (λ (u : Shop). record u {
                          attempts = insert a.id (taken_by e refund_required a) u.attempts;
                        })
                        same)
          ]
      | inr used ↦
          surplus a there (λ e'. ground (arith, used, e', string_eq.beq_iff a.external_ref ""))
            (sym (ok-same t s' (if_false first (ok t) used k)))
    ]

claim-Receives :
    (c : Callback) (e : VerifiedEvent) (named : Option PaymentAttempt) (a : PaymentAttempt)
    (x : Option Refusal) (s s' : Shop)
    → IsNamed named s a
    → claim_reason c e a s.orders ≡ x
    → claim_payment c e a x s ≡ ok s'
    → Receives c e named s s'
unfolding claim_payment
claim-Receives c e named a none s s' there reason k =
    accepted a there (claim_reason-IsUsable c e a s.orders reason)
      (claim_attempt-shop c e a paid (add_receipt (receipt_for c e a verified) s) s' k)
claim-Receives c e named a (some r) s s' there reason k =
    refuse-Receives c e named a s s' there
      (λ u. cc (IsUsable-claim_reason c e a s.orders u, reason)) k

receive-Receives :
    (c : Callback) (e : VerifiedEvent) (named : Option PaymentAttempt) (s s' : Shop)
    → ((k : String) (a : PaymentAttempt) → lookup k s.attempts ≡ some a → a.id ≡ k)
    → receive c e named s ≡ ok s'
    → Receives c e named s s'
unfolding receive
receive-Receives c e none s s' keyed k = unknown refl (sym (ok-same _ s' k))
receive-Receives c e (some found) s s' keyed k =
    let p = >>=-eq-ok (or_fail (lookup found.id s.attempts) no_rows) _ k in
    let row = or_fail-some (lookup found.id s.attempts) no_rows p.0 p.1 in
    claim-Receives c e (some found) p.0 (claim_reason c e p.0 s.orders) s s'
      (found, refl, row, keyed found.id p.0 row) refl p.2

pub if_good :
    (good : Bool) (rest : Result Till) {t : Till}
    → (if not good then err bad_payment else rest) ≡ ok t
    → rest ≡ ok t
if_good true rest h = h
if_good false rest h = cc h

-- A callback that goes through, on attempts that stand under their own names, does one of these.
-- It was known by its name or its body, and changes nothing; its transaction has a receipt, and it
-- is noted as a duplicate; or a receipt is written. The receipt waits for a review if the newest
-- attempt that the callback names does not exist; it is verified, and the attempt paid, exactly if
-- the attempt is free, of the same account, amount and currency, payable, in time, and its order
-- waits for it; otherwise it is to be refunded, and if the attempt was free, the attempt is too
-- and the order that is pending on it, if there is one, has failed.
pub record_payment_event-Outcome :
    (c : Callback) (e : VerifiedEvent) (t t' : Till)
    → ((k : String) (a : PaymentAttempt) → lookup k t.shop.attempts ≡ some a → a.id ≡ k)
    → record_payment_event c e t ≡ ok t'
    → Outcome c e t t'
unfolding record_payment_event record_new
record_payment_event-Outcome c e t t' keyed k =
    let known = record t { events = event_row c e duplicate ∷ t.events } in
    let new = record_new c e t in
    let seen = any (same_transaction c.scope e.external_ref) t.shop.receipts in
    let third = if seen then ok known else new in
    let second = if any (same_event_row c e) t.events then ok t else third in
    let k2 = if_good (good_event e) second k in
    elim (Bool-cases (any (same_event_row c e) t.events)) [
      | inl again ↦ repeated again (sym (ok-till t t' (if_true (ok t) third again k2)))
      | inr first ↦
          let k3 = if_false (ok t) third first k2 in
          elim (Bool-cases seen) [
            | inl double ↦
                doubled double (sym (ok-till known t' (if_true (ok known) new double k3)))
            | inr fresh ↦
                let g =
                  guard-eq-ok (not (any (λ r. r.id == c.receipt_id) t.shop.receipts))
                    unique_violation _ (if_false (ok known) new fresh k3) in
                let named = newest c.order (named_by c e) t.shop.attempts in
                let p = >>=-eq-ok (receive c e named t.shop) _ g.1 in
                let done = ok-till _ t' p.2 in
                received fresh
                  (subst (λ x. Receives c e named t.shop x.shop) done
                    (receive-Receives c e named t.shop p.0 keyed p.1))
                  (ap (λ x. x.events) (sym done))
          ]
    ]
