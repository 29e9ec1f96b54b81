-- ===== src/Payments/Reconciled.antt =====
-- What reconciling a payment (controlplane/payment_receipts.go) comes to, on every branch.
use guangyue_panel.Prelude.{
  ◌≡◌, ◌∙◌, refl, subst, ap, String, Bool, true, false, not, Option, none, some, List, [], ◌∷◌,
  if◌then◌else◌, if_true, if_false, ◌==◌, nat_eq, string_eq, lookup, Bool-cases, inl, inr, Result,
  ok, err, or_fail, arith, >>=-eq-ok, no_rows, conflict, Error, ledger_mismatch,
}
use guangyue_panel.Domain.Account.{User}
use guangyue_panel.Commerce.{
  Order, pending, same_state, Shop, PaymentAttempt, PaymentReceipt, receipt_refund_required,
  refund_required,
}
use guangyue_panel.Commerce.Confirm.{Request, confirm_order}
use guangyue_panel.Payments.{fail_waiting}
use guangyue_panel.Payments.Reconcile.{
  Office, find_receipt, move_receipt, move_attempt, is_verified, apply_receipt, in_use,
  refund_or_apply, payment_refund_required, post_topup, credit_payment_topup, can_be_credited,
  still_verified, or_refund, apply_after, is_full, serve_order, is_used, chain_waits, use_for_order,
  use_payment, use_for_user, reconcile_verified, is_over, with_attempt, reconcile_payment_receipt,
}
use guangyue_panel.Payments.Claims.{or_fail-some}

pub err-ok : (e : Error) (s : Shop) → ◌≡◌ {A = Result Shop} (err e) (ok s) → ⊥
err-ok e s h = cc h

pub find_receipt-id :
    (id : String) (receipts : List PaymentReceipt) (r : PaymentReceipt)
    → find_receipt id receipts ≡ some r
    → r.id ≡ id
unfolding find_receipt
find_receipt-id id [] r h = cc h
find_receipt-id id (x ∷ xs) r h =
    ground (arith, h, string_eq.beq_iff x.id id, find_receipt-id id xs r)

abbrev pub refunded_marks : PaymentReceipt → PaymentAttempt → Shop → Shop
refunded_marks r a s = record s {
  receipts = move_receipt r.id receipt_refund_required s.receipts;
  attempts = move_attempt a.id r.external_ref refund_required s.attempts;
}

-- The outcomes: the receipt had been used, its order is served, its order has now been confirmed, a
-- top-up has been credited, or the provider is to refund it.
pub data Reconciled (id : String) (s s' : Shop) : Type 0 where
  idle : still_verified id s.receipts ≡ false → s' ≡ s → Reconciled id s s'
  served : s' ≡ apply_receipt id s → Reconciled id s s'
  confirmed :
      (q : Request) (t : Shop)
      → confirm_order q s ≡ ok t
      → s' ≡ apply_receipt id t
      → Reconciled id s s'
  credited :
      (transaction : String) (r : PaymentReceipt) (a : PaymentAttempt)
      → r.id ≡ id
      → post_topup transaction r a s ≡ ok s'
      → Reconciled id s s'
  refunded :
      (r : PaymentReceipt) (a : PaymentAttempt)
      → r.id ≡ id
      → fail_waiting r.order_id a (refunded_marks r a s) ≡ ok s'
      → Reconciled id s s'

ok-eq : (t s' : Shop) → ◌≡◌ {A = Result Shop} (ok t) (ok s') → s' ≡ t
ok-eq t s' h = cc h

not_verified :
    (id : String) (receipts : List PaymentReceipt) (r : PaymentReceipt)
    → find_receipt id receipts ≡ some r
    → is_verified r.state ≡ false
    → still_verified id receipts ≡ false
not_verified id receipts r found old = rw (still_verified, found) old

is_false : (b : Bool) → not b ≡ true → b ≡ false
is_false b h = ground (arith, h)

refund_or_apply-Reconciled :
    (id : String) (r : PaymentReceipt) (a : PaymentAttempt) (s s' : Shop)
    → find_receipt id s.receipts ≡ some r
    → refund_or_apply r a s ≡ ok s'
    → Reconciled id s s'
unfolding refund_or_apply
refund_or_apply-Reconciled id r a s s' found h =
    let same = find_receipt-id id s.receipts r found in
    let refund = fail_waiting r.order_id a (refunded_marks r a s) in
    let later = if not (is_verified r.state) then ok s else refund in
    elim (Bool-cases (in_use r a s.orders)) [
      | inl used ↦ served (
          ok-eq (apply_receipt r.id s) s' (if_true (ok (apply_receipt r.id s)) later used h)
          ∙ ap (λ x. apply_receipt x s) same)
      | inr unused ↦
          let k = if_false (ok (apply_receipt r.id s)) later unused h in
          elim (Bool-cases (not (is_verified r.state))) [
            | inl over ↦
                idle (not_verified id s.receipts r found (is_false (is_verified r.state) over))
                  (ok-eq s s' (if_true (ok s) refund over k))
            | inr new ↦ refunded r a same (if_false (ok s) refund new k)
          ]
    ]

payment_refund_required-Reconciled :
    (id : String) (s s' : Shop) → payment_refund_required id s ≡ ok s' → Reconciled id s s'
unfolding payment_refund_required
payment_refund_required-Reconciled id s s' h =
    let r = >>=-eq-ok (or_fail (find_receipt id s.receipts) no_rows) _ h in
    let a = >>=-eq-ok (or_fail (lookup r.0.attempt_id s.attempts) no_rows) _ r.2 in
    refund_or_apply-Reconciled id r.0 a.0 s s'
      (or_fail-some (find_receipt id s.receipts) no_rows r.0 r.1) a.2

credit-Reconciled :
    (transaction : String) (r : PaymentReceipt) (a : PaymentAttempt) (s s' : Shop)
    → credit_payment_topup transaction r a s ≡ ok s'
    → Reconciled r.id s s'
unfolding credit_payment_topup
credit-Reconciled transaction r a s s' h =
    let post = post_topup transaction r a s in
    let rest = if still_verified r.id s.receipts then post else ok s in
    elim (Bool-cases (not (can_be_credited a.state))) [
      | inl over ↦ absurd (err-ok conflict s' (if_true (err conflict) rest over h))
      | inr open_attempt ↦
          let k = if_false (err conflict) rest open_attempt h in
          elim (Bool-cases (still_verified r.id s.receipts)) [
            | inl new ↦ credited transaction r a refl (if_true post (ok s) new k)
            | inr used ↦ idle used (ok-eq s s' (if_false post (ok s) used k))
          ]
    ]

-- A step, or the refund that follows its failure.
or_refund-Reconciled :
    (refused : Error → Bool) (id : String) (s s' : Shop) (x : Result Shop)
    → ((t : Shop) → x ≡ ok t → Reconciled id s t)
    → or_refund refused id s x ≡ ok s'
    → Reconciled id s s'
or_refund-Reconciled refused id s s' (ok t) k h = subst (Reconciled id s) (cc h) (k t refl)
or_refund-Reconciled refused id s s' (err e) k h = elim (Bool-cases (refused e)) [
  | inl no' ↦
      payment_refund_required-Reconciled id s s'
        (if_true (payment_refund_required id s) (err e) no' h)
  | inr broken ↦ absurd (err-ok e s' (if_false (payment_refund_required id s) (err e) broken h))
]

apply_after-Reconciled :
    (id : String) (q : Request) (s s' : Shop) (x : Result Shop)
    → confirm_order q s ≡ x
    → apply_after id x ≡ ok s'
    → Reconciled id s s'
apply_after-Reconciled id q s s' (ok t) done h =
    confirmed q t done (ok-eq (apply_receipt id t) s' h)
apply_after-Reconciled id q s s' (err e) done h = absurd (err-ok e s' h)

serve_order-Reconciled :
    (f : Office) (id : String) (a : PaymentAttempt) (o : Order) (u : User) (s s' : Shop)
    → serve_order f id a o u s ≡ ok s'
    → Reconciled id s s'
unfolding serve_order
serve_order-Reconciled f id a o u s s' h =
    let confirming = confirm_order (f.request_for o u a) s in
    let first = or_refund f.refused id s (apply_after id confirming) in
    let refund = payment_refund_required id s in
    let rest = if is_used o.state then ok (apply_receipt id s) else refund in
    elim (Bool-cases (same_state o.state pending)) [
      | inl waits ↦
          or_refund-Reconciled f.refused id s s' (apply_after id confirming)
            (λ t e. apply_after-Reconciled id (f.request_for o u a) s t confirming refl e)
            (if_true first rest waits h)
      | inr moved ↦
          let k = if_false first rest moved h in
          elim (Bool-cases (is_used o.state)) [
            | inl used ↦
                served
                  (ok-eq (apply_receipt id s) s' (if_true (ok (apply_receipt id s)) refund used k))
            | inr over ↦
                payment_refund_required-Reconciled id s s'
                  (if_false (ok (apply_receipt id s)) refund over k)
          ]
    ]

use_for_order-Reconciled :
    (f : Office) (id : String) (a : PaymentAttempt) (u : User) (o : Option Order) (s s' : Shop)
    → use_for_order f id a u o s ≡ ok s'
    → Reconciled id s s'
unfolding use_for_order
use_for_order-Reconciled f id a u none s s' h = payment_refund_required-Reconciled id s s' h
use_for_order-Reconciled f id a u (some o) s s' h =
    let refund = payment_refund_required id s in
    let serve = serve_order f id a o u s in
    let rest = if chain_waits f a o then err conflict else serve in
    elim (Bool-cases (not (o.attempt_id == a.id))) [
      | inl other ↦ payment_refund_required-Reconciled id s s' (if_true refund rest other h)
      | inr own ↦
          let k = if_false refund rest own h in
          elim (Bool-cases (chain_waits f a o)) [
            | inl waits ↦ absurd (err-ok conflict s' (if_true (err conflict) serve waits k))
            | inr ready ↦
                serve_order-Reconciled f id a o u s s' (if_false (err conflict) serve ready k)
          ]
    ]

use_payment-Reconciled :
    (f : Office) (r : PaymentReceipt) (a : PaymentAttempt) (u : User) (s s' : Shop)
    → use_payment f r a u s ≡ ok s'
    → Reconciled r.id s s'
unfolding use_payment
use_payment-Reconciled f r a u s s' h =
    let credit = credit_payment_topup f.transaction r a s in
    let topup = or_refund is_full r.id s credit in
    let order = use_for_order f r.id a u (lookup a.order_id s.orders) s in
    elim (Bool-cases (a.purpose == "topup")) [
      | inl is_topup ↦
          or_refund-Reconciled is_full r.id s s' credit
            (λ t e. credit-Reconciled f.transaction r a s t e) (if_true topup order is_topup h)
      | inr is_order ↦
          use_for_order-Reconciled f r.id a u (lookup a.order_id s.orders) s s'
            (if_false topup order is_order h)
    ]

use_for_user-Reconciled :
    (f : Office) (r : PaymentReceipt) (a : PaymentAttempt) (u : Option User) (s s' : Shop)
    → use_for_user f r a u s ≡ ok s'
    → Reconciled r.id s s'
unfolding use_for_user
use_for_user-Reconciled f r a none s s' h = payment_refund_required-Reconciled r.id s s' h
use_for_user-Reconciled f r a (some u) s s' h =
    let serve = use_payment f r a u s in
    let refund = payment_refund_required r.id s in
    elim (Bool-cases u.enabled) [
      | inl enabled ↦ use_payment-Reconciled f r a u s s' (if_true serve refund enabled h)
      | inr disabled ↦
          payment_refund_required-Reconciled r.id s s' (if_false serve refund disabled h)
    ]

reconcile_verified-Reconciled :
    (f : Office) (r : PaymentReceipt) (a : PaymentAttempt) (s s' : Shop)
    → reconcile_verified f r a s ≡ ok s'
    → Reconciled r.id s s'
unfolding reconcile_verified
reconcile_verified-Reconciled f r a s s' h =
    let refund = payment_refund_required r.id s in
    let serve = use_for_user f r a (lookup a.user_id s.users) s in
    let rest = if f.blocked then err ledger_mismatch else serve in
    elim (Bool-cases (is_over a.state)) [
      | inl over ↦ payment_refund_required-Reconciled r.id s s' (if_true refund rest over h)
      | inr running ↦
          let k = if_false refund rest running h in
          elim (Bool-cases f.blocked) [
            | inl blocked ↦
                absurd (err-ok ledger_mismatch s' (if_true (err ledger_mismatch) serve blocked k))
            | inr free ↦
                use_for_user-Reconciled f r a (lookup a.user_id s.users) s s'
                  (if_false (err ledger_mismatch) serve free k)
          ]
    ]

-- What reconciling a payment comes to.
pub reconcile-Reconciled :
    (f : Office) (id : String) (s s' : Shop)
    → reconcile_payment_receipt f id s ≡ ok s'
    → Reconciled id s s'
unfolding reconcile_payment_receipt with_attempt
reconcile-Reconciled f id s s' h =
    let r = >>=-eq-ok (or_fail (find_receipt id s.receipts) no_rows) _ h in
    let found = or_fail-some (find_receipt id s.receipts) no_rows r.0 r.1 in
    let use' = with_attempt f r.0 s in
    elim (Bool-cases (is_verified r.0.state)) [
      | inl new ↦
          let a =
            >>=-eq-ok (or_fail (lookup r.0.attempt_id s.attempts) no_rows) _
              (if_true use' (ok s) new r.2) in
          subst (λ x. Reconciled x s s') (find_receipt-id id s.receipts r.0 found)
            (reconcile_verified-Reconciled f r.0 a.0 s s' a.2)
      | inr old ↦
          idle (not_verified id s.receipts r.0 found old)
            (ok-eq s s' (if_false use' (ok s) old r.2))
    ]
