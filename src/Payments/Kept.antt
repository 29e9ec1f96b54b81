-- ===== src/Payments/Kept.antt =====
-- What reconciling a payment (controlplane/payment_receipts.go) leaves as it was.
use guangyue_panel.Prelude.{
  ◌≡◌, refl, sym, subst, ap, String, Option, none, some, if_true, if_false, ◌==◌, nat_eq, string_eq,
  lookup, Bool-cases, inl, inr, Result, ok, >>=-eq-ok,
}
use guangyue_panel.Wallet.{post_money}
use guangyue_panel.Commerce.{
  Order, pending, failed, Shop, PaymentAttempt, PaymentReceipt, applied, receipt_refund_required,
  save_order, refund_required, attempt_completed,
}
use guangyue_panel.Commerce.Confirm.{
  Request, confirm_order, hold_movement, confirmed_order, confirmed_user,
}
use guangyue_panel.Commerce.Confirm.Proofs.{confirm_order-ok}
use guangyue_panel.Payments.{waits_for, fail_row, fail_waiting}
use guangyue_panel.Payments.Reconcile.{
  Office, move_receipt, move_attempt, apply_receipt, topup_movement, post_topup,
  reconcile_payment_receipt,
}
use guangyue_panel.Payments.Once.{
  Keeps, Keeps-trans, Rest, Rest-Keeps, apply-Keeps, attempt-Keeps, save-Rest, settle-Rest,
}
use guangyue_panel.Payments.Reconciled.{
  Reconciled, idle, served, confirmed, credited, refunded, refunded_marks, reconcile-Reconciled,
}

same-Rest : (s s' : Shop) → s ≡ s' → Rest s s'
same-Rest s s' e = record {
  receipts = ap (λ x. x.receipts) (sym e);
  attempts = ap (λ x. x.attempts) (sym e);
}

ok-Rest : (s s' : Shop) → ◌≡◌ {A = Result Shop} (ok s) (ok s') → Rest s s'
ok-Rest s s' h = same-Rest s s' (cc h)

ok-Keeps : (s t s' : Shop) → Keeps s t → ◌≡◌ {A = Result Shop} (ok t) (ok s') → Keeps s s'
ok-Keeps s t s' k h = subst (Keeps s) (cc h) k

fail_row-Rest :
    (a : PaymentAttempt) (o : Option Order) (s s' : Shop) → fail_row a o s ≡ ok s' → Rest s s'
fail_row-Rest a none s s' h = ok-Rest s s' h
fail_row-Rest a (some o) s s' h = elim (Bool-cases (waits_for a o)) [
  | inl waits ↦ save-Rest (record o { state = failed }) pending s s' (if_true _ (ok s) waits h)
  | inr others ↦
      ok-Rest s s' (if_false (save_order (record o { state = failed }) pending s) _ others h)
]

pub fail_waiting-Rest :
    (order : String) (a : PaymentAttempt) (s s' : Shop) → fail_waiting order a s ≡ ok s' → Rest s s'
unfolding fail_waiting
fail_waiting-Rest order a s s' h = elim (Bool-cases (order == "")) [
  | inl topup ↦ ok-Rest s s' (if_true (ok s) (fail_row a (lookup order s.orders) s) topup h)
  | inr named ↦
      fail_row-Rest a (lookup order s.orders) s s'
        (if_false (ok s) (fail_row a (lookup order s.orders) s) named h)
]

pub confirm-Rest : (r : Request) (s s' : Shop) → confirm_order r s ≡ ok s' → Rest s s'
confirm-Rest r s s' h =
    let (o, u, order_there, user_there, c, done) = confirm_order-ok r s s' h in
    settle-Rest (hold_movement r o u) (confirmed_order r o u) o.state (confirmed_user r o u) s s'
      done

post_topup-Keeps :
    (transaction : String) (r : PaymentReceipt) (a : PaymentAttempt) (s s' : Shop)
    → post_topup transaction r a s ≡ ok s'
    → Keeps s s'
unfolding post_topup
post_topup-Keeps transaction r a s s' h =
    let p = >>=-eq-ok (post_money (topup_movement transaction r a) s.ledger) _ h in
    let paid' = record s { ledger = p.0.1 } in
    let receipts = record paid' { receipts = move_receipt r.id applied s.receipts } in
    let attempts = record receipts {
      attempts = move_attempt a.id r.external_ref attempt_completed s.attempts;
    } in
    ok-Keeps s attempts s'
      (Keeps-trans s paid' attempts
        (Rest-Keeps s paid' (record { receipts = refl; attempts = refl }))
        (Keeps-trans paid' receipts attempts (apply-Keeps r.id applied paid')
          (attempt-Keeps a.id r.external_ref attempt_completed receipts)))
      p.2

marks-Keeps : (r : PaymentReceipt) (a : PaymentAttempt) (s : Shop) → Keeps s (refunded_marks r a s)
marks-Keeps r a s =
    let receipts = record s { receipts = move_receipt r.id receipt_refund_required s.receipts } in
    Keeps-trans s receipts (refunded_marks r a s) (apply-Keeps r.id receipt_refund_required s)
      (attempt-Keeps a.id r.external_ref refund_required receipts)

Reconciled-Keeps : (id : String) (s s' : Shop) → Reconciled id s s' → Keeps s s'
Reconciled-Keeps id s s' (idle used same) = Rest-Keeps s s' (same-Rest s s' (sym same))
Reconciled-Keeps id s s' (served same) = subst (Keeps s) (sym same) (apply-Keeps id applied s)
Reconciled-Keeps id s s' (confirmed q t done same) = subst (Keeps s) (sym same) (
    Keeps-trans s t (apply_receipt id t) (Rest-Keeps s t (confirm-Rest q s t done))
      (apply-Keeps id applied t))
Reconciled-Keeps id s s' (credited transaction r a own done) =
    post_topup-Keeps transaction r a s s' done
Reconciled-Keeps id s s' (refunded r a own done) =
    Keeps-trans s (refunded_marks r a s) s' (marks-Keeps r a s) (
      Rest-Keeps (refunded_marks r a s) s'
        (fail_waiting-Rest r.order_id a (refunded_marks r a s) s' done))

pub reconcile-Keeps :
    (f : Office) (id : String) (s s' : Shop) → reconcile_payment_receipt f id s ≡ ok s' → Keeps s s'
reconcile-Keeps f id s s' h = Reconciled-Keeps id s s' (reconcile-Reconciled f id s s' h)
