-- ===== src/Payments/Repeated.antt =====
-- Reconciling a payment a second time (controlplane/payment_receipts.go).
use guangyue_panel.Prelude.{
  ◌≡◌, ◌∙◌, refl, sym, subst, ap, String, false, Option, some, List, [], ◌∷◌, if◌then◌else◌, ◌==◌,
  nat_eq, string_eq, arith, Bool-cases, inl, inr, ok, or_fail, >>=-eq-ok, no_rows, if_true,
  if_false,
}
use guangyue_panel.Wallet.{post_money}
use guangyue_panel.Commerce.{
  Shop, PaymentAttempt, PaymentReceipt, ReceiptState, applied, receipt_refund_required,
}
use guangyue_panel.Payments.Reconcile.{
  Office, find_receipt, move_receipt, is_verified, still_verified, post_topup, topup_movement,
  reconcile_payment_receipt,
}
use guangyue_panel.Payments.Claims.{or_fail-some}
use guangyue_panel.Payments.Reconciled.{
  Reconciled, idle, served, confirmed, credited, refunded, refunded_marks, reconcile-Reconciled,
}
use guangyue_panel.Payments.Kept.{confirm-Rest, fail_waiting-Rest}

abbrev moved_receipt : ReceiptState → PaymentReceipt → PaymentReceipt
moved_receipt state r = if is_verified r.state then record r { state = state } else r

-- The receipt after it has been moved.
find-move :
    (id : String) (state : ReceiptState) (receipts : List PaymentReceipt) (r : PaymentReceipt)
    → find_receipt id receipts ≡ some r
    → find_receipt id (move_receipt id state receipts) ≡ some (moved_receipt state r)
unfolding find_receipt move_receipt
find-move id state [] r h = cc h
find-move id state (x ∷ xs) r h =
    let ih = find-move id state xs r in
    elim (Bool-cases (x.id == id)) [
      | inl own ↦
          let e : ◌≡◌ {A = Option PaymentReceipt} (some x) (some r) =
            if_true (some x) (find_receipt id xs) own h in
          let same : x ≡ r = cc e in
          elim (Bool-cases (is_verified x.state)) [
            | inl new ↦
                let m : moved_receipt state x ≡ record x { state = state } = rw new refl in
                rw own (rw new (rw own (ap some (sym m ∙ ap (moved_receipt state) same))))
            | inr old ↦
                let m : moved_receipt state x ≡ x = rw old refl in
                rw own (rw old (rw own (ap some (sym m ∙ ap (moved_receipt state) same))))
          ]
      | inr other ↦
          let k : find_receipt id xs ≡ some r = if_false (some x) (find_receipt id xs) other h in
          rw other (rw other (ih k))
    ]

moved-used :
    (state : ReceiptState) (r : PaymentReceipt)
    → is_verified state ≡ false
    → is_verified (moved_receipt state r).state ≡ false
moved-used state r h = ground (arith, h)

-- A receipt that is there and has been used.
abbrev IsUsed : String → List PaymentReceipt → Type 0
IsUsed id receipts =
    (r : PaymentReceipt) × (find_receipt id receipts ≡ some r) × (is_verified r.state ≡ false)

idle_receipt-IsUsed :
    (id : String) (receipts : List PaymentReceipt) (r : PaymentReceipt)
    → find_receipt id receipts ≡ some r
    → still_verified id receipts ≡ false
    → IsUsed id receipts
idle_receipt-IsUsed id receipts r found old =
    (r, found, sym (rw (still_verified, found) refl) ∙ old)

moved_receipt-IsUsed :
    (id : String) (state : ReceiptState) (s s' : Shop) (r : PaymentReceipt)
    → find_receipt id s.receipts ≡ some r
    → is_verified state ≡ false
    → s'.receipts ≡ move_receipt id state s.receipts
    → IsUsed id s'.receipts
moved_receipt-IsUsed id state s s' r found dead same = (
  moved_receipt state r,
  ap (find_receipt id) same ∙ find-move id state s.receipts r found,
  moved-used state r dead,
)

post_topup-receipts :
    (transaction : String) (r : PaymentReceipt) (a : PaymentAttempt) (s s' : Shop)
    → post_topup transaction r a s ≡ ok s'
    → s'.receipts ≡ move_receipt r.id applied s.receipts
unfolding post_topup
post_topup-receipts transaction r a s s' h =
    let p = >>=-eq-ok (post_money (topup_movement transaction r a) s.ledger) _ h in cc p.2

Reconciled-IsUsed :
    (id : String) (s s' : Shop) (r : PaymentReceipt)
    → find_receipt id s.receipts ≡ some r
    → Reconciled id s s'
    → IsUsed id s'.receipts
Reconciled-IsUsed id s s' r found (idle used same) =
    subst (λ x. IsUsed id x.receipts) (sym same) (idle_receipt-IsUsed id s.receipts r found used)
Reconciled-IsUsed id s s' r found (served same) =
    moved_receipt-IsUsed id applied s s' r found refl (ap (λ x. x.receipts) same)
Reconciled-IsUsed id s s' r found (confirmed q t done same) =
    moved_receipt-IsUsed id applied s s' r found refl
      (ap (λ x. x.receipts) same ∙ ap (move_receipt id applied) (confirm-Rest q s t done).receipts)
Reconciled-IsUsed id s s' r found (credited transaction p a own done) =
    moved_receipt-IsUsed id applied s s' r found refl (
      post_topup-receipts transaction p a s s' done
      ∙ ap (λ x. move_receipt x applied s.receipts) own)
Reconciled-IsUsed id s s' r found (refunded p a own done) =
    moved_receipt-IsUsed id receipt_refund_required s s' r found refl (
      (fail_waiting-Rest p.order_id a (refunded_marks p a s) s' done).receipts
      ∙ ap (λ x. move_receipt x receipt_refund_required s.receipts) own)

IsUsed-idle :
    (f : Office) (id : String) (s : Shop)
    → IsUsed id s.receipts
    → reconcile_payment_receipt f id s ≡ ok s
unfolding reconcile_payment_receipt
IsUsed-idle f id s (r, found, used) = rw found (rw used refl)

-- After a reconciliation of a receipt that has gone through, another one of it goes through and
-- changes nothing, whatever the installation answers then.
pub reconcile_payment_receipt-again :
    (f g : Office) (id : String) (s s' : Shop)
    → reconcile_payment_receipt f id s ≡ ok s'
    → reconcile_payment_receipt g id s' ≡ ok s'
unfolding reconcile_payment_receipt
reconcile_payment_receipt-again f g id s s' h =
    let r = >>=-eq-ok (or_fail (find_receipt id s.receipts) no_rows) _ h in
    let found = or_fail-some (find_receipt id s.receipts) no_rows r.0 r.1 in
    IsUsed-idle g id s' (Reconciled-IsUsed id s s' r.0 found (reconcile-Reconciled f id s s' h))
