-- ===== src/Payments/Books.antt =====
-- What reconciling a payment (controlplane/payment_receipts.go) does to money and orders.
use guangyue_panel.Prelude.{
  some, ◌≡◌, ◌∙◌, refl, sym, subst, ap, String, inl, inr, ok, >>=-eq-ok, ◌>>=◌, Result,
}
use guangyue_panel.Wallet.{Wallet, Ledger, post_money}
use guangyue_panel.Commerce.{Shop, PaymentAttempt, PaymentReceipt}
use guangyue_panel.Commerce.Confirm.Proofs.{confirm-Books}
use guangyue_panel.Commerce.Settle.{Books, charge, charge-Books}
use guangyue_panel.Commerce.Moves.{Writes}
use guangyue_panel.Commerce.Moves.Handlers.{confirm-Writes}
use guangyue_panel.Payments.{fail_waiting}
use guangyue_panel.Payments.Reconcile.{
  Office, apply_receipt, topup_movement, post_topup, reconcile_payment_receipt,
}
use guangyue_panel.Payments.Reconciled.{
  Reconciled, idle, served, confirmed, credited, refunded, refunded_marks, reconcile-Reconciled,
}
use guangyue_panel.Payments.Quiet.{
  IsQuiet, IsQuiet-Books, IsQuiet-Writes, fail_waiting-IsQuiet, from_added,
}
use guangyue_panel.Payments.Receipts.{ok-same}

apply-Books : (id : String) (s : Shop) → Books s → Books (apply_receipt id s)
apply-Books id s b = record {
  sound = b.sound;
  matches = record { at = b.matches.at };
  order_key = b.order_key;
  user_key = b.user_key;
}

marked-IsQuiet :
    (r : PaymentReceipt) (a : PaymentAttempt) (s s' : Shop)
    → fail_waiting r.order_id a (refunded_marks r a s) ≡ ok s'
    → IsQuiet s s'
marked-IsQuiet r a s s' h =
    let q = fail_waiting-IsQuiet r.order_id a (refunded_marks r a s) s' h in
    record {
      ledger = q.ledger;
      users = q.users;
      writes = from_added s (refunded_marks r a s) s' refl q.writes;
    }

topup-Books :
    (transaction : String) (r : PaymentReceipt) (a : PaymentAttempt) (s s' : Shop)
    → post_topup transaction r a s ≡ ok s'
    → Books s
    → Books s'
unfolding post_topup charge
topup-Books transaction r a s s' h b =
    let m = topup_movement transaction r a in
    let p = >>=-eq-ok (post_money m s.ledger) _ h in
    let posted' : charge (some m) s.ledger ≡ ok p.0.1 =
      ap (λ (x : Result (Wallet × Ledger)). x >>= λ q. ok q.1) p.1 in
    let k = charge-Books m s p.0.1 refl posted' b in
    subst Books (ok-same _ s' p.2) (record {
      sound = k.sound;
      matches = record { at = k.matches.at };
      order_key = k.order_key;
      user_key = k.user_key;
    })

Reconciled-Books : (id : String) (s s' : Shop) → Reconciled id s s' → Books s → Books s'
Reconciled-Books id s s' (idle used same) b = subst Books (sym same) b
Reconciled-Books id s s' (served same) b = subst Books (sym same) (apply-Books id s b)
Reconciled-Books id s s' (confirmed q t done same) b =
    subst Books (sym same) (apply-Books id t (confirm-Books q s t done b))
Reconciled-Books id s s' (credited transaction r a own done) b =
    topup-Books transaction r a s s' done b
Reconciled-Books id s s' (refunded r a own done) b =
    IsQuiet-Books s s' (marked-IsQuiet r a s s' done) b

-- A reconciliation keeps the books.
pub reconcile-Books :
    (f : Office) (id : String) (s s' : Shop)
    → reconcile_payment_receipt f id s ≡ ok s'
    → Books s
    → Books s'
reconcile-Books f id s s' h = Reconciled-Books id s s' (reconcile-Reconciled f id s s' h)

topup-orders :
    (transaction : String) (r : PaymentReceipt) (a : PaymentAttempt) (s s' : Shop)
    → post_topup transaction r a s ≡ ok s'
    → s'.orders ≡ s.orders
unfolding post_topup
topup-orders transaction r a s s' h =
    let p = >>=-eq-ok (post_money (topup_movement transaction r a) s.ledger) _ h in
    ap (λ x. x.orders) (sym (ok-same _ s' p.2))

Reconciled-Writes : (id : String) (s s' : Shop) → Reconciled id s s' → Writes s s'
Reconciled-Writes id s s' (idle used same) = inl (ap (λ x. x.orders) same)
Reconciled-Writes id s s' (served same) = inl (ap (λ x. x.orders) same)
Reconciled-Writes id s s' (confirmed q t done same) = elim (confirm-Writes q s t done) [
  | inl kept ↦ inl (ap (λ x. x.orders) same ∙ kept)
  | inr w ↦ inr (record {
    row = w.row;
    new = w.new;
    there = w.there;
    orders = ap (λ x. x.orders) same ∙ w.orders;
    move = w.move;
  })
]
Reconciled-Writes id s s' (credited transaction r a own done) =
    inl (topup-orders transaction r a s s' done)
Reconciled-Writes id s s' (refunded r a own done) =
    IsQuiet-Writes s s' (marked-IsQuiet r a s s' done)

-- A reconciliation writes one order at most, along an edge of its life.
pub reconcile-Writes :
    (f : Office) (id : String) (s s' : Shop)
    → reconcile_payment_receipt f id s ≡ ok s'
    → Writes s s'
reconcile-Writes f id s s' h = Reconciled-Writes id s s' (reconcile-Reconciled f id s s' h)
