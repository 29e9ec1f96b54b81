-- ===== src/Payments/Refunds.antt =====
-- `finishPaymentRefund` of controlplane/payment_refunds.go: a provider has given a payment back. The
-- receipt is an argument as its caller has read it; the texts of the rows and the notification are
-- left out.
use guangyue_panel.Prelude.{
  String, Bool, true, false, not, ◌&&◌, Option, none, some, List, Map, [], ◌∷◌, if◌then◌else◌, ◌==◌,
  nat_eq, string_eq, lookup, insert, Result, ok, ◌≡◌, refl, Bool-cases, inl, inr, if_true, if_false,
  arith,
}
use guangyue_panel.Commerce.{
  Order, OrderState, failed, expired, cancelled, refunded, refund_pending, save_order, Shop,
  PaymentAttempt, attempt_refunded, PaymentReceipt, ReceiptState, receipt_refund_pending,
  receipt_refunded,
}
use guangyue_panel.Commerce.Moves.{
  Move, refund_failed, refund_cancelled, refund_expired, refund_arrived,
}
use guangyue_panel.Payments.Receipts.{ok-same}
use guangyue_panel.Payments.Reconcile.{wants_refund}
use guangyue_panel.Payments.Quiet.{IsQuiet, same-IsQuiet, save-IsQuiet, from_added}

abbrev pub is_on_its_way : ReceiptState → Bool
is_on_its_way receipt_refund_pending = true
is_on_its_way _ = false

-- UPDATE payment_receipts SET state='refunded' WHERE id=? AND state='refund_pending'
unfoldable pub refund_receipt : String → List PaymentReceipt → List PaymentReceipt
refund_receipt id [] = []
refund_receipt id (r ∷ rs) =
    let rest = refund_receipt id rs in
    (if r.id == id && is_on_its_way r.state then record r { state = receipt_refunded } else r)
    ∷ rest

-- Whether the update of the attempt finds its row: the receipt is the one that took the attempt.
unfoldable pub is_primary : PaymentReceipt → Map String PaymentAttempt → Bool
is_primary r attempts = elim (lookup r.attempt_id attempts) [
  | none ↦ false
  | some a ↦ a.external_ref == r.external_ref && wants_refund a.state
]

-- UPDATE payment_attempts SET state='refunded' WHERE id=? AND external_ref=? AND
-- state='refund_required'
unfoldable pub refund_attempt :
    PaymentReceipt → Map String PaymentAttempt → Map String PaymentAttempt
refund_attempt r attempts = elim (lookup r.attempt_id attempts) [
  | none ↦ attempts
  | some a ↦
      if a.external_ref == r.external_ref && wants_refund a.state
      then insert r.attempt_id (record a { state = attempt_refunded }) attempts
      else attempts
]

abbrev pub is_repaid : OrderState → Bool
is_repaid refund_pending = true
is_repaid failed = true
is_repaid cancelled = true
is_repaid expired = true
is_repaid _ = false

abbrev pub refunded_row : PaymentReceipt → Option Order → Shop → Result Shop
refunded_row r none s = ok s
refunded_row r (some o) s =
    if o.attempt_id == r.attempt_id && is_repaid o.state
    then save_order (record o { state = refunded }) o.state s
    else ok s

unfoldable pub finish_payment_refund : PaymentReceipt → Shop → Result Shop
unfolding refund_receipt is_primary refund_attempt
finish_payment_refund r s =
    let t = record s {
      receipts = refund_receipt r.id s.receipts;
      attempts = refund_attempt r s.attempts;
    } in
    if not (r.order_id == "") && is_primary r s.attempts
    then refunded_row r (lookup r.order_id s.orders) t
    else ok t

refund_edge : (x : OrderState) → is_repaid x ≡ true → Move x refunded
refund_edge failed h = refund_failed
refund_edge cancelled h = refund_cancelled
refund_edge expired h = refund_expired
refund_edge refund_pending h = refund_arrived
refund_edge _ h = cc

refunded_row-IsQuiet :
    (r : PaymentReceipt) (x : Option Order) (s s' : Shop)
    → refunded_row r x s ≡ ok s'
    → IsQuiet s s'
refunded_row-IsQuiet r none s s' h = same-IsQuiet s s' (ok-same s s' h)
refunded_row-IsQuiet r (some o) s s' h =
    let save = save_order (record o { state = refunded }) o.state s in
    elim (Bool-cases (o.attempt_id == r.attempt_id && is_repaid o.state)) [
      | inl due ↦
          let repaid : is_repaid o.state ≡ true = ground (arith, due) in
          save-IsQuiet (record o { state = refunded }) o.state s s' (ground (arith, repaid)) refl
            (refund_edge o.state repaid) (if_true save (ok s) due h)
      | inr other ↦ same-IsQuiet s s' (ok-same s s' (if_false save (ok s) other h))
    ]

-- A refund by a provider moves no money of the panel, and at most one order, which held nothing.
pub finish_payment_refund-IsQuiet :
    (r : PaymentReceipt) (s s' : Shop) → finish_payment_refund r s ≡ ok s' → IsQuiet s s'
unfolding finish_payment_refund
finish_payment_refund-IsQuiet r s s' h =
    let t = record s {
      receipts = refund_receipt r.id s.receipts;
      attempts = refund_attempt r s.attempts;
    } in
    let row = refunded_row r (lookup r.order_id s.orders) t in
    let after : IsQuiet t s' =
      elim (Bool-cases (not (r.order_id == "") && is_primary r s.attempts)) [
        | inl due ↦
            refunded_row-IsQuiet r (lookup r.order_id s.orders) t s' (if_true row (ok t) due h)
        | inr other ↦ same-IsQuiet t s' (ok-same t s' (if_false row (ok t) other h))
      ] in
    record {
      ledger = after.ledger;
      users = after.users;
      writes = from_added s t s' refl after.writes;
    }
