-- ===== src/Payments/Reconcile.antt =====
-- `reconcilePaymentReceipt`, `creditPaymentTopup` and `paymentRefundRequired` of
-- controlplane/payment_receipts.go: a recorded payment is put to its use once, or marked to be
-- refunded by its provider. Each transaction is one write of the shop.
use guangyue_panel.Prelude.{
  String, Bool, true, false, not, ◌&&◌, Option, none, some, List, Map, [], ◌∷◌, if◌then◌else◌, ◌==◌,
  nat_eq, string_eq, lookup, insert, Result, ok, err, ◌>>=◌, or_fail, pos, Error, no_rows, conflict,
  insufficient_balance, ledger_mismatch,
}
use guangyue_panel.Domain.Account.{User}
use guangyue_panel.Wallet.{Movement, post_money}
use guangyue_panel.Commerce.{
  Order, OrderState, pending, provisioning, completed, same_state, Shop, PaymentAttempt,
  AttemptState, paid, attempt_completed, refund_required, attempt_cancelled, attempt_expired,
  PaymentReceipt, ReceiptState, verified, applied, receipt_refund_required,
}
use guangyue_panel.Commerce.Confirm.{Request, confirm_order}
use guangyue_panel.Payments.{fail_waiting}

-- What reconciling asks of the installation: `blocked` is a failed integrity check, `chain_ready`
-- the state of the chain of a crypto payment, `request_for` the call that confirms an order for its
-- buyer, and `transaction` a fresh identifier. `refused` tells a refusal of a handler (an error with
-- status 400, 403, 404 or 409) from a failure of the system.
pub record Office : Type 0 where
  pub blocked : Bool
  pub chain_ready : PaymentAttempt → Bool
  pub request_for : Order → User → PaymentAttempt → Request
  pub transaction : String
  pub refused : Error → Bool

unfoldable pub find_receipt : String → List PaymentReceipt → Option PaymentReceipt
find_receipt id [] = none
find_receipt id (r ∷ rs) = if r.id == id then some r else find_receipt id rs

abbrev pub is_verified : ReceiptState → Bool
is_verified verified = true
is_verified _ = false

-- UPDATE payment_receipts SET state=... WHERE id=? AND state='verified'
unfoldable pub move_receipt : String → ReceiptState → List PaymentReceipt → List PaymentReceipt
move_receipt id state [] = []
move_receipt id state (r ∷ rs) =
    let rest = move_receipt id state rs in
    (if r.id == id && is_verified r.state then record r { state = state } else r) ∷ rest

abbrev pub apply_receipt : String → Shop → Shop
apply_receipt id s = record s { receipts = move_receipt id applied s.receipts }

abbrev pub is_paid : AttemptState → Bool
is_paid paid = true
is_paid _ = false

-- UPDATE payment_attempts SET state=... WHERE id=? AND external_ref=? AND state='paid'
unfoldable pub move_attempt :
    String → String → AttemptState → Map String PaymentAttempt → Map String PaymentAttempt
move_attempt id ref state attempts = elim (lookup id attempts) [
  | none ↦ attempts
  | some a ↦
      if a.external_ref == ref && is_paid a.state
      then insert id (record a { state = state }) attempts
      else attempts
]

abbrev pub is_used : OrderState → Bool
is_used provisioning = true
is_used completed = true
is_used _ = false

abbrev pub wants_refund : AttemptState → Bool
wants_refund refund_required = true
wants_refund _ = false

-- Whether the order of the receipt is being served on this attempt.
unfoldable pub in_use : PaymentReceipt → PaymentAttempt → Map String Order → Bool
in_use r a orders = not (r.order_id == "") && (elim (lookup r.order_id orders) [
  | none ↦ false
  | some o ↦ o.attempt_id == a.id && is_used o.state && not (wants_refund a.state)
])

-- A payment that serves its order is applied after all; another is refunded, once.
unfoldable pub refund_or_apply : PaymentReceipt → PaymentAttempt → Shop → Result Shop
unfolding move_receipt move_attempt in_use fail_waiting
refund_or_apply r a s =
    if in_use r a s.orders
    then ok (apply_receipt r.id s)
    else if not (is_verified r.state)
    then ok s
    else fail_waiting r.order_id a (record s {
      receipts = move_receipt r.id receipt_refund_required s.receipts;
      attempts = move_attempt a.id r.external_ref refund_required s.attempts;
    })

unfoldable pub payment_refund_required : String → Shop → Result Shop
unfolding find_receipt refund_or_apply
payment_refund_required id s = do
  r ← or_fail (find_receipt id s.receipts) no_rows
  a ← or_fail (lookup r.attempt_id s.attempts) no_rows
  refund_or_apply r a s

-- The credit of a top-up: its event is the receipt, which the ledger takes once.
abbrev pub topup_movement : String → PaymentReceipt → PaymentAttempt → Movement
topup_movement transaction r a = record {
  id = transaction;
  user = a.user_id;
  actor = 0;
  event = ("payment", r.id);
  kind = "online_topup";
  reference = r.id;
  available_delta = pos r.amount;
  held_delta = pos 0;
}

abbrev pub can_be_credited : AttemptState → Bool
can_be_credited paid = true
can_be_credited attempt_completed = true
can_be_credited _ = false

abbrev pub still_verified : String → List PaymentReceipt → Bool
still_verified id receipts = elim (find_receipt id receipts) [
  | none ↦ false
  | some r ↦ is_verified r.state
]

unfoldable pub post_topup : String → PaymentReceipt → PaymentAttempt → Shop → Result Shop
unfolding move_receipt move_attempt
post_topup transaction r a s = do
  (w, l) ← post_money (topup_movement transaction r a) s.ledger
  ok (record s {
    ledger = l;
    receipts = move_receipt r.id applied s.receipts;
    attempts = move_attempt a.id r.external_ref attempt_completed s.attempts;
  })

-- The attempt is locked first; a receipt that has been used changes nothing.
unfoldable pub credit_payment_topup : String → PaymentReceipt → PaymentAttempt → Shop → Result Shop
unfolding post_topup find_receipt
credit_payment_topup transaction r a s =
    if not (can_be_credited a.state)
    then err conflict
    else if still_verified r.id s.receipts
    then post_topup transaction r a s
    else ok s

abbrev pub is_over : AttemptState → Bool
is_over refund_required = true
is_over attempt_cancelled = true
is_over attempt_expired = true
is_over _ = false

abbrev pub is_full : Error → Bool
is_full insufficient_balance = true
is_full _ = false

-- What follows a credit that has failed: a balance past its limit is refunded.
abbrev pub or_refund : (Error → Bool) → String → Shop → Result Shop → Result Shop
or_refund refused id s (ok t) = ok t
or_refund refused id s (err e) = if refused e then payment_refund_required id s else err e

abbrev pub apply_after : String → Result Shop → Result Shop
apply_after id (ok t) = ok (apply_receipt id t)
apply_after id (err e) = err e

-- A payment for an order confirms it, unless it has been confirmed. A handler that fails has
-- changed nothing, so the order is pending still.
unfoldable pub serve_order : Office → String → PaymentAttempt → Order → User → Shop → Result Shop
unfolding payment_refund_required
serve_order f id a o u s =
    if same_state o.state pending
    then or_refund f.refused id s (apply_after id (confirm_order (f.request_for o u a) s))
    else if is_used o.state
    then ok (apply_receipt id s)
    else payment_refund_required id s

abbrev pub chain_waits : Office → PaymentAttempt → Order → Bool
chain_waits f a o =
    a.provider_id == "crypto" && not (same_state o.state completed) && not (f.chain_ready a)

unfoldable pub use_for_order :
    Office → String → PaymentAttempt → User → Option Order → Shop → Result Shop
unfolding serve_order payment_refund_required
use_for_order f id a u none s = payment_refund_required id s
use_for_order f id a u (some o) s =
    if not (o.attempt_id == a.id)
    then payment_refund_required id s
    else if chain_waits f a o
    then err conflict
    else serve_order f id a o u s

unfoldable pub use_payment : Office → PaymentReceipt → PaymentAttempt → User → Shop → Result Shop
unfolding use_for_order credit_payment_topup payment_refund_required
use_payment f r a u s =
    if a.purpose == "topup"
    then or_refund is_full r.id s (credit_payment_topup f.transaction r a s)
    else use_for_order f r.id a u (lookup a.order_id s.orders) s

unfoldable pub use_for_user :
    Office → PaymentReceipt → PaymentAttempt → Option User → Shop → Result Shop
unfolding use_payment payment_refund_required
use_for_user f r a none s = payment_refund_required r.id s
use_for_user f r a (some u) s =
    if u.enabled then use_payment f r a u s else payment_refund_required r.id s

unfoldable pub reconcile_verified : Office → PaymentReceipt → PaymentAttempt → Shop → Result Shop
unfolding use_for_user payment_refund_required
reconcile_verified f r a s =
    if is_over a.state
    then payment_refund_required r.id s
    else if f.blocked
    then err ledger_mismatch
    else use_for_user f r a (lookup a.user_id s.users) s

unfoldable pub with_attempt : Office → PaymentReceipt → Shop → Result Shop
unfolding reconcile_verified
with_attempt f r s = do
  a ← or_fail (lookup r.attempt_id s.attempts) no_rows
  reconcile_verified f r a s

unfoldable pub reconcile_payment_receipt : Office → String → Shop → Result Shop
unfolding find_receipt with_attempt
reconcile_payment_receipt f id s = do
  r ← or_fail (find_receipt id s.receipts) no_rows
  if is_verified r.state then with_attempt f r s else ok s
