-- ===== src/Commerce/Cancel.antt =====
-- The action `cancel` of `orderAction` (controlplane/commerce_order_actions.go), `failProvisioning` of
-- commerce_fulfilment.go, and what both do to the payment of an order (payment_receipts.go,
-- `paymentMarkReceiptRefund`).
pub mod Proofs
use guangyue_panel.Prelude.{
  ℕ, ◌≡◌, String, Bool, true, false, not, ◌&&◌, ◌||◌, Option, none, some, List, map, Map, [], ◌∷◌,
  ltb, leb, ◌==◌, nat_eq, string_eq, if◌then◌else◌, lookup, insert, Result, ok, err, guard, or_fail,
  ◌>>=◌, ◌>>◌, pos, neg, not_found, not_cancellable,
}
use guangyue_panel.Domain.Account.{User, QuotaMeter}
use guangyue_panel.Plans.{on_meter}
use guangyue_panel.Wallet.{Movement}
use guangyue_panel.Commerce.{
  Order, OrderState, pending, provisioning, cancelled, failed, OrderAction, purchase, renew, Shop,
  PaymentReceipt, PaymentAttempt, AttemptState, created, awaiting_customer, paid, attempt_completed,
  refund_required, attempt_cancelled, ReceiptState, verified, applied, receipt_refund_required,
  same_state,
}
use guangyue_panel.Commerce.Settle.{order_movement, settle}
use guangyue_panel.Commerce.Confirm.{Request, find_order}

-- UPDATE payment_attempts SET state=... WHERE id=? AND state IN (...)
unfoldable pub update_attempt :
    (AttemptState → AttemptState) → String → Map String PaymentAttempt → Map String PaymentAttempt
update_attempt change id attempts = elim (lookup id attempts) [
  | none ↦ attempts
  | some a ↦ insert id (record a { state = change a.state }) attempts
]

abbrev pub to_refund : AttemptState → AttemptState
to_refund paid = refund_required
to_refund attempt_completed = refund_required
to_refund a = a

abbrev pub on_cancel : AttemptState → AttemptState
on_cancel paid = refund_required
on_cancel created = attempt_cancelled
on_cancel awaiting_customer = attempt_cancelled
on_cancel a = a

abbrev pub receipt_to_refund : ReceiptState → ReceiptState
receipt_to_refund verified = receipt_refund_required
receipt_to_refund applied = receipt_refund_required
receipt_to_refund r = r

unfoldable pub mark_receipt_refund : String → List PaymentReceipt → List PaymentReceipt
mark_receipt_refund attempt [] = []
mark_receipt_refund attempt (r ∷ rs) =
    let rest = mark_receipt_refund attempt rs in
    (if r.attempt_id == attempt then record r { state = receipt_to_refund r.state } else r) ∷ rest

-- A payment that came for an order is to be refunded by its provider; the balance is not touched.
unfoldable pub return_payment : (AttemptState → AttemptState) → Order → Shop → Shop
unfolding update_attempt mark_receipt_refund
return_payment change o s = if o.attempt_id == "" then s else record s {
  attempts = update_attempt change o.attempt_id s.attempts;
  receipts = mark_receipt_refund o.attempt_id s.receipts;
}

abbrev pub resume_meter : User → User
resume_meter u = record u { meter = on_meter (λ m. record m { pending_reset = false }) u.meter }

abbrev pub resume_purchase : Order → User → User
resume_purchase o u = elim o.action [ purchase ↦ resume_meter u | renew ↦ u ]

-- What a provisioning order has frozen goes back to the balance.
unfoldable pub release_movement : String → ℕ → Order → User → Option Movement
release_movement transaction actor o u =
    if o.attempt_id == "" && ltb 0 o.offer.price && same_state o.state provisioning
    then some (
        order_movement transaction u.id actor "release" "release" o.id (pos o.offer.price)
          (neg (pos o.offer.price)))
    else none

unfoldable pub cancel_order : Request → Shop → Result Shop
cancel_order r s = do
  (o, u) ← find_order r s
  guard (same_state o.state pending || same_state o.state provisioning) not_cancellable
  settle (release_movement r.transaction r.actor.id o u) (record o { state = cancelled }) o.state
      (if same_state o.state provisioning then resume_purchase o u else u)
      (return_payment on_cancel o s)

-- `o` has been read as an order in provisioning; the guarded write refuses any other.
unfoldable pub fail_provisioning : String → Order → Shop → Result Shop
fail_provisioning transaction o s = do
  u ← or_fail (lookup o.user_id s.users) not_found
  settle (release_movement transaction 0 o u) (record o { state = failed }) provisioning
      (resume_purchase o u) (return_payment to_refund o s)
