-- ===== src/Payments.antt =====
-- Payments through providers: `recordPaymentEvent`, `paymentRefundRequired`,
-- `reconcilePaymentReceipt` and `creditPaymentTopup` of controlplane/payment_receipts.go over the
-- tables of the shop and payment_events. A callback has been verified before.
pub mod Reconcile
pub mod Kept
pub mod Reconciled
pub mod Receipts
pub mod Refunds
pub mod Honest
pub mod Outcomes
pub mod Claims
pub mod Once
pub mod Repeated
pub mod Quiet
pub mod Books
use guangyue_panel.Prelude.{
  ℕ, ◌+◌, String, Bool, true, false, not, ◌&&◌, ◌||◌, Option, none, some, List, Map, map, [], ◌∷◌,
  if◌then◌else◌, ltb, leb, ◌==◌, nat_eq, string_eq, lookup, insert, any, Result, ok, err, ◌>>=◌,
  ◌>>◌, guard, or_fail, bad_payment, no_rows, unique_violation,
}
use guangyue_panel.Prelude.Text.{TextOrder, byte_length}
use guangyue_panel.Wallet.{money_limit}
use guangyue_panel.Commerce.{
  Order, OrderState, pending, failed, same_state, Shop, PaymentAttempt, AttemptState, created,
  awaiting_customer, paid, refund_required, PaymentReceipt, ReceiptState, verified,
  receipt_refund_required, review_required, save_order,
}

-- A callback of a provider, as its signature check has left it; `payload` is the digest of its body.
pub record VerifiedEvent : Type 0 where
  pub event_id : String
  pub payload : String
  pub merchant_ref : String
  pub external_ref : String
  pub amount : ℕ
  pub currency : String

pub data EventState : Type 0 where
  duplicate recorded : EventState

-- A row of payment_events.
pub record PaymentEvent : Type 0 where
  pub provider_id : String
  pub external_id : String
  pub payload : String
  pub state : EventState

-- The tables.
pub record Till : Type 0 where
  pub shop : Shop
  pub events : List PaymentEvent

-- A provider with its account, the clock, and a fresh identifier.
pub record Callback : Type 0 where
  pub provider : String
  pub scope : String
  pub now : ℕ
  pub receipt_id : String
  pub order : TextOrder

-- Why a payment cannot be used.
pub data Refusal : Type 0 where
  other_account other_amount payment_over payment_late already_claimed order_missing order_moved :
      Refusal

-- The two unique indexes of payment_events.
abbrev pub same_event_row : Callback → VerifiedEvent → PaymentEvent → Bool
same_event_row c e row =
    row.provider_id == c.provider && (row.external_id == e.event_id || row.payload == e.payload)

abbrev pub event_row : Callback → VerifiedEvent → EventState → PaymentEvent
event_row c e state = record {
  provider_id = c.provider;
  external_id = e.event_id;
  payload = e.payload;
  state = state;
}

-- ORDER BY created DESC,id DESC LIMIT 1
abbrev pub later : TextOrder → PaymentAttempt → PaymentAttempt → Bool
later order a b = ltb b.created a.created || (a.created == b.created && order.less b.id a.id)

unfoldable pub newest :
    TextOrder → (PaymentAttempt → Bool) → Map String PaymentAttempt → Option PaymentAttempt
newest order test [] = none
newest order test ((id, a) ∷ rows) =
    let best = newest order test rows in
    if test a
    then (elim best [ none ↦ some a | some b ↦ if later order b a then some b else some a ])
    else best

abbrev pub named_by : Callback → VerifiedEvent → PaymentAttempt → Bool
named_by c e a = a.provider_id == c.provider && a.merchant_ref == e.merchant_ref

abbrev pub currency_of : VerifiedEvent → String
currency_of e = if e.currency == "" then "CNY" else e.currency

abbrev pub can_be_paid : AttemptState → Bool
can_be_paid created = true
can_be_paid awaiting_customer = true
can_be_paid _ = false

-- What the attempt itself says against the payment.
abbrev pub attempt_reason : Callback → VerifiedEvent → PaymentAttempt → Option Refusal
attempt_reason c e a =
    if not (a.external_ref == "")
    then some already_claimed
    else if not (a.account_scope == "") && not (a.account_scope == c.scope)
    then some other_account
    else if not (a.amount == e.amount && a.currency == currency_of e)
    then some other_amount
    else if not (can_be_paid a.state)
    then some payment_over
    else if leb a.expires c.now
    then some payment_late
    else none

abbrev pub waits_for : PaymentAttempt → Order → Bool
waits_for a o = o.attempt_id == a.id && same_state o.state pending

abbrev pub order_says : PaymentAttempt → Option Order → Option Refusal
order_says a none = some order_missing
order_says a (some o) = if waits_for a o then none else some order_moved

abbrev pub or_else : Option Refusal → Option Refusal → Option Refusal
or_else (some r) other = some r
or_else none other = other

-- The order is asked only if the attempt says nothing; a top-up has none.
unfoldable pub claim_reason :
    Callback → VerifiedEvent → PaymentAttempt → Map String Order → Option Refusal
claim_reason c e a orders =
    or_else (attempt_reason c e a)
      (if a.order_id == "" then none else order_says a (lookup a.order_id orders))

abbrev pub receipt_of : Callback → VerifiedEvent → ReceiptState → PaymentReceipt
receipt_of c e state = record {
  id = c.receipt_id;
  account_scope = c.scope;
  provider_id = c.provider;
  external_ref = e.external_ref;
  attempt_id = "";
  order_id = "";
  user_id = 0;
  amount = e.amount;
  currency = currency_of e;
  state = state;
  created = c.now;
}

abbrev pub receipt_for : Callback → VerifiedEvent → PaymentAttempt → ReceiptState → PaymentReceipt
receipt_for c e a state = record (receipt_of c e state) {
  attempt_id = a.id;
  order_id = a.order_id;
  user_id = a.user_id;
}

abbrev pub fail_row : PaymentAttempt → Option Order → Shop → Result Shop
fail_row a none s = ok s
fail_row a (some o) s =
    if waits_for a o then save_order (record o { state = failed }) pending s else ok s

-- A payment that cannot be used ends the order that waits for it.
unfoldable pub fail_waiting : String → PaymentAttempt → Shop → Result Shop
fail_waiting order a s = if order == "" then ok s else fail_row a (lookup order s.orders) s

-- The attempt takes the transaction's number; the index on it is unique.
abbrev pub taken : Callback → VerifiedEvent → String × PaymentAttempt → Bool
taken c e row = row.1.provider_id == c.provider && row.1.external_ref == e.external_ref

unfoldable pub claim_attempt :
    Callback → VerifiedEvent → PaymentAttempt → AttemptState → Shop → Result Shop
claim_attempt c e a state s = do
  guard (not (any (taken c e) s.attempts)) unique_violation
  ok (record s {
    attempts = insert a.id (record a { state = state; external_ref = e.external_ref }) s.attempts;
  })

-- The first payment of an attempt that cannot be used ends it; a further one leaves it alone.
unfoldable pub refuse_payment : Callback → VerifiedEvent → PaymentAttempt → Shop → Result Shop
unfolding fail_waiting claim_attempt
refuse_payment c e a s =
    if a.external_ref == ""
    then (do t ← fail_waiting a.order_id a s; claim_attempt c e a refund_required t)
    else ok s

abbrev pub add_receipt : PaymentReceipt → Shop → Shop
add_receipt r s = record s { receipts = r ∷ s.receipts }

-- What a new payment does to the attempt that it names, and to the order of that. The receipt is
-- written in its final state.
unfoldable pub claim_payment :
    Callback → VerifiedEvent → PaymentAttempt → Option Refusal → Shop → Result Shop
unfolding refuse_payment claim_attempt
claim_payment c e a none s = claim_attempt c e a paid (add_receipt (receipt_for c e a verified) s)
claim_payment c e a (some r) s =
    refuse_payment c e a (add_receipt (receipt_for c e a receipt_refund_required) s)

-- The unique index of payment_receipts on the account and the transaction.
abbrev pub same_transaction : String → String → PaymentReceipt → Bool
same_transaction scope ref r = r.account_scope == scope && r.external_ref == ref

-- The attempt that the callback names is read again by its own name once it is locked.
unfoldable pub receive : Callback → VerifiedEvent → Option PaymentAttempt → Shop → Result Shop
unfolding claim_payment claim_reason
receive c e none s = ok (add_receipt (receipt_of c e review_required) s)
receive c e (some found) s = do
  a ← or_fail (lookup found.id s.attempts) no_rows
  claim_payment c e a (claim_reason c e a s.orders) s

abbrev pub good_event : VerifiedEvent → Bool
good_event e =
    not (e.external_ref == "")
    && leb (byte_length e.external_ref) 200
    && ltb 0 e.amount
    && leb e.amount money_limit

unfoldable pub record_new : Callback → VerifiedEvent → Till → Result Till
unfolding receive newest
record_new c e t = do
  guard (not (any (λ r. r.id == c.receipt_id) t.shop.receipts)) unique_violation
  s ← receive c e (newest c.order (named_by c e) t.shop.attempts) t.shop
  ok (record { shop = s; events = event_row c e recorded ∷ t.events })

-- The transaction of `recordPaymentEvent`; the receipt is reconciled after it.
unfoldable pub record_payment_event : Callback → VerifiedEvent → Till → Result Till
unfolding record_new byte_length
record_payment_event c e t =
    if not (good_event e)
    then err bad_payment
    else if any (same_event_row c e) t.events
    then ok t
    else if any (same_transaction c.scope e.external_ref) t.shop.receipts
    then ok (record t { events = event_row c e duplicate ∷ t.events })
    else record_new c e t
