-- ===== src/Tests/Payments.antt =====
-- A top-up paid through a provider: the callback, the credit, and both once more.
use guangyue_panel.Prelude.{
  ◌≡◌, refl, String, false, some, [], ◌∷◌, pos, negsuc, ok, lookup, insert, nat_eq, string_eq,
  arith,
}
use guangyue_panel.Prelude.Text.{byte_length}
use guangyue_panel.Wallet.{
  available_of, system, Ledger, MoneyTransaction, post_money, wallet, fits, moved, posted,
  movement_entries,
}
use guangyue_panel.Commerce.{
  Shop, PaymentAttempt, awaiting_customer, paid, attempt_completed, PaymentReceipt, verified,
  applied,
}
use guangyue_panel.Payments.{
  Callback, VerifiedEvent, PaymentEvent, recorded, Till, record_payment_event, record_new, receive,
  claim_payment, claim_reason, claim_attempt, newest,
}
use guangyue_panel.Payments.Reconcile.{
  Office, reconcile_payment_receipt, find_receipt, move_receipt, move_attempt, post_topup,
  credit_payment_topup, use_payment, use_for_user, reconcile_verified, with_attempt,
}
use guangyue_panel.Payments.Once.{IsHonest}
use guangyue_panel.Payments.Honest.{here, next, receives, reconciles, Reaches-IsHonest}
use guangyue_panel.Payments.Outcomes.{Outcome, record_payment_event-Outcome}
use guangyue_panel.Payments.Repeated.{reconcile_payment_receipt-again}
use guangyue_panel.Tests.Sample.{sample_calendar, empty_shop, by_length}

abbrev event : VerifiedEvent
event = record {
  event_id = "e1";
  payload = "d1";
  merchant_ref = "m1";
  external_ref = "x1";
  amount = 500;
  currency = "";
}

abbrev callback : Callback
callback = record {
  provider = "epay";
  scope = "shop";
  now = 10;
  receipt_id = "r1";
  order = by_length;
}

abbrev attempt : PaymentAttempt
attempt = record {
  id = "a1";
  order_id = "";
  user_id = 7;
  provider_id = "epay";
  state = awaiting_customer;
  amount = 500;
  currency = "CNY";
  merchant_ref = "m1";
  external_ref = "";
  created = 5;
  expires = 100;
  purpose = "topup";
  account_scope = "shop";
}

abbrev before : Till
before = record { shop = record empty_shop { attempts = ("a1", attempt) ∷ [] }; events = [] }

abbrev receipt : PaymentReceipt
receipt = record {
  id = "r1";
  account_scope = "shop";
  provider_id = "epay";
  external_ref = "x1";
  attempt_id = "a1";
  order_id = "";
  user_id = 7;
  amount = 500;
  currency = "CNY";
  state = verified;
  created = 10;
}

abbrev paid_attempt : PaymentAttempt
paid_attempt = record attempt { state = paid; external_ref = "x1" }

abbrev received_shop : Shop
received_shop = record empty_shop { attempts = ("a1", paid_attempt) ∷ []; receipts = receipt ∷ [] }

abbrev event_of_provider : PaymentEvent
event_of_provider = record {
  provider_id = "epay";
  external_id = "e1";
  payload = "d1";
  state = recorded;
}

abbrev after_callback : Till
after_callback = record { shop = received_shop; events = event_of_provider ∷ [] }

called_back : record_payment_event callback event before ≡ ok after_callback
unfolding record_payment_event record_new receive claim_payment claim_reason claim_attempt newest
    byte_length lookup insert
called_back = refl

abbrev credit_row : MoneyTransaction
credit_row = record {
  id = "t1";
  event = ("payment", "r1");
  user = 7;
  actor = 0;
  revision = 1;
  kind = "online_topup";
  amount = pos 500;
  available = 500;
  held = 0;
  reference = "r1";
}

abbrev credited_ledger : Ledger
credited_ledger = record {
  wallets = (7, record { available = 500; held = 0; revision = 1 }) ∷ [];
  transactions = credit_row ∷ [];
  entries =
      record { transaction = "t1"; account = available_of 7; amount = pos 500 }
      ∷ record { transaction = "t1"; account = system "online_topup"; amount = negsuc 499 }
      ∷ [];
}

abbrev credited_shop : Shop
credited_shop = record empty_shop {
  ledger = credited_ledger;
  attempts = ("a1", record paid_attempt { state = attempt_completed }) ∷ [];
  receipts = record receipt { state = applied } ∷ [];
}

abbrev office : Office
office = record {
  blocked = false;
  chain_ready = λ a. false;
  request_for = λ o u a. record {
    order = o.id;
    actor = u;
    attempt_id = a.id;
    now = 11;
    transaction = "t1";
    period = "p1";
    payment_module = false;
    controller = false;
    calendar = sample_calendar;
    version_of = λ u. "v";
  };
  transaction = "t1";
  refused = λ e. false;
}

reconciled : reconcile_payment_receipt office "r1" received_shop ≡ ok credited_shop
unfolding reconcile_payment_receipt with_attempt reconcile_verified use_for_user use_payment
    credit_payment_topup post_topup find_receipt move_receipt move_attempt post_money fits wallet
    lookup moved posted insert movement_entries
reconciled = refl

abbrev after_credit : Till
after_credit = record after_callback { shop = credited_shop }

attempts_keyed :
    (k : String) (a : PaymentAttempt) → lookup k before.shop.attempts ≡ some a → a.id ≡ k
unfolding lookup
attempts_keyed k a h = ground (arith, h, string_eq.beq_iff "a1" k)

before-IsHonest : IsHonest before.shop.receipts before.shop.attempts
before-IsHonest = record {
  once = λ a. omega arith;
  single = λ scope ref. omega arith;
  keyed = attempts_keyed;
}

record_payment_event-Outcome_example : Outcome callback event before after_callback
record_payment_event-Outcome_example =
    record_payment_event-Outcome callback event before after_callback attempts_keyed called_back

Reaches-IsHonest_example : IsHonest credited_shop.receipts credited_shop.attempts
Reaches-IsHonest_example =
    Reaches-IsHonest {t = before} {t' = after_credit}
      (next (next here (receives callback event called_back))
        (reconciles office "r1" credited_shop reconciled))
      before-IsHonest

reconcile_payment_receipt-again_example :
    reconcile_payment_receipt office "r1" credited_shop ≡ ok credited_shop
reconcile_payment_receipt-again_example =
    reconcile_payment_receipt-again office office "r1" received_shop credited_shop reconciled
