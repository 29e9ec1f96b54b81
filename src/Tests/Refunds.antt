-- ===== src/Tests/Refunds.antt =====
-- Refund requests, refunds of queued plans, and the amount of a refund.
use guangyue_panel.Prelude.{
  ◌+◌, ◌-◌, ◌*◌, ◌/◌, ◌≤◌, ◌<◌, ◌≡◌, refl, true, some, [], ◌∷◌, min, pos, negsuc, pos_part,
  neg_part, ◌≤ℤ◌, ok, lookup, insert, nat_eq, string_eq, arith, ◌⊎◌, ◌+ℤ◌, ◌-ℤ◌,
}
use guangyue_panel.Domain.Account.{User, quota_used, init_meter, quota_download, quota_upload}
use guangyue_panel.Plans.Position.{
  active, order_entitlement_position, index_of, slot_of, remove_queued_entitlement, remove_at,
}
use guangyue_panel.Wallet.{
  MoneyTransaction, available_of, system, wallet, post_money, fits, moved, find_checkpoint,
  movement_entries, posted,
}
use guangyue_panel.Commerce.{
  OrderState, purchase, Order, requested, Shop, save_order, tx_user, PaymentAttempt, PaymentReceipt,
  refund_required, attempt_refunded, receipt_refund_pending, receipt_refunded,
}
use guangyue_panel.Commerce.Reach.{done, step, finishes, final_is_final}
use guangyue_panel.Payments.Refunds.{
  finish_payment_refund, refund_receipt, is_primary, refund_attempt,
}
use guangyue_panel.Commerce.Settle.{Books, settle, charge}
use guangyue_panel.Commerce.Refund.{
  refundable_order_amount, refund_within_price, refund_overflow, active_refund, share,
}
use guangyue_panel.Commerce.Review.{
  Review, refund_action, refund_queued, unqueue, queue_movement, decide_open, refund_running,
}
use guangyue_panel.Commerce.Review.Proofs.{paid_at_once, refund_pays}
use guangyue_panel.Tests.Sample.{
  buyer, owner, sample_offer, sample_plan, sample_meter, sample_entitlement, sample_calendar,
  empty_shop, shop_with-Books,
}
use guangyue_panel.Commerce.Create.{commerce_pending_except}
use guangyue_panel.Commerce.Cancel.{return_payment, mark_receipt_refund, update_attempt}

-- An order that is completed, and a buyer whose running plan it is.
abbrev done_row : Order
done_row = record {
  id = "o1";
  user_id = 7;
  state = OrderState.completed;
  created = 100;
  expires = 1000;
  offer = sample_offer;
  action = purchase;
  before_expiry = 0;
  applied_revision = "r2";
  expected = "v";
  previous_end = 0;
  started = 100;
  next_attempt = 0;
  attempts = 0;
  refund_amount = pos 0;
  attempt_id = "";
  provider_id = "";
}

abbrev done_buyer : User
done_buyer = record buyer { entitlement = some (record sample_entitlement { order_id = "o1" }) }

-- The order waits in the queue of this buyer.
abbrev queued_buyer : User
queued_buyer = record buyer {
  plan_queue =
      record {
        entitlement = some (record sample_entitlement { order_id = "o1" });
        order_id = "o1";
        renewal_order_id = "";
        node_rates = [];
        quota = 1000;
        expires = 9000;
        paused_at = 50;
        vless = true;
        hy2 = true;
        meter = some sample_meter;
      }
      ∷ [];
}

abbrev shop_of : User → Shop
shop_of u = record empty_shop { orders = ("o1", done_row) ∷ []; users = (7, u) ∷ (1, owner) ∷ [] }

abbrev review : User → Review
review actor = record {
  call = record {
    order = "o1";
    actor = actor;
    attempt_id = "";
    now = 300;
    transaction = "m9";
    period = "p9";
    payment_module = true;
    controller = true;
    calendar = sample_calendar;
    version_of = λ u. "v";
  };
  request_id = "";
  revision = 0;
  fresh_id = "q1";
  reason_length = 10;
}

shop_of-Books : (u : User) → u.id ≡ 7 → Books (shop_of u)
unfolding lookup
shop_of-Books u own = shop_with-Books done_row u refl refl own

abbrev asked_shop : Shop
asked_shop = record (shop_of done_buyer) {
  requests =
      ("o1", record { id = "q1"; order_id = "o1"; user_id = 7; state = requested; revision = 1 })
      ∷ [];
}

abbrev refund_row : MoneyTransaction
refund_row = record {
  id = "m9";
  event = ("refund", "o1");
  user = 7;
  actor = 1;
  revision = 1;
  kind = "refund";
  amount = pos 500;
  available = 500;
  held = 0;
  reference = "o1";
}

abbrev refunded_shop : Shop
refunded_shop = record (shop_of (record queued_buyer { plan_queue = [] })) {
  ledger = record {
    wallets = (7, record { available = 500; held = 0; revision = 1 }) ∷ [];
    transactions = refund_row ∷ [];
    entries =
        record { transaction = "m9"; account = available_of 7; amount = pos 500 }
        ∷ record { transaction = "m9"; account = system "refund"; amount = negsuc 499 }
        ∷ [];
  };
  orders = ("o1", record done_row { state = OrderState.refunded; refund_amount = pos 500 }) ∷ [];
}

refunded : refund_action (review owner) (shop_of queued_buyer) ≡ ok refunded_shop
unfolding refund_action lookup order_entitlement_position index_of slot_of commerce_pending_except
    refund_queued unqueue remove_queued_entitlement settle queue_movement post_money fits
    refundable_order_amount wallet return_payment moved save_order mark_receipt_refund
    update_attempt active_refund share decide_open refund_running charge tx_user init_meter
    quota_download quota_upload quota_used remove_at ◌+ℤ◌ ◌-ℤ◌ insert find_checkpoint
    movement_entries posted
refunded = refl

order_there : lookup "o1" (shop_of queued_buyer).orders ≡ some done_row
unfolding lookup
order_there = refl

buyer_there : lookup 7 (shop_of queued_buyer).users ≡ some queued_buyer
unfolding lookup
buyer_there = refl

refund_pays_example :
    ((wallet 7 refunded_shop.ledger).available
      ≡ (wallet 7 (shop_of queued_buyer).ledger).available + paid_at_once done_row queued_buyer)
    × ((wallet 7 refunded_shop.ledger).held ≡ (wallet 7 (shop_of queued_buyer).ledger).held)
refund_pays_example =
    refund_pays (review owner) (shop_of queued_buyer) refunded_shop done_row queued_buyer
      (shop_of-Books queued_buyer refl) refunded order_there buyer_there

refund_within_price_example :
    (neg_part (refundable_order_amount done_row done_buyer 300) ≡ 0)
    × (pos_part (refundable_order_amount done_row done_buyer 300) ≤ 500)
refund_within_price_example =
    refund_within_price done_row done_buyer 300 (omega arith) (omega arith)

-- A plan of 100 in money and a petabyte.
abbrev large_row : Order
large_row = record done_row {
  offer = record sample_offer {
    price = 10000;
    plan = record sample_plan { quota = 1000000000000000 };
  };
}

large_active : order_entitlement_position done_buyer "o1" ≡ active
unfolding order_entitlement_position
large_active = refl

large_used : 0 < quota_used done_buyer
unfolding quota_used
large_used = omega arith

refund_overflow_example :
    (refundable_order_amount large_row done_buyer 300 ≤ℤ pos 0)
    × (0
        < 10000
          * (1000000000000000 - min 1000000000000000 (quota_used done_buyer))
          / 1000000000000000)
unfolding quota_used
refund_overflow_example =
    refund_overflow large_row done_buyer 300 large_active large_used (omega arith) (omega arith)
      (omega arith) (omega arith)

-- An order that has failed although its provider had taken the money, which then goes back.
abbrev failed_row : Order
failed_row = record done_row { state = OrderState.failed; attempt_id = "a1"; provider_id = "epay" }

abbrev refused_attempt : PaymentAttempt
refused_attempt = record {
  id = "a1";
  order_id = "o1";
  user_id = 7;
  provider_id = "epay";
  state = refund_required;
  amount = 500;
  currency = "CNY";
  merchant_ref = "m1";
  external_ref = "x1";
  created = 5;
  expires = 100;
  purpose = "order";
  account_scope = "shop";
}

abbrev refused_receipt : PaymentReceipt
refused_receipt = record {
  id = "r1";
  account_scope = "shop";
  provider_id = "epay";
  external_ref = "x1";
  attempt_id = "a1";
  order_id = "o1";
  user_id = 7;
  amount = 500;
  currency = "CNY";
  state = receipt_refund_pending;
  created = 10;
}

abbrev failed_shop : Shop
failed_shop = record empty_shop {
  orders = ("o1", failed_row) ∷ [];
  users = (7, buyer) ∷ (1, owner) ∷ [];
  attempts = ("a1", refused_attempt) ∷ [];
  receipts = refused_receipt ∷ [];
}

abbrev repaid_shop : Shop
repaid_shop = record failed_shop {
  orders = ("o1", record failed_row { state = OrderState.refunded }) ∷ [];
  attempts = ("a1", record refused_attempt { state = attempt_refunded }) ∷ [];
  receipts = record refused_receipt { state = receipt_refunded } ∷ [];
}

repaid : finish_payment_refund refused_receipt failed_shop ≡ ok repaid_shop
unfolding finish_payment_refund refund_receipt is_primary refund_attempt lookup insert save_order
repaid = refl

failed_shop-Books : Books failed_shop
unfolding lookup
failed_shop-Books =
    let b = shop_with-Books failed_row buyer refl refl refl in
    record {
      sound = b.sound;
      matches = record { at = b.matches.at };
      order_key = b.order_key;
      user_key = b.user_key;
    }

failed_there : lookup "o1" failed_shop.orders ≡ some failed_row
unfolding lookup
failed_there = refl

final_is_final_example :
    (o' : Order) × (lookup "o1" repaid_shop.orders ≡ some o')
    × ((o'.state ≡ OrderState.failed) ⊎ (o'.state ≡ OrderState.refunded))
final_is_final_example =
    final_is_final failed_shop repaid_shop "o1" failed_row failed_shop-Books
      (step (finishes refused_receipt repaid) done) failed_there refl
