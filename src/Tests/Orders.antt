-- ===== src/Tests/Orders.antt =====
-- A purchase from the balance: paid in, ordered, confirmed, opened; another one cancelled.
use guangyue_panel.Prelude.{
  ℕ, ◌+◌, ◌≡◌, refl, subst, String, true, false, some, List, Map, [], ◌∷◌, ℤ, pos, negsuc, ok,
  lookup, insert, nat_eq, string_eq, arith, ◌+ℤ◌, ◌-ℤ◌,
}
use guangyue_panel.Prelude.Text.{trim_space}
use guangyue_panel.Domain.Account.{Entitlement, PlanSlot, User, init_meter}
use guangyue_panel.Wallet.{
  MoneyTransaction, MoneyEntry, Account, available_of, held_of, system, Wallet, Ledger, Movement,
  post_money, wallet, fits, moved, posted, find_checkpoint, movement_entries,
}
use guangyue_panel.Commerce.{
  OrderState, pending, provisioning, completed, purchase, Order, Shop, save_order, tx_user,
}
use guangyue_panel.Commerce.Settle.{Books, charge, charge-Books, settle}
use guangyue_panel.Commerce.Create.{
  create-Books, create_order, commerce_pending, order_kind, insert_order,
}
use guangyue_panel.Commerce.Confirm.{
  Request, confirm_order, validate_entitlement_sites, find_order, confirm_checks, hold_movement,
  confirmed_order, confirmed_user, site_outdated,
}
use guangyue_panel.Commerce.Reach.{
  done, step, credits, creates, confirms, cancels, reaches-Books, order-Life,
}
use guangyue_panel.Commerce.Moves.{Life}
use guangyue_panel.Commerce.Cancel.Proofs.{frozen, cancel-Books, cancel_returns_hold}
use guangyue_panel.Commerce.Fulfil.{
  bought_user, Server, fulfil_order, capture_movement, fulfil_settled, fulfil_step, open_order,
  open_payment, outstanding, purchased, refund_movement, refund_order, refuse_disabled, reissue,
  reissue_site, reissue_sites, renewed_user,
}
use guangyue_panel.Commerce.Fulfil.Proofs.{IsCollector, IsDue}
use guangyue_panel.Commerce.Fulfil.Money.{Fates, fulfil-Fates}
use guangyue_panel.Commerce.Confirm.Proofs.{confirm-Books, confirm-TakesPrice, TakesPrice}
use guangyue_panel.Commerce.Cancel.{
  cancel_order, mark_receipt_refund, release_movement, return_payment, update_attempt,
  fail_provisioning,
}
use guangyue_panel.Tests.Sample.{
  sample_offer, sample_meter, sample_entitlement, buyer, owner, sample_calendar, empty_shop,
  empty_shop-Books,
}
use guangyue_panel.Domain.Periods.{next_period}
use guangyue_panel.Plans.{opened_plan, assign_plan, pause_current_plan, purchase_plan}
use guangyue_panel.Commerce.Fulfil.Budgets.{is_eligible, purchase_site_budgets, site_budgets}
use guangyue_panel.Domain.Counters.{add_counter}
use guangyue_panel.Sites.{total}

abbrev deposit : Movement
deposit = record {
  id = "m0";
  user = 7;
  actor = 1;
  event = ("redeem", "code");
  kind = "redeem";
  reference = "code";
  available_delta = pos 800;
  held_delta = pos 0;
}

abbrev request : Request
request = record {
  order = "o1";
  actor = buyer;
  attempt_id = "";
  now = 100;
  transaction = "m1";
  period = "p1";
  payment_module = true;
  controller = true;
  calendar = sample_calendar;
  version_of = λ u. "v";
}

abbrev deposit_row : MoneyTransaction
deposit_row = record {
  id = "m0";
  event = ("redeem", "code");
  user = 7;
  actor = 1;
  revision = 1;
  kind = "redeem";
  amount = pos 800;
  available = 800;
  held = 0;
  reference = "code";
}

abbrev entry : String → Account → ℤ → MoneyEntry
entry id account amount = record { transaction = id; account = account; amount = amount }

abbrev deposit_entries : List MoneyEntry
deposit_entries =
    entry "m0" (available_of 7) (pos 800) ∷ entry "m0" (system "redeem") (negsuc 799) ∷ []

abbrev balance : ℕ → ℕ → ℕ → Map ℕ Wallet
balance available held revision =
    (7, record { available = available; held = held; revision = revision }) ∷ []

abbrev paid_ledger : Ledger
paid_ledger = record {
  wallets = balance 800 0 1;
  transactions = deposit_row ∷ [];
  entries = deposit_entries;
}

abbrev paid_shop : Shop
paid_shop = record empty_shop { ledger = paid_ledger }

deposited : charge (some deposit) empty_shop.ledger ≡ ok paid_ledger
unfolding charge post_money fits wallet lookup moved posted insert movement_entries
deposited = refl

abbrev ordered_row : Order
ordered_row = record {
  id = "o1";
  user_id = 7;
  state = pending;
  created = 100;
  expires = 1000;
  offer = sample_offer;
  action = purchase;
  before_expiry = 9000;
  applied_revision = "";
  expected = "v";
  previous_end = 0;
  started = 0;
  next_attempt = 0;
  attempts = 0;
  refund_amount = pos 0;
  attempt_id = "";
  provider_id = "";
}

abbrev ordered_shop : Shop
ordered_shop = record paid_shop { orders = ("o1", ordered_row) ∷ [] }

ordered : create_order request "offer-a" 1 paid_shop ≡ ok ordered_shop
unfolding create_order lookup commerce_pending order_kind validate_entitlement_sites insert_order
    insert
ordered = refl

abbrev confirmed_row : Order
confirmed_row = record ordered_row { state = provisioning; previous_end = 5000; started = 100 }

abbrev hold_row : MoneyTransaction
hold_row = record {
  id = "m1";
  event = ("hold", "o1");
  user = 7;
  actor = 7;
  revision = 2;
  kind = "hold";
  amount = pos 500;
  available = 300;
  held = 500;
  reference = "o1";
}

abbrev hold_entries : List MoneyEntry
hold_entries =
    entry "m1" (available_of 7) (negsuc 499) ∷ entry "m1" (held_of 7) (pos 500) ∷ deposit_entries

abbrev stopped_buyer : User
stopped_buyer = record buyer { meter = some (record sample_meter { pending_reset = true }) }

abbrev confirmed_shop : Shop
confirmed_shop = record empty_shop {
  ledger = record {
    wallets = balance 300 500 2;
    transactions = hold_row ∷ deposit_row ∷ [];
    entries = hold_entries;
  };
  orders = ("o1", confirmed_row) ∷ [];
  users = (7, stopped_buyer) ∷ (1, owner) ∷ [];
}

confirmed : confirm_order request ordered_shop ≡ ok confirmed_shop
unfolding trim_space confirm_order find_order lookup confirm_checks validate_entitlement_sites
    settle hold_movement post_money fits wallet moved save_order confirmed_order tx_user
    confirmed_user posted insert movement_entries
confirmed = refl

reaches-Books_example : Books confirmed_shop
reaches-Books_example =
    reaches-Books empty_shop confirmed_shop
      (step (credits deposit paid_ledger refl deposited)
        (step (creates request "offer-a" 1 ordered) (step (confirms request confirmed) done)))
      empty_shop-Books

ordered_shop-Books : Books ordered_shop
ordered_shop-Books =
    create-Books request "offer-a" 1 paid_shop ordered_shop ordered
      (charge-Books deposit empty_shop paid_ledger refl deposited empty_shop-Books)

confirmed_shop-Books : Books confirmed_shop
confirmed_shop-Books =
    confirm-Books request ordered_shop confirmed_shop confirmed ordered_shop-Books

ordered_there : lookup "o1" ordered_shop.orders ≡ some ordered_row
unfolding lookup
ordered_there = refl

confirmed_there : lookup "o1" confirmed_shop.orders ≡ some confirmed_row
unfolding lookup
confirmed_there = refl

confirm-TakesPrice_example : TakesPrice ordered_row ordered_shop confirmed_shop
confirm-TakesPrice_example =
    confirm-TakesPrice request ordered_shop confirmed_shop ordered_row ordered_shop-Books confirmed
      ordered_there

abbrev release_row : MoneyTransaction
release_row = record {
  id = "m2";
  event = ("release", "o1");
  user = 7;
  actor = 7;
  revision = 3;
  kind = "release";
  amount = negsuc 499;
  available = 800;
  held = 0;
  reference = "o1";
}

abbrev cancelled_row : Order
cancelled_row = record confirmed_row { state = OrderState.cancelled }

abbrev cancelled_shop : Shop
cancelled_shop = record empty_shop {
  ledger = record {
    wallets = balance 800 0 3;
    transactions = release_row ∷ hold_row ∷ deposit_row ∷ [];
    entries =
        entry "m2" (available_of 7) (pos 500) ∷ entry "m2" (held_of 7) (negsuc 499) ∷ hold_entries;
  };
  orders = ("o1", cancelled_row) ∷ [];
}

cancelled : cancel_order (record request { transaction = "m2" }) confirmed_shop ≡ ok cancelled_shop
unfolding cancel_order find_order lookup settle release_movement post_money fits wallet
    return_payment moved save_order tx_user posted insert movement_entries
cancelled = refl

cancel_returns_hold_example :
    ((wallet 7 cancelled_shop.ledger).available
      ≡ (wallet 7 confirmed_shop.ledger).available + frozen confirmed_row)
    × ((wallet 7 cancelled_shop.ledger).held + frozen confirmed_row
        ≡ (wallet 7 confirmed_shop.ledger).held)
cancel_returns_hold_example =
    cancel_returns_hold (record request { transaction = "m2" }) confirmed_shop cancelled_shop
      confirmed_row confirmed_shop-Books cancelled confirmed_there

cancelled_there : lookup "o1" cancelled_shop.orders ≡ some cancelled_row
unfolding lookup
cancelled_there = refl

cancelled_shop-Books : Books cancelled_shop
cancelled_shop-Books =
    cancel-Books (record request { transaction = "m2" }) confirmed_shop cancelled_shop cancelled
      confirmed_shop-Books

abbrev second_row : Order
second_row = record ordered_row { id = "o2"; created = 150; expires = 1050 }

abbrev reordered_shop : Shop
reordered_shop = record cancelled_shop { orders = ("o1", cancelled_row) ∷ ("o2", second_row) ∷ [] }

reordered :
    create_order (record request { order = "o2"; now = 150 }) "offer-a" 1 cancelled_shop
    ≡ ok reordered_shop
unfolding create_order lookup commerce_pending order_kind validate_entitlement_sites insert_order
    insert
reordered = refl

order-Life_example :
    (o' : Order) × (lookup "o1" cancelled_shop.orders ≡ some o') × Life ordered_row.state o'.state
order-Life_example =
    order-Life ordered_shop cancelled_shop "o1" ordered_row ordered_shop-Books
      (step (confirms request confirmed)
        (step (cancels (record request { transaction = "m2" }) cancelled) done))
      ordered_there

abbrev server : Server
server = record {
  now = 200;
  transaction = "m3";
  period = "p2";
  revision = "r2";
  cycle_id = "c2";
  controller = true;
  calendar = sample_calendar;
  collect = λ users. ok users;
  local_nodes = λ u. true;
  owner_enabled = λ s. true;
  site_nodes = λ u s. true;
}

collects : IsCollector server.collect
collects = record {
  keys = λ users users' h k.
      subst (λ m. (id : ℕ) (u : User) → lookup id m ≡ some u → u.id ≡ id) (ground (arith, h)) k;
}

abbrev capture_row : MoneyTransaction
capture_row = record {
  id = "m3";
  event = ("capture", "o1");
  user = 7;
  actor = 0;
  revision = 3;
  kind = "purchase";
  amount = negsuc 499;
  available = 300;
  held = 0;
  reference = "o1";
}

abbrev new_entitlement : Entitlement
new_entitlement = record {
  plan_id = "plan-a";
  order_id = "o1";
  renewal_order_id = "";
  version = 1;
  name = "A";
  group_ids = [];
  node_ids = [];
  node_rates = [];
  cycle = "30d";
  timezone = "UTC";
  assigned_at = 200;
  revision = "r2";
}

abbrev paused : PlanSlot
paused = record {
  entitlement = some sample_entitlement;
  order_id = "order-0";
  renewal_order_id = "";
  node_rates = [];
  quota = 300;
  expires = 9000;
  paused_at = 200;
  vless = true;
  hy2 = false;
  meter = some (record sample_meter { pending_reset = true });
}

abbrev opened_buyer : User
opened_buyer = record buyer {
  entitlement = some new_entitlement;
  quota = 1000;
  hy2 = true;
  expires = 2592200;
  plan_queue = paused ∷ [];
  meter = some (record sample_meter {
    period_id = "c2";
    start = 200;
    ends = 2592200;
    base_upload = 40;
    base_download = 60;
    raw_base_upload = 40;
    raw_base_download = 60;
  });
}

abbrev opened_shop : Shop
opened_shop = record empty_shop {
  ledger = record {
    wallets = balance 300 0 3;
    transactions = capture_row ∷ hold_row ∷ deposit_row ∷ [];
    entries =
        entry "m3" (held_of 7) (negsuc 499)
        ∷ entry "m3" (system "purchase") (pos 500)
        ∷ hold_entries;
  };
  orders = ("o1", record confirmed_row { state = completed; applied_revision = "r2" }) ∷ [];
  users = (7, opened_buyer) ∷ (1, owner) ∷ [];
}

opened : fulfil_order server confirmed_row confirmed_shop ≡ ok opened_shop
unfolding opened_plan fulfil_order lookup fulfil_settled validate_entitlement_sites fulfil_step
    open_order purchased bought_user purchase_plan next_period reissue_sites settle capture_movement
    post_money fits wallet open_payment moved save_order fail_provisioning mark_receipt_refund
    release_movement return_payment update_attempt site_outdated is_eligible purchase_site_budgets
    site_budgets outstanding refund_movement refund_order refuse_disabled reissue reissue_site
    renewed_user charge tx_user init_meter add_counter assign_plan pause_current_plan ◌+ℤ◌ ◌-ℤ◌
    insert total find_checkpoint movement_entries posted
opened = refl

confirmed-IsDue : IsDue confirmed_row confirmed_shop
confirmed-IsDue = record { there = confirmed_there; state = refl }

fulfil-Fates_example : Fates confirmed_row confirmed_shop opened_shop
fulfil-Fates_example =
    fulfil-Fates server confirmed_row confirmed_shop opened_shop collects confirmed_shop-Books
      confirmed-IsDue opened
