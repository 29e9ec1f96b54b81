-- ===== src/Tests/Accounts.antt =====
-- Accounts: money, plans that are paused and resumed, metered traffic, quota periods.
use guangyue_panel.Prelude.{
  ℕ, ◌+◌, ◌*◌, ◌/◌, ◌%◌, ◌≤◌, ◌<◌, ◌≡◌, refl, true, false, some, [], ◌∷◌, ◌++◌, leb, if◌then◌else◌,
  pos, negsuc, ℤ, ok, err, lookup, insert, any, nat_eq, string_eq, arith, inr, insufficient_balance,
  weighted_limit,
}
use guangyue_panel.Domain.Account.{User, QuotaMeter, quota_used}
use guangyue_panel.Domain.Counters.{weighted_bytes, counter_limit, add_counter}
use guangyue_panel.Domain.Counters.Weighted.{
  IsSample, weighted_total, weighted_bytes_lem, meter_samples, metering_ignores_sampling,
}
use guangyue_panel.Domain.Periods.{next_period}
use guangyue_panel.Plans.{opened_plan, purchase_plan, pause_current_plan, assign_plan}
use guangyue_panel.Plans.Queue.{Visit, Running, Resumes, buy, buy_all, return_all, plans_return}
use guangyue_panel.Plans.Position.{
  queued, FirstOf, order_entitlement_position, remove_queued_entitlement, removal_keeps_others,
  index_of, slot_of,
}
use guangyue_panel.Wallet.{
  Ledger, Movement, wallet, clashes, fits, moved, posted, post_money, find_checkpoint,
}
use guangyue_panel.Wallet.Reconciled.{IsSound, HasCheckpoint}
use guangyue_panel.Wallet.Post.{post_money_total, post_money-IsSound}
use guangyue_panel.Metering.{
  Counter, Books, Policies, up, vless, charge_user, step_counter, account, delta_of, add_usage,
}
use guangyue_panel.Metering.Proofs.{
  IsCharged, charge_user_exact, step_counter_twice, AllSplit, account-AllSplit,
}
use guangyue_panel.Cycles.{Round, rolled_over, period_start, period_end, new_period}
use guangyue_panel.Cycles.Proofs.{rolled_over_resets, period_covers_now}
use guangyue_panel.Tests.Sample.{
  buyer, sample_plan, sample_meter, sample_entitlement, sample_calendar, empty_ledger,
  empty-IsSound,
}

abbrev redeem : ℤ → Movement
redeem amount = record {
  id = "m0";
  user = 7;
  actor = 1;
  event = ("redeem", "code");
  kind = "redeem";
  reference = "code";
  available_delta = amount;
  held_delta = pos 0;
}

abbrev redeemed : Ledger
redeemed = posted (redeem (pos 800)) (moved (wallet 7 empty_ledger) (redeem (pos 800))) empty_ledger

redeem_goes :
    post_money (redeem (pos 800)) empty_ledger
    ≡ ok (moved (wallet 7 empty_ledger) (redeem (pos 800)), redeemed)
unfolding post_money fits wallet lookup moved
redeem_goes = refl

post_money-IsSound_example : IsSound redeemed
post_money-IsSound_example =
    post_money-IsSound (redeem (pos 800)) empty_ledger redeemed
      (moved (wallet 7 empty_ledger) (redeem (pos 800))) redeem_goes empty-IsSound

empty_checkpoint : HasCheckpoint empty_ledger 7
unfolding wallet find_checkpoint lookup
empty_checkpoint = (refl, refl, refl)

no_clash :
    any
      (clashes (redeem (negsuc 0)) ((wallet 7 empty_ledger).revision + 1))
      empty_ledger.transactions
    ≡ false
no_clash = refl

post_money_total_example : post_money (redeem (negsuc 0)) empty_ledger ≡ (
    if fits (wallet 7 empty_ledger) (redeem (negsuc 0))
    then ok (
      moved (wallet 7 empty_ledger) (redeem (negsuc 0)),
      posted (redeem (negsuc 0)) (moved (wallet 7 empty_ledger) (redeem (negsuc 0))) empty_ledger,
    )
    else err insufficient_balance)
post_money_total_example =
    post_money_total (redeem (negsuc 0)) empty_ledger empty_checkpoint no_clash

abbrev visit : Visit
visit = record {
  plan = sample_plan;
  order_id = "o1";
  at = 100;
  back = 600;
  period = "p1";
  revision = "r1";
  cycle_id = "c1";
}

abbrev bought_buyer : User
bought_buyer = record buyer {
  entitlement = some (record {
    plan_id = "plan-a";
    order_id = "o1";
    renewal_order_id = "";
    version = 1;
    name = "A";
    group_ids = [];
    node_ids = [];
    node_rates = [];
    cycle = "30d";
    timezone = "UTC";
    assigned_at = 100;
    revision = "r1";
  });
  quota = 1000;
  hy2 = true;
  expires = 2592100;
  plan_queue =
      record {
        entitlement = some sample_entitlement;
        order_id = "order-0";
        renewal_order_id = "";
        node_rates = [];
        quota = 300;
        expires = 9000;
        paused_at = 100;
        vless = true;
        hy2 = false;
        meter = some sample_meter;
      }
      ∷ [];
  meter = some (record sample_meter {
    period_id = "c1";
    start = 100;
    ends = 2592100;
    base_upload = 40;
    base_download = 60;
    raw_base_upload = 40;
    raw_base_download = 60;
  });
}

bought : buy_all sample_calendar (visit ∷ []) buyer ≡ ok bought_buyer
unfolding opened_plan buy_all buy purchase_plan next_period assign_plan pause_current_plan
bought = refl

runs_once : Running sample_calendar (visit ∷ []) buyer
runs_once = (inr (omega arith), (sample_entitlement, refl), λ w h. tt)

plans_return_example : Resumes 100 600 buyer (return_all (visit ∷ []) bought_buyer)
plans_return_example = plans_return sample_calendar visit [] buyer bought_buyer runs_once bought

waits_first : order_entitlement_position bought_buyer "order-0" ≡ queued 0
unfolding order_entitlement_position index_of slot_of
waits_first = refl

removal_keeps_others_example :
    (r : FirstOf "order-0" bought_buyer.plan_queue 0) × (remove_queued_entitlement 0 bought_buyer
      ≡ some (record bought_buyer { plan_queue = r.before ++ r.after }))
removal_keeps_others_example = removal_keeps_others bought_buyer "order-0" 0 waits_first

sample : IsSample 1500 1500 7
sample = record {
  counted = omega arith;
  rated = omega arith;
  stepped = refl;
  residual = omega arith;
}

weighted_bytes_lem_example : weighted_bytes (pos 1500) (pos 1500) (pos 7) ≡ (
    if leb (weighted_total 1500 1500 7 / 1000) counter_limit
    then ok (weighted_total 1500 1500 7 / 1000, weighted_total 1500 1500 7 % 1000)
    else err weighted_limit)
weighted_bytes_lem_example = weighted_bytes_lem 1500 1500 7 sample

one_sample : meter_samples 1500 0 (3 ∷ []) ≡ ok (4, 500)
unfolding meter_samples weighted_bytes
one_sample = refl

three_samples : meter_samples 1500 0 (1 ∷ 1 ∷ 1 ∷ []) ≡ ok (4, 500)
unfolding meter_samples weighted_bytes
three_samples = refl

metering_ignores_sampling_example : ◌≡◌ {A = ℕ × ℕ} (4, 500) (4, 500)
metering_ignores_sampling_example =
    metering_ignores_sampling 1500 0 (3 ∷ []) (1 ∷ 1 ∷ 1 ∷ []) (4, 500) (4, 500) (omega arith) refl
      one_sample three_samples

abbrev counter : Counter
counter = record {
  key = "k";
  generation = "g";
  protocol = vless;
  direction = up;
  node_id = "";
  user_id = 7;
  value = 30;
}

abbrev policies : Policies
policies u node = (1500, "legacy-1")

abbrev empty_books : Books
empty_books = record { users = (7, buyer) ∷ []; checkpoints = []; node_usage = [] }

abbrev charged_buyer : User
charged_buyer = record buyer {
  upload = 70;
  vless_traffic = 130;
  meter = some (record sample_meter { upload = 85; upload_remainder = 0 });
}

charged : charge_user counter 30 1500 buyer ≡ ok charged_buyer
unfolding charge_user weighted_bytes add_counter
charged = refl

charge_user_exact_example : IsCharged counter 30 1500 buyer charged_buyer sample_meter
charge_user_exact_example =
    charge_user_exact counter 30 1500 buyer charged_buyer sample_meter refl charged

abbrev charged_books : Books
charged_books = record {
  users = (7, charged_buyer) ∷ [];
  checkpoints = ("k", ("g", 30)) ∷ [];
  node_usage =
      record {
        user_id = 7;
        node_id = "vless-main";
        period_id = "p0";
        rate_revision = "legacy-1";
        rate_milli = 1500;
        upload = 30;
        download = 0;
      }
      ∷ [];
}

counted : step_counter policies "p9" 10 counter empty_books ≡ ok charged_books
unfolding step_counter lookup delta_of charge_user weighted_bytes add_counter insert add_usage
counted = refl

step_counter_twice_example : step_counter policies "p9" 20 counter charged_books ≡ ok charged_books
step_counter_twice_example =
    step_counter_twice policies "p9" "p9" 10 20 counter empty_books charged_books counted

accounted : account policies "p9" 10 (counter ∷ []) empty_books ≡ ok charged_books
unfolding account step_counter lookup delta_of charge_user weighted_bytes add_counter insert
    add_usage
accounted = refl

empty_books-AllSplit : AllSplit empty_books
unfolding lookup
empty_books-AllSplit = λ id u h. ground (arith, h)

account-AllSplit_example : AllSplit charged_books
account-AllSplit_example =
    account-AllSplit policies "p9" 10 (counter ∷ []) empty_books charged_books accounted
      empty_books-AllSplit

starts : period_start sample_calendar 7000000 5000 (some sample_entitlement) ≡ ok 5189000
unfolding period_start
starts = refl

ends : period_end sample_calendar 5189000 (some sample_entitlement) ≡ ok 7781000
unfolding next_period
ends = refl

period_covers_now_example :
    (5189000 ≤ 7000000)
    × (7000000 < 7781000)
    × (7781000 ≡ 5189000 + 2592000)
    × ((k : ℕ) × (5189000 ≡ 5000 + k * 2592000))
period_covers_now_example =
    period_covers_now sample_calendar 7000000 5000 5189000 7781000 sample_entitlement (omega arith)
      (omega arith) refl starts ends

abbrev round : Round
round = record {
  now = 7000;
  period = "p5";
  revision = "r5";
  calendar = sample_calendar;
  barrier = λ user. false;
  collect = λ users. ok users;
}

abbrev rolled_buyer : User
rolled_buyer = record buyer {
  meter = some (record sample_meter {
    period_id = "p5";
    start = 5000;
    ends = 2597000;
    base_upload = 40;
    base_download = 60;
    raw_base_upload = 40;
    raw_base_download = 60;
  });
}

rolled : rolled_over round buyer ≡ ok rolled_buyer
unfolding rolled_over period_start next_period new_period
rolled = refl

rolled_over_resets_example :
    (n : QuotaMeter) × (rolled_buyer.meter ≡ some n)
    × (quota_used rolled_buyer ≡ 0)
    × (n.pending_reset ≡ false)
    × (n.upload ≡ 40)
    × (n.download ≡ 60)
    × (rolled_buyer.upload ≡ buyer.upload)
    × (rolled_buyer.download ≡ buyer.download)
    × (rolled_buyer.vless_traffic ≡ buyer.vless_traffic)
    × (rolled_buyer.hy2_traffic ≡ buyer.hy2_traffic)
rolled_over_resets_example = rolled_over_resets round buyer rolled_buyer sample_meter refl rolled
