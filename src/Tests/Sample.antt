-- ===== src/Tests/Sample.antt =====
-- A buyer, an owner, a plan and its offer, and an empty shop for them.
use guangyue_panel.Prelude.{
  ℕ, ◌+◌, ◌≡◌, refl, true, false, none, some, [], ◌∷◌, lookup, nat_eq, string_eq, arith, ltb,
}
use guangyue_panel.Prelude.Text.{TextOrder, rune_count}
use guangyue_panel.Domain.Account.{User, QuotaMeter, Entitlement}
use guangyue_panel.Domain.Periods.{Zone, Calendar}
use guangyue_panel.Plans.{Plan}
use guangyue_panel.Wallet.{Ledger, wallet, find_checkpoint}
use guangyue_panel.Wallet.Reconciled.{IsSound}
use guangyue_panel.Commerce.{Order, Offer, Shop, same_state, provisioning}
use guangyue_panel.Commerce.Held.{held_by}
use guangyue_panel.Commerce.Settle.{Books}

abbrev pub sample_plan : Plan
sample_plan = record {
  id = "plan-a";
  version = 1;
  name = "A";
  archived = false;
  quota = 1000;
  valid_days = 30;
  cycle = "30d";
  timezone = "UTC";
  group_ids = [];
  node_ids = [];
  node_rates = [];
  vless = true;
  hy2 = true;
  price = 500;
}

abbrev pub sample_offer : Offer
sample_offer = record {
  id = "offer-a";
  version = 1;
  enabled = true;
  price = 500;
  purchase_limit = 0;
  plan = sample_plan;
}

abbrev pub sample_meter : QuotaMeter
sample_meter = record {
  initial_upload = 0;
  initial_download = 0;
  period_id = "p0";
  start = 0;
  ends = 5000;
  pending_reset = false;
  upload = 40;
  download = 60;
  upload_remainder = 0;
  download_remainder = 0;
  base_upload = 0;
  base_download = 0;
  raw_base_upload = 0;
  raw_base_download = 0;
}

abbrev pub sample_entitlement : Entitlement
sample_entitlement = record {
  plan_id = "plan-0";
  order_id = "order-0";
  renewal_order_id = "";
  version = 1;
  name = "0";
  group_ids = [];
  node_ids = [];
  node_rates = [];
  cycle = "30d";
  timezone = "UTC";
  assigned_at = 1;
  revision = "r0";
}

abbrev pub buyer : User
buyer = record {
  node_group_ids = none;
  mount = none;
  archived = false;
  id = 7;
  username = "buyer";
  role = "user";
  enabled = true;
  vless = true;
  hy2 = false;
  expires = 9000;
  quota = 300;
  upload = 40;
  download = 60;
  vless_traffic = 100;
  hy2_traffic = 0;
  created = 0;
  last_sub = 0;
  compiled_groups = none;
  meter = some sample_meter;
  entitlement = some sample_entitlement;
  plan_queue = [];
}

abbrev pub owner : User
owner = record buyer { id = 1; username = "owner"; role = "owner" }

-- Every instant is in one month that ends after it.
abbrev pub one_zone : Zone
one_zone = record { month_start = λ t. t; next_month = λ t. t + 100 }

abbrev pub sample_calendar : Calendar
sample_calendar = record { load = λ name. some one_zone }

abbrev pub empty_ledger : Ledger
empty_ledger = record { wallets = []; transactions = []; entries = [] }

abbrev pub empty_shop : Shop
empty_shop = record {
  ledger = empty_ledger;
  orders = [];
  users = (7, buyer) ∷ (1, owner) ∷ [];
  attempts = [];
  receipts = [];
  requests = [];
  sites = [];
  offers = ("offer-a", sample_offer) ∷ [];
  plans = ("plan-a", sample_plan) ∷ [];
}

pub empty-IsSound : IsSound empty_ledger
unfolding lookup wallet find_checkpoint
empty-IsSound = record {
  reconciled =
      λ user. record { available = refl; held = refl; bounded = omega arith; counted = refl };
  checkpoint = λ user. (refl, refl, refl);
  balanced = refl;
}

pub empty_shop-Books : Books empty_shop
unfolding lookup wallet
empty_shop-Books = record {
  sound = empty-IsSound;
  matches = record { at = λ user. refl };
  order_key = λ id o h. absurd (ground (arith, h));
  user_key = λ id u h. ground (arith, h);
}

-- One order that holds nothing, and one account beside the owner's.
pub shop_with-Books :
    (o : Order) (u : User)
    → o.id ≡ "o1"
    → same_state o.state provisioning ≡ false
    → u.id ≡ 7
    → Books (record empty_shop { orders = ("o1", o) ∷ []; users = (7, u) ∷ (1, owner) ∷ [] })
unfolding lookup wallet held_by
shop_with-Books o u name free own = record {
  sound = empty-IsSound;
  matches = record { at = λ user. ground (arith, free) };
  order_key = λ id p h. ground (arith, h, name, string_eq.beq_iff "o1" id);
  user_key = λ id v h. ground (arith, h, own);
}

pub less_self : (n : ℕ) → ltb n n ≡ false
less_self n = ground arith

pub less_trans : (l m n : ℕ) → ltb l m ≡ true → ltb m n ≡ true → ltb l n ≡ true
less_trans l m n h k = ground (arith, h, k)

-- An order of texts for the samples, whose names differ in length.
abbrev pub by_length : TextOrder
unfolding rune_count
by_length = record {
  less = λ a b. ltb (rune_count a) (rune_count b);
  irreflexive = λ a. less_self (rune_count a);
  transitive = λ a b c. less_trans (rune_count a) (rune_count b) (rune_count c);
}
