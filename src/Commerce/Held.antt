-- ===== src/Commerce/Held.antt =====
-- The held balance of a user is the price of the orders that are being provisioned from the
-- balance: the check `held balance does not match orders` of controlplane/commerce_integrity.go.
use guangyue_panel.Prelude.{
  ℕ, ◌+◌, ◌≡◌, String, ◌&&◌, none, some, Map, ◌==◌, nat_eq, string_eq, if◌then◌else◌, lookup,
  insert, sum_rows, sum_rows-insert, sum_rows-insert_new,
}
use guangyue_panel.Commerce.{Order, provisioning, Shop, same_state}
use guangyue_panel.Wallet.{wallet}

-- What an order holds of a user's balance.
unfoldable pub held_by : ℕ → Order → ℕ
held_by user o =
    if same_state o.state provisioning && o.attempt_id == "" && o.user_id == user
    then o.offer.price
    else 0

abbrev pub held_orders : ℕ → Map String Order → ℕ
held_orders user orders = sum_rows (held_by user) orders

pub record HeldMatches (s : Shop) : Type 0 where
  pub at : (user : ℕ) → (wallet user s.ledger).held ≡ held_orders user s.orders

-- Writing a row in place of another changes the sum by the difference of the two.
pub held_orders-insert :
    (user : ℕ) (id : String) (o old : Order) (orders : Map String Order)
    → lookup id orders ≡ some old
    → held_orders user (insert id o orders) + held_by user old
      ≡ held_orders user orders + held_by user o
held_orders-insert user id o old orders h = sum_rows-insert (held_by user) id o old orders h

-- A new row adds what it holds.
pub held_orders-insert_new :
    (user : ℕ) (id : String) (o : Order) (orders : Map String Order)
    → lookup id orders ≡ none
    → held_orders user (insert id o orders) ≡ held_orders user orders + held_by user o
held_orders-insert_new user id o orders h = sum_rows-insert_new (held_by user) id o orders h
