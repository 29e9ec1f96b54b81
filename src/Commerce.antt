-- ===== src/Commerce.antt =====
-- Orders: the types of controlplane/commerce_orders.go and commerce_types.go, the tables that orders
-- live in, and the guarded writes `saveOrder` and `txUser`.
pub mod Refund
pub mod Held
pub mod Settle
pub mod Confirm
pub mod Cancel
pub mod Fulfil
pub mod Create
pub mod Review
pub mod Work
pub mod Moves
pub mod Reach
use guangyue_panel.Prelude.{
  ℕ, ◌+◌, ◌≡◌, String, Bool, true, false, not, ◌&&◌, ◌||◌, Option, none, some, List, Map, [], ◌∷◌,
  ltb, leb, ◌==◌, nat_eq, string_eq, if◌then◌else◌, lookup, insert, ℤ, Result, ok, err, guard,
  or_fail, ◌>>=◌, ◌>>◌, conflict, not_found,
}
use guangyue_panel.Domain.Account.{User}
use guangyue_panel.Plans.{Plan}
use guangyue_panel.Wallet.{Ledger}
use guangyue_panel.Sites.{BusinessSite}

pub data OrderState : Type 0 where
  pending provisioning completed failed expired cancelled refunding refunded refund_pending :
      OrderState

pub data OrderAction : Type 0 where
  purchase renew : OrderAction

pub data AttemptState : Type 0 where
  created awaiting_customer paid attempt_completed refund_required attempt_cancelled attempt_expired
        attempt_refunded :
      AttemptState

pub record Offer : Type 0 where
  pub id : String
  pub version : ℕ
  pub enabled : Bool
  pub price : ℕ
  pub purchase_limit : ℕ
  pub plan : Plan

-- The empty text in `attempt_id` is an order that is paid from the balance.
pub record Order : Type 0 where
  pub id : String
  pub user_id : ℕ
  pub state : OrderState
  pub created : ℕ
  pub expires : ℕ
  pub offer : Offer
  pub action : OrderAction
  pub before_expiry : ℕ
  pub applied_revision : String
  pub expected : String
  pub previous_end : ℕ
  pub started : ℕ
  pub next_attempt : ℕ
  pub attempts : ℕ
  pub refund_amount : ℤ
  pub attempt_id : String
  pub provider_id : String

-- The empty text in `external_ref` is an attempt that no payment has claimed.
pub record PaymentAttempt : Type 0 where
  pub id : String
  pub order_id : String
  pub user_id : ℕ
  pub provider_id : String
  pub state : AttemptState
  pub amount : ℕ
  pub currency : String
  pub merchant_ref : String
  pub external_ref : String
  pub created : ℕ
  pub expires : ℕ
  pub purpose : String
  pub account_scope : String

pub data RequestState : Type 0 where
  requested approved rejected withdrawn : RequestState

pub record RefundRequest : Type 0 where
  pub id : String
  pub order_id : String
  pub user_id : ℕ
  pub state : RequestState
  pub revision : ℕ

pub data ReceiptState : Type 0 where
  verified applied receipt_refund_required review_required receipt_refund_pending receipt_refunded :
      ReceiptState

pub record PaymentReceipt : Type 0 where
  pub id : String
  pub account_scope : String
  pub provider_id : String
  pub external_ref : String
  pub attempt_id : String
  pub order_id : String
  pub user_id : ℕ
  pub amount : ℕ
  pub currency : String
  pub state : ReceiptState
  pub created : ℕ

-- The tables that the commerce handlers read and write; `requests` holds the newest request of
-- each order.
pub record Shop : Type 0 where
  pub ledger : Ledger
  pub orders : Map String Order
  pub users : Map ℕ User
  pub attempts : Map String PaymentAttempt
  pub receipts : List PaymentReceipt
  pub requests : Map String RefundRequest
  pub sites : List BusinessSite
  pub offers : Map String Offer
  pub plans : Map String Plan

abbrev pub same_state : OrderState → OrderState → Bool
same_state pending pending = true
same_state provisioning provisioning = true
same_state completed completed = true
same_state failed failed = true
same_state expired expired = true
same_state cancelled cancelled = true
same_state refunding refunding = true
same_state refunded refunded = true
same_state refund_pending refund_pending = true
same_state _ _ = false

-- The row is written only if it still is in the state that the handler has read.
unfoldable pub save_order : Order → OrderState → Shop → Result Shop
save_order o previous s = do
  row ← or_fail (lookup o.id s.orders) conflict
  guard (same_state row.state previous) conflict
  ok (record s { orders = insert o.id o s.orders })

unfoldable pub tx_user : User → Shop → Result Shop
tx_user u s = do
  row ← or_fail (lookup u.id s.users) conflict
  ok (record s { users = insert u.id u s.users })
