-- ===== src/Commerce/Review.antt =====
-- The actions `request_refund`, `cancel_refund`, `reject_refund` and `refund` of `orderAction`
-- (controlplane/commerce_order_actions.go). The table `requests` holds the newest request of each
-- order, which is the one that `refundRequest` reads.
pub mod Quiet
pub mod Proofs
use guangyue_panel.Prelude.{
  ℕ, ◌+◌, String, Bool, true, false, not, ◌&&◌, ◌||◌, Option, none, some, List, Map, [], ◌∷◌, ltb,
  leb, ◌==◌, nat_eq, string_eq, if◌then◌else◌, lookup, insert, ℤ, pos, Result, ok, err, guard,
  or_fail, ◌>>=◌, ◌>>◌, Error, zero, suc, conflict, not_found, forbidden, not_refundable,
  entitlement_replaced, orders_pending, invalid_reason,
}
use guangyue_panel.Domain.Account.{User, Entitlement, PlanSlot, QuotaMeter, init_meter}
use guangyue_panel.Plans.{on_meter}
use guangyue_panel.Plans.Position.{
  Position, active, queued, missing, order_entitlement_position, remove_queued_entitlement,
}
use guangyue_panel.Wallet.{Movement}
use guangyue_panel.Commerce.{
  Order, OrderState, completed, refunding, refunded, refund_pending, OrderAction, purchase, renew,
  Shop, RequestState, requested, approved, rejected, withdrawn, RefundRequest, same_state,
}
use guangyue_panel.Commerce.Settle.{order_movement, settle}
use guangyue_panel.Commerce.Confirm.{Request}
use guangyue_panel.Commerce.Create.{commerce_pending_except}
use guangyue_panel.Commerce.Cancel.{to_refund, return_payment}
use guangyue_panel.Commerce.Refund.{refundable_order_amount}

-- The request that the client has seen, if it names one, and the length of its reason in runes.
pub record Review : Type 0 where
  pub call : Request
  pub request_id : String
  pub revision : ℕ
  pub fresh_id : String
  pub reason_length : ℕ

abbrev pub is_requested : Option RefundRequest → Bool
is_requested none = false
is_requested (some q) = elim q.state [ requested ↦ true | _ ↦ false ]

-- A client that names a request must name the present one.
abbrev pub names_current : Review → Option RefundRequest → Bool
names_current v none = v.request_id == ""
names_current v (some q) =
    v.request_id == "" || (q.id == v.request_id && ltb 0 v.revision && q.revision == v.revision)

-- A decision on an open request must name it.
abbrev pub names_open : Review → Option RefundRequest → Bool
names_open v q = not (is_requested q) || (not (v.request_id == "") && ltb 0 v.revision)

abbrev pub is_found : Position → Bool
is_found missing = false
is_found _ = true

-- The order with its account and its newest request; `denied` is what another member is told.
pub find_review : Error → Review → Shop → Result (Order × User)
find_review denied v s = do
  o ← or_fail (lookup v.call.order s.orders) not_found
  guard (v.call.actor.role == "owner" || v.call.actor.id == o.user_id) denied
  u ← or_fail (lookup o.user_id s.users) not_found
  guard (names_current v (lookup o.id s.requests)) conflict
  ok (o, u)

-- UPDATE commerce_refund_requests ... WHERE state='requested' AND revision=?
decided : RequestState → String → Map String RefundRequest → Map String RefundRequest
decided state id requests = elim (lookup id requests) [
  | none ↦ requests
  | some q ↦ insert id (record q { state = state; revision = q.revision + 1 }) requests
]

-- A decision is taken only on a request that is open.
unfoldable pub decide_open :
    RequestState → String → Map String RefundRequest → Map String RefundRequest
unfolding decided
decide_open state id requests =
    if is_requested (lookup id requests) then decided state id requests else requests

new_request : Review → Order → RefundRequest
new_request v o = record {
  id = v.fresh_id;
  order_id = o.id;
  user_id = o.user_id;
  state = requested;
  revision = 1;
}

unfoldable pub request_refund : Review → Shop → Result Shop
unfolding find_review new_request
request_refund v s = do
  (o, u) ← find_review forbidden v s
  guard (v.call.actor.id == o.user_id) forbidden
  guard (leb v.reason_length 500) invalid_reason
  guard (same_state o.state completed) not_refundable
  guard (is_found (order_entitlement_position u o.id)) entitlement_replaced
  guard (not (is_requested (lookup o.id s.requests))) conflict
  settle none o o.state u (record s { requests = insert o.id (new_request v o) s.requests })

unfoldable pub cancel_refund : Review → Shop → Result Shop
unfolding find_review
cancel_refund v s = do
  (o, u) ← find_review forbidden v s
  guard (names_open v (lookup o.id s.requests)) conflict
  guard (v.call.actor.id == o.user_id) forbidden
  guard (leb v.reason_length 500) invalid_reason
  guard (same_state o.state completed && is_requested (lookup o.id s.requests)) not_refundable
  settle none o o.state u (record s { requests = decide_open withdrawn o.id s.requests })

unfoldable pub reject_refund : Review → Shop → Result Shop
unfolding find_review
reject_refund v s = do
  guard (v.call.actor.role == "owner") forbidden
  (o, u) ← find_review forbidden v s
  guard (names_open v (lookup o.id s.requests)) conflict
  guard (same_state o.state completed && is_requested (lookup o.id s.requests)) not_refundable
  guard (leb v.reason_length 500) invalid_reason
  settle none o o.state u (record s { requests = decide_open rejected o.id s.requests })

-- A running plan is stopped and paid back when its last traffic is known.
unfoldable pub refund_running : Review → Order → User → Shop → Result Shop
unfolding init_meter
refund_running v o u s =
    let w = init_meter v.call.period v.call.now u in
    settle none
      (record o {
        refund_amount = refundable_order_amount o u v.call.now;
        started = v.call.now;
        next_attempt = 0;
        state = refunding;
      })
      o.state (record w { meter = on_meter (λ m. record m { pending_reset = true }) w.meter })
      (record s { requests = decide_open approved o.id s.requests })

slot_at : ℕ → List PlanSlot → Option PlanSlot
slot_at i [] = none
slot_at zero (s ∷ ss) = some s
slot_at (suc i) (s ∷ ss) = slot_at i ss

replace_at : ℕ → PlanSlot → List PlanSlot → List PlanSlot
replace_at i t [] = []
replace_at zero t (s ∷ ss) = t ∷ ss
replace_at (suc i) t (s ∷ ss) = s ∷ replace_at i t ss

abbrev pub takes_back_renewal : Order → PlanSlot → Bool
takes_back_renewal o slot = elim o.action [
  | renew ↦ slot.renewal_order_id == o.id
  | purchase ↦ false
]

without_renewal : Order → PlanSlot → PlanSlot
without_renewal o slot = record slot {
  expires = o.before_expiry;
  renewal_order_id = "";
  entitlement = elim slot.entitlement [
    | none ↦ none
    | some e ↦ some (record e { renewal_order_id = "" })
  ];
}

-- The renewal of a queued plan is taken back; any other queued purchase leaves the queue.
unfoldable pub unqueue : Order → ℕ → User → Result User
unfolding slot_at replace_at without_renewal
unqueue o i u = do
  slot ← or_fail (slot_at i u.plan_queue) conflict
  (if takes_back_renewal o slot
      then ok (record u { plan_queue = replace_at i (without_renewal o slot) u.plan_queue })
      else or_fail (remove_queued_entitlement i u) conflict)

unfoldable pub queue_movement : Request → ℤ → Order → User → Option Movement
queue_movement r amount o u =
    if o.attempt_id == "" && ltb 0 o.offer.price
    then some (order_movement r.transaction u.id r.actor.id "refund" "refund" o.id amount (pos 0))
    else none

-- A queued plan has not been used and is paid back at once.
unfoldable pub refund_queued : Review → ℕ → Order → User → Shop → Result Shop
refund_queued v i o u s = do
  w ← unqueue o i u
  let amount = refundable_order_amount o u v.call.now
  settle (queue_movement v.call amount o u)
      (record o {
        refund_amount = amount;
        state = if o.attempt_id == "" then refunded else refund_pending;
      })
      o.state w
      (return_payment to_refund o (record s { requests = decide_open approved o.id s.requests }))

abbrev pub refund_way : Review → Order → User → Shop → Position → Result Shop
refund_way v o u s active = refund_running v o u s
refund_way v o u s (queued i) = refund_queued v i o u s
refund_way v o u s missing = err entitlement_replaced

unfoldable pub refund_action : Review → Shop → Result Shop
unfolding find_review
refund_action v s = do
  guard (v.call.actor.role == "owner") forbidden
  (o, u) ← find_review not_found v s
  guard (names_open v (lookup o.id s.requests)) conflict
  guard (same_state o.state completed) not_refundable
  guard (is_found (order_entitlement_position u o.id)) entitlement_replaced
  guard (not (commerce_pending_except u.id o.id s.orders)) orders_pending
  refund_way v o u s (order_entitlement_position u o.id)
