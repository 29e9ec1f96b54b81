-- ===== src/Commerce/Refund.antt =====
-- `refundableOrderAmount` of controlplane/commerce_orders.go. Its products are int64 and may wrap.
use guangyue_panel.Prelude.{
  ℕ, ◌-◌, ◌*◌, ◌/◌, ◌^◌, ◌≤◌, ◌<◌, ◌≡◌, refl, Bool, false, ◌&&◌, Option, none, some, ltb, ◌==◌,
  nat_eq, string_eq, if◌then◌else◌, min, ℤ, pos, pos_part, neg_part, int64, quot, ◌≤ℤ◌, arith,
  int64_in_range,
}
use guangyue_panel.Domain.Account.{User, Entitlement, quota_used}
use guangyue_panel.Domain.Periods.{day}
use guangyue_panel.Plans.Position.{active, queued, missing, order_entitlement_position}
use guangyue_panel.Commerce.{Order}

abbrev assigned : Option Entitlement → Bool
assigned none = false
assigned (some e) = ltb 0 e.assigned_at

-- Share of an amount, by Go's int64 product and division.
unfoldable pub share : ℕ → ℕ → ℕ → ℤ
share amount part whole = quot (int64 (amount * part)) whole

-- The part of an active order's price that its unused quota, or its unused time, backs.
unfoldable pub active_refund : Order → User → ℕ → ℤ
active_refund o u now =
    let amount = o.offer.price in
    let quota = o.offer.plan.quota in
    let whole = o.offer.plan.valid_days * day in
    let left = u.expires - now in
    if ltb 0 quota && ltb 0 (quota_used u)
    then share amount (quota - min quota (quota_used u)) quota
    else if quota == 0 && ltb 0 o.offer.plan.valid_days && assigned u.entitlement
    then if ltb 0 whole && ltb left whole then share amount left whole else pos amount
    else pos amount

unfoldable pub refundable_order_amount : Order → User → ℕ → ℤ
unfolding active_refund
refundable_order_amount o u now =
    if o.offer.price == 0 then pos 0 else elim (order_entitlement_position u o.id) [
      | active ↦ active_refund o u now
      | queued i ↦ pos o.offer.price
      | missing ↦ pos o.offer.price
    ]

share_le : (a p w : ℕ) → p ≤ w → 0 < w → a * p / w ≤ a
share_le a p w h k = grind arith

share_ok : (a p w : ℕ) → a * p < 2 ^ 63 → share a p w ≡ pos (a * p / w)
unfolding share
share_ok a p w h = rw (int64_in_range (a * p) h)

times_le : (a p q : ℕ) → p ≤ q → a * p ≤ a * q
times_le a p q h = grind arith

-- Where the product fits, a share of a part is the exact quotient and at most the amount.
share_bounds :
    (a p w : ℕ)
    → p ≤ w
    → a * w < 2 ^ 63
    → 0 < w
    → (neg_part (share a p w) ≡ 0) × (pos_part (share a p w) ≤ a)
share_bounds a p w h small positive =
    let fit : a * p < 2 ^ 63 = omega (arith, times_le a p w h) in
    rw (share_ok a p w fit) (refl, share_le a p w h positive)

active_refund_bounds :
    (o : Order) (u : User) (now : ℕ)
    → o.offer.price * o.offer.plan.quota < 2 ^ 63
    → o.offer.price * (o.offer.plan.valid_days * day) < 2 ^ 63
    → (neg_part (active_refund o u now) ≡ 0) × (pos_part (active_refund o u now) ≤ o.offer.price)
unfolding active_refund
active_refund_bounds o u now hq ht =
    let price = o.offer.price in
    let quota = o.offer.plan.quota in
    let whole = o.offer.plan.valid_days * day in
    let by_quota = share_bounds price (quota - min quota (quota_used u)) quota (omega arith) hq in
    let by_time =
      λ (h : u.expires - now ≤ whole). share_bounds price (u.expires - now) whole h ht in
    ground (arith, by_quota, by_time)

-- While price times quota and price times duration stay below 2^63, a refund lies between nothing
-- and the price.
pub refund_within_price :
    (o : Order) (u : User) (now : ℕ)
    → o.offer.price * o.offer.plan.quota < 2 ^ 63
    → o.offer.price * (o.offer.plan.valid_days * day) < 2 ^ 63
    → (neg_part (refundable_order_amount o u now) ≡ 0)
      × (pos_part (refundable_order_amount o u now) ≤ o.offer.price)
unfolding refundable_order_amount
refund_within_price o u now hq ht =
    elim (order_entitlement_position u o.id)
      as (λ q.
        (neg_part (
            if o.offer.price == 0 then pos 0 else elim q [
              | active ↦ active_refund o u now
              | queued i ↦ pos o.offer.price
              | missing ↦ pos o.offer.price
            ])
          ≡ 0)
        × (pos_part (
              if o.offer.price == 0 then pos 0 else elim q [
                | active ↦ active_refund o u now
                | queued i ↦ pos o.offer.price
                | missing ↦ pos o.offer.price
              ])
            ≤ o.offer.price)) [
              | active ↦ ground (arith, active_refund_bounds o u now hq ht)
              | queued i ↦ ground arith
              | missing ↦ ground arith
            ]

share_wraps : (a p w : ℕ) → 2 ^ 63 ≤ a * p → a * p < 2 ^ 64 → share a p w ≤ℤ pos 0
unfolding share
share_wraps a p w low high = ground arith

true_share : (a p w : ℕ) → 2 ^ 63 ≤ a * p → 0 < w → w ≤ 2 ^ 60 → 0 < a * p / w
true_share a p w low positive h = grind arith

-- For the running plan of an order with a quota of at most 2^60 of which something is used: if the
-- product of price and unused quota lies from 2^63 up to 2^64, nothing is refunded, although price
-- times unused quota over quota is positive.
pub refund_overflow :
    (o : Order) (u : User) (now : ℕ)
    → order_entitlement_position u o.id ≡ active
    → 0 < quota_used u
    → 0 < o.offer.plan.quota
    → o.offer.plan.quota ≤ 2 ^ 60
    → 2 ^ 63 ≤ o.offer.price * (o.offer.plan.quota - min o.offer.plan.quota (quota_used u))
    → o.offer.price * (o.offer.plan.quota - min o.offer.plan.quota (quota_used u)) < 2 ^ 64
    → (refundable_order_amount o u now ≤ℤ pos 0)
      × (0
          < o.offer.price
            * (o.offer.plan.quota - min o.offer.plan.quota (quota_used u))
            / o.offer.plan.quota)
unfolding refundable_order_amount active_refund
refund_overflow o u now here used positive bounded low high =
    let part = o.offer.plan.quota - min o.offer.plan.quota (quota_used u) in
    (
      ground (arith, here, share_wraps o.offer.price part o.offer.plan.quota low high),
      true_share o.offer.price part o.offer.plan.quota low positive bounded,
    )
