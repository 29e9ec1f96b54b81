-- ===== src/Plans/Position.antt =====
-- controlplane/commerce_orders.go: `orderEntitlementPosition` and `removeQueuedEntitlement`.
use guangyue_panel.Prelude.{
  ℕ, zero, suc, ◌≡◌, refl, ap, inl, inr, String, Bool, true, false, ◌||◌, Option, none, some, List,
  [], ◌∷◌, ◌++◌, length, any, ◌==◌, string_eq, if◌then◌else◌, arith, Bool-cases, Option-cases,
}
use guangyue_panel.Domain.Account.{User, Entitlement, PlanSlot}

pub data Position : Type 0 where
  active : Position
  queued : ℕ → Position
  missing : Position

-- The purchase that a slot stands for, and whether a slot belongs to an order.
slot_order : PlanSlot → String
slot_order s =
    if s.order_id == ""
    then elim s.entitlement [
      | none ↦ s.order_id
      | some e ↦ if e.order_id == "" then e.renewal_order_id else e.order_id
    ]
    else s.order_id

unfoldable pub slot_of : String → PlanSlot → Bool
unfolding slot_order
slot_of order s = slot_order s == order || s.renewal_order_id == order

abbrev entitles : String → Option Entitlement → Bool
entitles order none = false
entitles order (some e) = e.order_id == order || e.renewal_order_id == order

unfoldable pub index_of : String → List PlanSlot → Option ℕ
index_of order [] = none
index_of order (s ∷ ss) =
    let rest = index_of order ss in
    if slot_of order s then some 0 else elim rest [ none ↦ none | some i ↦ some (suc i) ]

unfoldable pub order_entitlement_position : User → String → Position
order_entitlement_position u order =
    if order == ""
    then missing
    else if entitles order u.entitlement
    then active
    else elim (index_of order u.plan_queue) [ none ↦ missing | some i ↦ queued i ]

unfoldable pub remove_at : ℕ → List PlanSlot → Option (List PlanSlot)
remove_at i [] = none
remove_at zero (s ∷ ss) = some ss
remove_at (suc i) (s ∷ ss) = elim (remove_at i ss) [ none ↦ none | some rest ↦ some (s ∷ rest) ]

-- An index out of range removes nothing and says so.
unfoldable pub remove_queued_entitlement : ℕ → User → Option User
unfolding remove_at
remove_queued_entitlement i u = elim (remove_at i u.plan_queue) [
  | none ↦ none
  | some rest ↦ some (record u { plan_queue = rest })
]

-- `i` splits the queue at the first slot of the order.
pub record FirstOf (order : String) (queue : List PlanSlot) (i : ℕ) : Type 0 where
  pub before : List PlanSlot
  pub slot : PlanSlot
  pub after : List PlanSlot
  pub split : queue ≡ before ++ slot ∷ after
  pub place : length before ≡ i
  pub owned : slot_of order slot ≡ true
  pub first : any (slot_of order) before ≡ false

index_of-FirstOf :
    (order : String) (queue : List PlanSlot) (i : ℕ)
    → index_of order queue ≡ some i
    → FirstOf order queue i
unfolding index_of
index_of-FirstOf order [] i h = absurd (ground arith)
index_of-FirstOf order (s ∷ ss) i h = elim (Bool-cases (slot_of order s)) [
  | inl hit ↦ record {
    before = [];
    slot = s;
    after = ss;
    split = refl;
    place = ground (arith, hit);
    owned = hit;
    first = refl;
  }
  | inr miss ↦ elim (Option-cases (index_of order ss)) [
    | inl gone ↦ absurd (ground (arith, miss, gone))
    | inr (j, found) ↦
        let r = index_of-FirstOf order ss j found in
        record {
          before = s ∷ r.before;
          slot = r.slot;
          after = r.after;
          split = ap (λ (q : List PlanSlot). s ∷ q) r.split;
          place = ground (arith, miss, found, r.place);
          owned = r.owned;
          first = ground (arith, miss, r.first);
        }
  ]
]

remove_at-append :
    (before : List PlanSlot) (slot : PlanSlot) (after : List PlanSlot)
    → remove_at (length before) (before ++ slot ∷ after) ≡ some (before ++ after)
unfolding remove_at
remove_at-append [] slot after = refl
remove_at-append (b ∷ before) slot after = rw (remove_at-append before slot after)

-- A purchase that is found in the queue can be taken out: the slot that goes is the first one of
-- the order, and all others stay as they were, in their order.
pub removal_keeps_others :
    (u : User) (order : String) (i : ℕ)
    → order_entitlement_position u order ≡ queued i
    → (r : FirstOf order u.plan_queue i) × (remove_queued_entitlement i u
        ≡ some (record u { plan_queue = r.before ++ r.after }))
unfolding order_entitlement_position
removal_keeps_others u order i h =
    let found : index_of order u.plan_queue ≡ some i = ground arith in
    let r = index_of-FirstOf order u.plan_queue i found in
    let gone : remove_at i u.plan_queue ≡ some (r.before ++ r.after) =
      ground (arith, remove_at-append r.before r.slot r.after, r.split, r.place) in
    (r, unfold remove_queued_entitlement in ground (arith, gone))
