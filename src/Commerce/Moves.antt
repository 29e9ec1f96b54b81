-- ===== src/Commerce/Moves.antt =====
-- The life of an order as a relation on its states, and the writes of the handlers that follow it:
-- `orderAction`, `fulfilOrder`, `failProvisioning` and `commerceWork` of controlplane.
pub mod Handlers
use guangyue_panel.Prelude.{
  ℕ, ◌+◌, ◌-◌, ◌≤◌, ◌<◌, ◌≡◌, refl, sym, subst, String, Bool, true, false, not, ◌&&◌, ◌||◌, Option,
  none, some, List, Map, ltb, leb, ◌==◌, nat_eq, string_eq, if◌then◌else◌, if_true, if_false,
  lookup, insert, lookup-insert, arith, Result, ok, err, guard, or_fail, ◌>>=◌, ◌>>◌, >>=-eq-ok,
  guard-eq-ok, then-eq-ok, conflict, not_found, no_rows, nil_pointer, entitlement_replaced,
  Bool-cases, inl, inr, ◌⊎◌, any,
}
use guangyue_panel.Domain.Account.{User}
use guangyue_panel.Wallet.{Movement}
use guangyue_panel.Commerce.{
  OrderState, Order, Shop, same_state, save_order, tx_user, pending, provisioning, completed,
  failed, expired, cancelled, refunding, refunded, refund_pending,
}
use guangyue_panel.Commerce.Settle.{settle, charge}

-- The edges that the handlers write.
pub data Move : OrderState → OrderState → Type 0 where
  stay : {x : OrderState} → Move x x
  confirm : Move pending provisioning
  run_out : Move pending expired
  cancel_pending : Move pending cancelled
  cancel_provisioning : Move provisioning cancelled
  complete : Move provisioning completed
  fail : Move provisioning failed
  fail_unpaid : Move pending failed
  refund_running : Move completed refunding
  refund_queued : Move completed refunded
  refund_queued_provider : Move completed refund_pending
  pay_back : Move refunding refunded
  pay_back_provider : Move refunding refund_pending
  refund_failed : Move failed refunded
  refund_cancelled : Move cancelled refunded
  refund_expired : Move expired refunded
  refund_arrived : Move refund_pending refunded

-- From these states an order can only become refunded.
abbrev pub is_final : OrderState → Bool
is_final failed = true
is_final expired = true
is_final cancelled = true
is_final refunded = true
is_final refund_pending = true
is_final _ = false

pub same_state-eq : (x y : OrderState) → same_state x y ≡ true → x ≡ y
same_state-eq x y h = ground arith

-- A handler has written one order along an edge, or none.
pub record Write (s s' : Shop) : Type 0 where
  pub row : Order
  pub new : Order
  pub there : lookup new.id s.orders ≡ some row
  pub orders : s'.orders ≡ insert new.id new s.orders
  pub move : Move row.state new.state

abbrev pub Writes : Shop → Shop → Type 0
Writes s s' = (s'.orders ≡ s.orders) ⊎ Write s s'

pub save-Write :
    (o : Order) (old : OrderState) (s s' : Shop)
    → save_order o old s ≡ ok s'
    → Move old o.state
    → Write s s'
unfolding save_order
save-Write o old s s' h m =
    let p = >>=-eq-ok (or_fail (lookup o.id s.orders) conflict) _ h in
    let g = guard-eq-ok (same_state p.0.state old) conflict _ p.2 in
    record {
      row = p.0;
      new = o;
      there = ground (arith, p.1);
      orders = ground (arith, g.1);
      move = subst (λ x. Move x o.state) (sym (same_state-eq p.0.state old g.0)) m;
    }

-- What a settled transaction writes, where it started from the orders of `s`.
pub settle-Writes :
    (m : Option Movement) (o : Order) (old : OrderState) (u : User) (s t s' : Shop)
    → settle m o old u t ≡ ok s'
    → t.orders ≡ s.orders
    → Move old o.state
    → Writes s s'
unfolding settle tx_user
settle-Writes m o old u s t s' h same move =
    let p = >>=-eq-ok (charge m t.ledger) _ h in
    let q = >>=-eq-ok (save_order o old (record t { ledger = p.0 })) _ p.2 in
    let w = save-Write o old (record t { ledger = p.0 }) q.0 q.1 move in
    let tail : s'.orders ≡ q.0.orders = ground (arith, q.2) in
    inr (record {
      row = w.row;
      new = w.new;
      there = rw⁻¹ same w.there;
      orders = rw⁻¹ same (cc (tail, w.orders));
      move = w.move;
    })

-- An edge from a final state stays there or gives the money back.
only_refunded : (x y : OrderState) → Move x y → is_final x ≡ true → (y ≡ x) ⊎ (y ≡ refunded)
only_refunded x _ stay h = inl refl
only_refunded _ _ refund_failed h = inr refl
only_refunded _ _ refund_cancelled h = inr refl
only_refunded _ _ refund_expired h = inr refl
only_refunded _ _ refund_arrived h = inr refl
only_refunded _ _ confirm h = cc
only_refunded _ _ run_out h = cc
only_refunded _ _ cancel_pending h = cc
only_refunded _ _ cancel_provisioning h = cc
only_refunded _ _ complete h = cc
only_refunded _ _ fail h = cc
only_refunded _ _ fail_unpaid h = cc
only_refunded _ _ refund_running h = cc
only_refunded _ _ refund_queued h = cc
only_refunded _ _ refund_queued_provider h = cc
only_refunded _ _ pay_back h = cc
only_refunded _ _ pay_back_provider h = cc

-- The order that stands under a key before and after a write, and the edge between the two.
pub order_moves :
    (s s' : Shop) (id : String) (o : Order)
    → Writes s s'
    → lookup id s.orders ≡ some o
    → (o' : Order) × (lookup id s'.orders ≡ some o') × Move o.state o'.state
order_moves s s' id o (inl same) h = (o, rw same h, stay)
order_moves s s' id o (inr w) h = elim (Bool-cases (w.new.id == id)) [
  | inr other ↦
      (o, rw w.orders (ground (arith, lookup-insert w.new.id id w.new s.orders, other, h)), stay)
  | inl own ↦
      let key : w.new.id ≡ id = (string_eq.beq_iff w.new.id id).0 own in
      let row : w.row ≡ o = ground (arith, w.there, h, key) in
      (
        w.new,
        rw w.orders (ground (arith, lookup-insert w.new.id id w.new s.orders, own)),
        subst (λ (x : Order). Move x.state w.new.state) row w.move,
      )
]

-- Any number of edges.
pub data Life : OrderState → OrderState → Type 0 where
  here : {x : OrderState} → Life x x
  next : {x y z : OrderState} → Move x y → Life y z → Life x z

pub Life-trans : {x y z : OrderState} → Life x y → Life y z → Life x z
Life-trans here l = l
Life-trans (next m k) l = next m (Life-trans k l)

pub final_stays : (x y : OrderState) → Life x y → is_final x ≡ true → (y ≡ x) ⊎ (y ≡ refunded)
final_stays x _ here h = inl refl
final_stays x z (next {y = y} m l) h = elim (only_refunded x y m h) [
  | inl same ↦ elim (final_stays y z l (subst (λ s. is_final s ≡ true) (sym same) h)) [
    | inl still ↦ inl (cc (still, same))
    | inr back ↦ inr back
  ]
  | inr paid ↦ elim (final_stays y z l (subst (λ s. is_final s ≡ true) (sym paid) refl)) [
    | inl still ↦ inr (cc (still, paid))
    | inr back ↦ inr back
  ]
]

-- What stands under a key after some handlers, and the way it has gone.
abbrev pub Lives : Shop → Shop → Type 0
Lives s s' =
    (id : String) (o : Order)
    → lookup id s.orders ≡ some o
    → (o' : Order) × (lookup id s'.orders ≡ some o') × Life o.state o'.state

pub Writes-Lives : (s s' : Shop) → Writes s s' → Lives s s'
Writes-Lives s s' w id o h =
    let (o', there, m) = order_moves s s' id o w h in (o', there, next m here)

pub Lives-trans : (s t s' : Shop) → Lives s t → Lives t s' → Lives s s'
Lives-trans s t s' f g id o h =
    let (p, p_there, l) = f id o h in
    let (q, q_there, m) = g id p p_there in (q, q_there, Life-trans l m)
