-- ===== src/Payments/Claims.antt =====
-- When a payment is accepted for the attempt that it names, and what each outcome writes.
use guangyue_panel.Prelude.{
  ◌<◌, ◌≡◌, ◌⊎◌, ◌∙◌, refl, ap, String, Bool, true, false, not, ◌&&◌, Option, none, some, Map,
  Error, ok, or_fail, if◌then◌else◌, if_false, leb, ◌==◌, nat_eq, string_eq, lookup, arith,
  Bool-cases, inl, inr,
}
use guangyue_panel.Commerce.{Order, pending, PaymentAttempt}
use guangyue_panel.Commerce.Moves.{same_state-eq}
use guangyue_panel.Payments.{
  Callback, VerifiedEvent, Refusal, already_claimed, other_account, other_amount, payment_over,
  payment_late, attempt_reason, order_says, or_else, claim_reason, waits_for, can_be_paid,
  currency_of,
}

-- What the acceptance of a payment rests on.
pub record IsUsable (c : Callback) (e : VerifiedEvent) (a : PaymentAttempt)
    (orders : Map String Order) : Type 0 where
  pub unclaimed : (a.external_ref == "") ≡ true
  pub account : (a.account_scope ≡ "") ⊎ (a.account_scope ≡ c.scope)
  pub amount : a.amount ≡ e.amount
  pub currency : a.currency ≡ currency_of e
  pub payable : can_be_paid a.state ≡ true
  pub in_time : c.now < a.expires
  pub order :
      (a.order_id ≡ "")
      ⊎ ((o : Order) × (lookup a.order_id orders ≡ some o)
          × (o.attempt_id ≡ a.id)
          × (o.state ≡ pending))

no_reason :
    (b : Bool) (r : Refusal) (rest : Option Refusal)
    → (if b then some r else rest) ≡ none
    → (b ≡ false) × (rest ≡ none)
no_reason true r rest h = cc h
no_reason false r rest h = (refl, h)

neither : (x y : Option Refusal) → or_else x y ≡ none → (x ≡ none) × (y ≡ none)
neither none y h = (refl, h)
neither (some r) y h = cc h

order_silent :
    (a : PaymentAttempt) (o : Option Order)
    → order_says a o ≡ none
    → (x : Order) × (o ≡ some x) × (x.attempt_id ≡ a.id) × (x.state ≡ pending)
order_silent a none h = cc h
order_silent a (some o) h =
    let w : waits_for a o ≡ true = ground (arith, h) in
    (
      o,
      refl,
      ground (arith, w, string_eq.beq_iff o.attempt_id a.id),
      same_state-eq o.state pending (ground (arith, w)),
    )

scope_or_none :
    (own scope : String)
    → (not (own == "") && not (own == scope)) ≡ false
    → (own ≡ "") ⊎ (own ≡ scope)
scope_or_none own scope h = elim (Bool-cases (own == "")) [
  | inl empty ↦ inl ((string_eq.beq_iff own "").0 empty)
  | inr given ↦ inr ((string_eq.beq_iff own scope).0 (ground (arith, h, given)))
]

order_or_none :
    (a : PaymentAttempt) (orders : Map String Order)
    → (if a.order_id == "" then none else order_says a (lookup a.order_id orders)) ≡ none
    → (a.order_id ≡ "")
      ⊎ ((o : Order) × (lookup a.order_id orders ≡ some o)
          × (o.attempt_id ≡ a.id)
          × (o.state ≡ pending))
order_or_none a orders h = elim (Bool-cases (a.order_id == "")) [
  | inl empty ↦ inl ((string_eq.beq_iff a.order_id "").0 empty)
  | inr given ↦ inr (
      order_silent a (lookup a.order_id orders)
        (if_false none (order_says a (lookup a.order_id orders)) given h))
]

pub claim_reason-IsUsable :
    (c : Callback) (e : VerifiedEvent) (a : PaymentAttempt) (orders : Map String Order)
    → claim_reason c e a orders ≡ none
    → IsUsable c e a orders
unfolding claim_reason
claim_reason-IsUsable c e a orders h =
    let asked = if a.order_id == "" then none else order_says a (lookup a.order_id orders) in
    let p = neither (attempt_reason c e a) asked h in
    let late = if leb a.expires c.now then some payment_late else none in
    let over = if not (can_be_paid a.state) then some payment_over else late in
    let short =
      if not (a.amount == e.amount && a.currency == currency_of e)
      then some other_amount
      else over in
    let foreign =
      if not (a.account_scope == "") && not (a.account_scope == c.scope)
      then some other_account
      else short in
    let p1 = no_reason (not (a.external_ref == "")) already_claimed foreign p.0 in
    let p2 =
      no_reason (not (a.account_scope == "") && not (a.account_scope == c.scope)) other_account
        short p1.1 in
    let p3 =
      no_reason (not (a.amount == e.amount && a.currency == currency_of e)) other_amount over
        p2.1 in
    let p4 = no_reason (not (can_be_paid a.state)) payment_over late p3.1 in
    let p5 = no_reason (leb a.expires c.now) payment_late none p4.1 in
    record {
      unclaimed = ground (arith, p1.0);
      account = scope_or_none a.account_scope c.scope p2.0;
      amount = ground (arith, p3.0);
      currency = ground (arith, p3.0, string_eq.beq_iff a.currency (currency_of e));
      payable = ground (arith, p4.0);
      in_time = ground (arith, p5.0);
      order = order_or_none a orders p.1;
    }

asked_silent :
    (a : PaymentAttempt) (orders : Map String Order)
    → (a.order_id ≡ "")
      ⊎ ((o : Order) × (lookup a.order_id orders ≡ some o)
          × (o.attempt_id ≡ a.id)
          × (o.state ≡ pending))
    → (if a.order_id == "" then none else order_says a (lookup a.order_id orders)) ≡ none
asked_silent a orders (inl empty) = rw ((string_eq.beq_iff a.order_id "").1 empty)
asked_silent a orders (inr (o, there, own, waits)) =
    let w : waits_for a o ≡ true =
      ground (arith, own, waits, string_eq.beq_iff o.attempt_id a.id) in
    let says : order_says a (lookup a.order_id orders) ≡ none = ap (order_says a) there ∙ rw w in
    ground (arith, says)

foreign_silent :
    (own scope : String)
    → (own ≡ "") ⊎ (own ≡ scope)
    → (not (own == "") && not (own == scope)) ≡ false
foreign_silent own scope (inl empty) = rw ((string_eq.beq_iff own "").1 empty)
foreign_silent own scope (inr same) =
    let e = (string_eq.beq_iff own scope).1 same in ground (arith, e)

-- Nothing is held against a payment that may be used.
pub IsUsable-claim_reason :
    (c : Callback) (e : VerifiedEvent) (a : PaymentAttempt) (orders : Map String Order)
    → IsUsable c e a orders
    → claim_reason c e a orders ≡ none
unfolding claim_reason
IsUsable-claim_reason c e a orders u =
    let same = (string_eq.beq_iff a.currency (currency_of e)).1 u.currency in
    let sum = (nat_eq.beq_iff a.amount e.amount).1 u.amount in
    let early : leb a.expires c.now ≡ false = ground (arith, u.in_time) in
    rw (u.unclaimed, foreign_silent a.account_scope c.scope u.account, sum, same, u.payable, early)
      (asked_silent a orders u.order)

pub or_fail-some {ℓ} :
    {A : Type ℓ} (o : Option A) (e : Error) (a : A) → or_fail o e ≡ ok a → o ≡ some a
or_fail-some none e a h = cc h
or_fail-some (some b) e a h = cc h
