-- ===== src/Payments/Receipts.antt =====
-- New receipts and claims (controlplane/payment_receipts.go) among honest ones.
use guangyue_panel.Prelude.{
  ◌≤◌, ◌≡◌, ◌∙◌, refl, sym, subst, ap, String, Bool, true, false, not, ◌&&◌, some, List, Map, [],
  ◌∷◌, ◌==◌, nat_eq, string_eq, lookup, insert, lookup-insert, arith, Bool-cases, inl, inr,
  rows-insert, any, Result, ok,
}
use guangyue_panel.Commerce.{Shop, PaymentAttempt, PaymentReceipt}
use guangyue_panel.Payments.{VerifiedEvent, Till, same_transaction, good_event}
use guangyue_panel.Payments.Once.{is_live, honours, transactions, has_claim, claimed, IsHonest}

pub ok-same : (s s' : Shop) → ◌≡◌ {A = Result Shop} (ok s) (ok s') → s ≡ s'
ok-same s s' h = cc h

pub ok-till : (t t' : Till) → ◌≡◌ {A = Result Till} (ok t) (ok t') → t ≡ t'
ok-till t t' h = cc h

pub good_ref : (e : VerifiedEvent) → not (good_event e) ≡ false → (e.external_ref == "") ≡ false
good_ref e h = ground (arith, h)

-- A transaction that no receipt has is counted nowhere.
no_transaction :
    (scope ref : String) (receipts : List PaymentReceipt)
    → any (same_transaction scope ref) receipts ≡ false
    → transactions scope ref receipts ≡ 0
no_transaction scope ref [] h = refl
no_transaction scope ref (r ∷ rs) h = ground (arith, h, no_transaction scope ref rs)

and_true : (a b : Bool) → (a && b) ≡ true → (a ≡ true) × (b ≡ true)
and_true a b h = ground arith

-- A new receipt is the only one of its transaction.
one_more :
    (r : PaymentReceipt) (receipts : List PaymentReceipt) (scope ref : String)
    → any (same_transaction r.account_scope r.external_ref) receipts ≡ false
    → transactions scope ref receipts ≤ 1
    → transactions scope ref (r ∷ receipts) ≤ 1
one_more r receipts scope ref fresh h = elim (Bool-cases (same_transaction scope ref r)) [
  | inl hit ↦
      let p = and_true (r.account_scope == scope) (r.external_ref == ref) hit in
      let scope' = (string_eq.beq_iff r.account_scope scope).0 p.0 in
      let ref' = (string_eq.beq_iff r.external_ref ref).0 p.1 in
      let none' = no_transaction scope ref receipts (
        ap (λ x. any (same_transaction x ref) receipts) (sym scope')
        ∙ ap (λ x. any (same_transaction r.account_scope x) receipts) (sym ref')
        ∙ fresh) in
      rw hit (omega (arith, none'))
  | inr miss ↦ rw miss (omega (arith, h))
]

dead_honours :
    (attempt : String) (r : PaymentReceipt) → is_live r.state ≡ false → honours attempt r ≡ 0
dead_honours attempt r h = ground (arith, h)

honours_at_most : (attempt : String) (r : PaymentReceipt) → honours attempt r ≤ 1
honours_at_most attempt r = ground arith

other_honours :
    (attempt : String) (r : PaymentReceipt)
    → r.attempt_id == attempt ≡ false
    → honours attempt r ≡ 0
other_honours attempt r h = rw h

-- A receipt that honours nothing may always be added.
pub add-IsHonest :
    (r : PaymentReceipt) (receipts : List PaymentReceipt) (attempts : Map String PaymentAttempt)
    → is_live r.state ≡ false
    → any (same_transaction r.account_scope r.external_ref) receipts ≡ false
    → IsHonest receipts attempts
    → IsHonest (r ∷ receipts) attempts
add-IsHonest r receipts attempts dead fresh h = record {
  once = λ a. omega (arith, dead_honours a r dead, h.once a);
  single = λ scope ref. one_more r receipts scope ref fresh (h.single scope ref);
  keyed = h.keyed;
}

-- The first payment of an attempt claims it, and any receipt of it may be added then.
pub claim-IsHonest :
    (r : PaymentReceipt) (a new : PaymentAttempt) (receipts : List PaymentReceipt)
    (attempts : Map String PaymentAttempt)
    → lookup a.id attempts ≡ some a
    → new.id ≡ a.id
    → a.external_ref == "" ≡ true
    → new.external_ref == "" ≡ false
    → r.attempt_id ≡ a.id
    → any (same_transaction r.account_scope r.external_ref) receipts ≡ false
    → IsHonest receipts attempts
    → IsHonest (r ∷ receipts) (insert a.id new attempts)
claim-IsHonest r a new receipts attempts there id free given of fresh h = record {
  once = λ x. elim (Bool-cases (a.id == x)) [
    | inl hit ↦
        let e = (string_eq.beq_iff a.id x).0 hit in
        let before = h.once x in
        let unclaimed : claimed x attempts ≡ 0 =
          ap has_claim (subst (λ k. lookup k attempts ≡ some a) e there) ∙ rw free in
        let now' : claimed x (insert a.id new attempts) ≡ 1 =
          ap has_claim (lookup-insert a.id x new attempts) ∙ rw hit (rw given) in
        omega (arith, before, unclaimed, now', honours_at_most x r)
    | inr miss ↦
        let same : claimed x (insert a.id new attempts) ≡ claimed x attempts =
          ap has_claim (lookup-insert a.id x new attempts) ∙ rw miss in
        omega (arith, h.once x, same, other_honours x r (ap (λ k. k == x) of ∙ miss))
  ];
  single = λ scope ref. one_more r receipts scope ref fresh (h.single scope ref);
  keyed = rows-insert (λ k x. x.id ≡ k) a.id new attempts id h.keyed;
}
