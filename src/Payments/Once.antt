-- ===== src/Payments/Once.antt =====
-- No payment is put to use twice: what the handlers of controlplane/payment_receipts.go keep of the
-- receipts and the attempts.
use guangyue_panel.Prelude.{
  ℕ, ◌≤◌, ◌≡◌, ◌⊎◌, ◌∙◌, refl, sym, subst, ap, String, Bool, true, false, ◌&&◌, Option, none, some,
  List, Map, [], ◌∷◌, if◌then◌else◌, ◌==◌, nat_eq, string_eq, lookup, insert, lookup-insert, arith,
  Bool-cases, Option-cases, inl, inr, sum_of, rows-insert, ok, >>=-eq-ok,
}
use guangyue_panel.Domain.Account.{User}
use guangyue_panel.Wallet.{Movement}
use guangyue_panel.Commerce.{
  Order, OrderState, Shop, PaymentAttempt, AttemptState, PaymentReceipt, ReceiptState, verified,
  applied, save_order, tx_user,
}
use guangyue_panel.Commerce.Settle.{charge, settle}
use guangyue_panel.Payments.{same_transaction}
use guangyue_panel.Payments.Reconcile.{move_receipt, move_attempt, is_verified, is_paid}

abbrev pub is_live : ReceiptState → Bool
is_live verified = true
is_live applied = true
is_live _ = false

-- A receipt whose money is in use, or is going to be, for an attempt.
abbrev pub honours : String → PaymentReceipt → ℕ
honours attempt r = if r.attempt_id == attempt && is_live r.state then 1 else 0

abbrev pub honoured : String → List PaymentReceipt → ℕ
honoured attempt receipts = sum_of (honours attempt) receipts

abbrev pub of_transaction : String → String → PaymentReceipt → ℕ
of_transaction scope ref r = if same_transaction scope ref r then 1 else 0

abbrev pub transactions : String → String → List PaymentReceipt → ℕ
transactions scope ref receipts = sum_of (of_transaction scope ref) receipts

abbrev pub has_claim : Option PaymentAttempt → ℕ
has_claim none = 0
has_claim (some a) = if a.external_ref == "" then 0 else 1

abbrev pub claimed : String → Map String PaymentAttempt → ℕ
claimed attempt attempts = has_claim (lookup attempt attempts)

-- Each attempt is honoured by one receipt at most, and only if it has been claimed; each transaction
-- of a merchant's account has one receipt at most.
pub record IsHonest (receipts : List PaymentReceipt) (attempts : Map String PaymentAttempt)
    : Type 0 where
  pub once : (attempt : String) → honoured attempt receipts ≤ claimed attempt attempts
  pub single : (scope ref : String) → transactions scope ref receipts ≤ 1
  pub keyed : (k : String) (a : PaymentAttempt) → lookup k attempts ≡ some a → a.id ≡ k

honours_moved :
    (id attempt : String) (state : ReceiptState) (r : PaymentReceipt)
    → honours attempt (if r.id == id && is_verified r.state then record r { state = state } else r)
      ≤ honours attempt r
honours_moved id attempt state r = ground arith

transaction_moved :
    (id scope ref : String) (state : ReceiptState) (r : PaymentReceipt)
    → of_transaction scope ref
        (if r.id == id && is_verified r.state then record r { state = state } else r)
      ≡ of_transaction scope ref r
transaction_moved id scope ref state r = ground arith

-- What marking a receipt leaves of the counts.
move-honoured :
    (id attempt : String) (state : ReceiptState) (receipts : List PaymentReceipt)
    → honoured attempt (move_receipt id state receipts) ≤ honoured attempt receipts
unfolding move_receipt
move-honoured id attempt state [] = omega arith
move-honoured id attempt state (r ∷ rs) =
    omega (arith, move-honoured id attempt state rs, honours_moved id attempt state r)

move-transactions :
    (id scope ref : String) (state : ReceiptState) (receipts : List PaymentReceipt)
    → transactions scope ref (move_receipt id state receipts) ≡ transactions scope ref receipts
unfolding move_receipt
move-transactions id scope ref state [] = refl
move-transactions id scope ref state (r ∷ rs) =
    omega (arith, move-transactions id scope ref state rs, transaction_moved id scope ref state r)

abbrev Keyed : Map String PaymentAttempt → Type 0
Keyed attempts = (k : String) (a : PaymentAttempt) → lookup k attempts ≡ some a → a.id ≡ k

-- A new state of an attempt leaves its claim.
restate-claimed :
    (id attempt : String) (a : PaymentAttempt) (state : AttemptState)
    (attempts : Map String PaymentAttempt)
    → lookup id attempts ≡ some a
    → claimed attempt (insert id (record a { state = state }) attempts) ≡ claimed attempt attempts
restate-claimed id attempt a state attempts there = elim (Bool-cases (id == attempt)) [
  | inl hit ↦
      let e = (string_eq.beq_iff id attempt).0 hit in
      ap has_claim (lookup-insert id attempt (record a { state = state }) attempts)
      ∙ rw hit (sym (ap has_claim (subst (λ x. lookup x attempts ≡ some a) e there)))
  | inr miss ↦
      ap has_claim (lookup-insert id attempt (record a { state = state }) attempts) ∙ rw miss
]

move_attempt-cases :
    (id ref : String) (state : AttemptState) (attempts : Map String PaymentAttempt)
    → (move_attempt id ref state attempts ≡ attempts)
      ⊎ ((a : PaymentAttempt) × (lookup id attempts ≡ some a)
          × (move_attempt id ref state attempts ≡ insert id (record a { state = state }) attempts))
unfolding move_attempt
move_attempt-cases id ref state attempts = elim (Option-cases (lookup id attempts)) [
  | inl missing ↦ inl (rw (missing, move_attempt))
  | inr (a, there) ↦ elim (Bool-cases (a.external_ref == ref && is_paid a.state)) [
    | inl hit ↦ inr (a, there, rw (there, move_attempt) (rw hit))
    | inr miss ↦ inl (rw (there, move_attempt) (rw miss))
  ]
]

move-claimed :
    (id ref attempt : String) (state : AttemptState) (attempts : Map String PaymentAttempt)
    → claimed attempt (move_attempt id ref state attempts) ≡ claimed attempt attempts
move-claimed id ref attempt state attempts = elim (move_attempt-cases id ref state attempts) [
  | inl same ↦ ap (claimed attempt) same
  | inr (a, there, e) ↦ ap (claimed attempt) e ∙ restate-claimed id attempt a state attempts there
]

move-Keyed :
    (id ref : String) (state : AttemptState) (attempts : Map String PaymentAttempt)
    → Keyed attempts
    → Keyed (move_attempt id ref state attempts)
move-Keyed id ref state attempts keyed = elim (move_attempt-cases id ref state attempts) [
  | inl same ↦ subst Keyed (sym same) keyed
  | inr (a, there, e) ↦ subst Keyed (sym e) (
      rows-insert (λ k x. x.id ≡ k) id (record a { state = state }) attempts (keyed id a there)
        keyed)
]

-- Neither more is honoured nor less claimed, and the transactions are the same.
pub record Keeps (s s' : Shop) : Type 0 where
  pub honour : (a : String) → honoured a s'.receipts ≤ honoured a s.receipts
  pub same :
      (scope ref : String) → transactions scope ref s'.receipts ≡ transactions scope ref s.receipts
  pub claim : (a : String) → claimed a s'.attempts ≡ claimed a s.attempts
  pub keys : Keyed s.attempts → Keyed s'.attempts

pub Keeps-IsHonest :
    (s s' : Shop) → Keeps s s' → IsHonest s.receipts s.attempts → IsHonest s'.receipts s'.attempts
Keeps-IsHonest s s' k h = record {
  once = λ a. omega (arith, k.honour a, k.claim a, h.once a);
  single = λ scope ref. omega (arith, k.same scope ref, h.single scope ref);
  keyed = k.keys h.keyed;
}

-- A shop with the same receipts and attempts.
pub record Rest (s s' : Shop) : Type 0 where
  pub receipts : s'.receipts ≡ s.receipts
  pub attempts : s'.attempts ≡ s.attempts

pub Rest-Keeps : (s s' : Shop) → Rest s s' → Keeps s s'
Rest-Keeps s s' r = record {
  honour = λ a. rw r.receipts (omega arith);
  same = λ scope ref. ap (transactions scope ref) r.receipts;
  claim = λ a. ap (claimed a) r.attempts;
  keys = λ k. subst Keyed (sym r.attempts) k;
}

pub Keeps-trans : (s t u : Shop) → Keeps s t → Keeps t u → Keeps s u
Keeps-trans s t u a b = record {
  honour = λ x. omega (arith, a.honour x, b.honour x);
  same = λ scope ref. b.same scope ref ∙ a.same scope ref;
  claim = λ x. b.claim x ∙ a.claim x;
  keys = λ k. b.keys (a.keys k);
}

pub apply-Keeps :
    (id : String) (state : ReceiptState) (s : Shop)
    → Keeps s (record s { receipts = move_receipt id state s.receipts })
apply-Keeps id state s = record {
  honour = λ a. move-honoured id a state s.receipts;
  same = λ scope ref. move-transactions id scope ref state s.receipts;
  claim = λ a. refl;
  keys = λ k. k;
}

pub attempt-Keeps :
    (id ref : String) (state : AttemptState) (s : Shop)
    → Keeps s (record s { attempts = move_attempt id ref state s.attempts })
attempt-Keeps id ref state s = record {
  honour = λ a. omega arith;
  same = λ scope r. refl;
  claim = λ a. move-claimed id ref a state s.attempts;
  keys = move-Keyed id ref state s.attempts;
}

pub save-Rest :
    (o : Order) (old : OrderState) (s s' : Shop) → save_order o old s ≡ ok s' → Rest s s'
unfolding save_order
save-Rest o old s s' h = record { receipts = ground (arith, h); attempts = ground (arith, h) }

pub settle-Rest :
    (m : Option Movement) (o : Order) (old : OrderState) (u : User) (s s' : Shop)
    → settle m o old u s ≡ ok s'
    → Rest s s'
unfolding settle save_order tx_user
settle-Rest m o old u s s' h =
    let p = >>=-eq-ok (charge m s.ledger) _ h in
    record { receipts = ground (arith, p.2); attempts = ground (arith, p.2) }
