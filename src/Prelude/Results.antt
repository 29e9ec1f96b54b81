-- ===== src/Prelude/Results.antt =====
-- Go's `(value, error)` results: an error is named for its message.
use mathlib.Core.Path.{◌≡◌, refl}
use mathlib.Core.Bool.{Bool, true, false}
use mathlib.Core.Option.{Option, none, some}

pub data Error : Type 0 where
  invalid_weighted weighted_limit traffic_limit unknown_zone invalid_cycle : Error
  insufficient_balance ledger_mismatch no_rows unique_violation conflict not_found : Error
  forbidden module_off offer_unavailable limit_reached order_changed unpaid bad_payment : Error
  sites_outdated not_cancellable not_refundable entitlement_replaced orders_pending nil_pointer
        invalid_reason unsupported_task queue_full invalid_counter tickets_off bad_ticket
        ticket_limit bad_reply ticket_closed reply_limit new_ticket_needed bad_state bad_priority
        too_many_images image_twice image_missing image_capacity short_read bad_record not_hello
        hello_length hello_fragments bad_hello bad_server_name no_server_name mixed_acme
        out_of_rounds bad_category :
      Error

-- The two outcomes of a Go call: its value, or the error it returned.
pub data Result {ℓ} (Value : Type ℓ) : Type ℓ where
  err : Error → Result Value
  ok : Value → Result Value

-- An absent row or key becomes the error its reader returns.
abbrev pub or_fail {ℓ} : {A : Type ℓ} → Option A → Error → Result A
or_fail none e = err e
or_fail (some a) e = ok a

-- An early return with an error, unless the test holds.
abbrev pub guard : (test : Bool) → (otherwise : Error) → Result (Unit {0})
guard false otherwise = err otherwise
guard true otherwise = ok tt

infixl 5 ◌>>=◌ ◌>>◌
abbrev pub ◌>>◌ {ℓ} : {A : Type ℓ} → Result (Unit {0}) → Result A → Result A
err e >> rest = err e
ok tt >> rest = rest

-- What went through a guard has passed its test.
pub guard-eq-ok {ℓ} :
    {B : Type ℓ} (b : Bool) (e : Error) (k : Result B) {y : B}
    → (guard b e >> k) ≡ ok y
    → (b ≡ true) × (k ≡ ok y)
guard-eq-ok true e k h = (refl, h)
guard-eq-ok false e k h = cc

abbrev pub ◌>>=◌ {ℓ κ} : {A : Type ℓ} {B : Type κ} → Result A → (A → Result B) → Result B
err e >>= rest = err e
ok value >>= rest = rest value

-- A chain that ended well: its first call has, and the rest has on that value.
pub >>=-eq-ok {ℓ κ} :
    {A : Type ℓ} {B : Type κ} (m : Result A) (rest : A → Result B) {b : B}
    → (m >>= rest) ≡ ok b
    → (a : A) × (m ≡ ok a) × (rest a ≡ ok b)
>>=-eq-ok (err e) rest h = cc
>>=-eq-ok (ok value) rest h = (value, refl, h)

pub then-eq-ok {ℓ} :
    {B : Type ℓ} (m : Result (Unit {0})) (k : Result B) {y : B}
    → (m >> k) ≡ ok y
    → (m ≡ ok tt) × (k ≡ ok y)
then-eq-ok (ok tt) k h = (refl, h)
then-eq-ok (err e) k h = cc

pub guard-ok : (b : Bool) (e : Error) → guard b e ≡ ok tt → b ≡ true
guard-ok true e h = refl
guard-ok false e h = cc

-- Two handlers' answers that are equal are equal in both parts.
pub ok-pair {ℓ κ} :
    {A : Type ℓ} {B : Type κ} {a a' : A} {b b' : B}
    → ◌≡◌ {A = Result (A × B)} (ok (a, b)) (ok (a', b'))
    → (a' ≡ a) × (b' ≡ b)
ok-pair h = (cc h, cc h)
