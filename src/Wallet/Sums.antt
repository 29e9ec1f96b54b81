-- ===== src/Wallet/Sums.antt =====
-- Sums over the entries of the ledger, and what the range tests of a movement give.
use guangyue_panel.Prelude.{
  ℕ, ◌≤◌, ◌≡◌, inl, inr, Bool, true, false, not, ◌&&◌, List, [], ◌∷◌, ◌++◌, ◌==◌, nat_eq, string_eq,
  if◌then◌else◌, ℤ, pos, negsuc, pos_part, neg_part, ◌+ℤ◌, ◌-ℤ◌, ◌≤ℤ◌, ltb_ℤ, eqb_ℤ, arith,
  int_laws, Bool-cases,
}
use guangyue_panel.Wallet.{
  Wallet, money_limit, Account, available_of, held_of, system, MoneyEntry, Movement, in_limit,
  movement_entries, fits,
}

abbrev pub same_account : Account → Account → Bool
same_account (available_of a) (available_of b) = a == b
same_account (held_of a) (held_of b) = a == b
same_account (system a) (system b) = a == b
same_account _ _ = false

-- SUM(amount) of the entries of one account, and of all entries.
abbrev pub account_sum : Account → List MoneyEntry → ℤ
account_sum a [] = pos 0
account_sum a (e ∷ es) =
    let rest = account_sum a es in if same_account e.account a then e.amount +ℤ rest else rest

abbrev pub ledger_sum : List MoneyEntry → ℤ
ledger_sum [] = pos 0
ledger_sum (e ∷ es) = e.amount +ℤ ledger_sum es

pub sum_zero : (a : ℤ) → a +ℤ pos 0 ≡ a
sum_zero a = omega int_laws

pub account_sum-append :
    (a : Account) (xs ys : List MoneyEntry)
    → account_sum a (xs ++ ys) ≡ account_sum a xs +ℤ account_sum a ys
account_sum-append a [] ys = omega int_laws
account_sum-append a (x ∷ xs) ys = elim (Bool-cases (same_account x.account a)) [
  | inl hit ↦ rw (hit) (rw (account_sum-append a xs ys) (omega int_laws))
  | inr miss ↦ rw (miss) (account_sum-append a xs ys)
]

pub ledger_sum-append :
    (xs ys : List MoneyEntry) → ledger_sum (xs ++ ys) ≡ ledger_sum xs +ℤ ledger_sum ys
ledger_sum-append [] ys = omega int_laws
ledger_sum-append (x ∷ xs) ys = rw (ledger_sum-append xs ys) (omega int_laws)

pub movement-available :
    (m : Movement) (user : ℕ)
    → account_sum (available_of user) (movement_entries m)
      ≡ (if m.user == user then m.available_delta else pos 0)
unfolding movement_entries ◌+ℤ◌
movement-available m user = ground arith

pub movement-held :
    (m : Movement) (user : ℕ)
    → account_sum (held_of user) (movement_entries m)
      ≡ (if m.user == user then m.held_delta else pos 0)
unfolding movement_entries ◌+ℤ◌
movement-held m user = ground arith

pub movement-balanced : (m : Movement) → ledger_sum (movement_entries m) ≡ pos 0
unfolding movement_entries ◌+ℤ◌
movement-balanced m = ground arith

pub and_parts : (x y : Bool) → (x && y) ≡ true → (x ≡ true) × (y ≡ true)
and_parts x y h = ground arith

pub not_over : (z : ℤ) → not (ltb_ℤ (pos money_limit) z) ≡ true → z ≤ℤ pos money_limit
not_over z h = ground arith

pub in_limit-ok : (z : ℤ) → in_limit z ≡ true → (neg_part z ≡ 0) × (pos_part z ≤ money_limit)
in_limit-ok (pos n) h = ground arith
in_limit-ok (negsuc n) h = ground arith

-- A movement that fits leaves both balances and their sum in range.
pub fits-ok :
    (w : Wallet) (m : Movement)
    → fits w m ≡ true
    → (neg_part (pos w.available +ℤ m.available_delta) ≡ 0)
      × (neg_part (pos w.held +ℤ m.held_delta) ≡ 0)
      × (pos w.available +ℤ pos w.held +ℤ m.available_delta +ℤ m.held_delta ≤ℤ pos money_limit)
unfolding fits
fits-ok w m h =
    let t =
      and_parts _
        (not (
          ltb_ℤ (pos money_limit)
            (pos w.available +ℤ pos w.held +ℤ m.available_delta +ℤ m.held_delta)))
        h in
    let s =
      and_parts (in_limit (pos w.available +ℤ m.available_delta))
        (in_limit (pos w.held +ℤ m.held_delta)) t.0 in
    ((in_limit-ok _ s.0).0, (in_limit-ok _ s.1).0, not_over _ t.1)

pub undo_move :
    (a : ℕ) (d : ℤ)
    → neg_part (pos a +ℤ d) ≡ 0
    → eqb_ℤ (pos a) (pos (pos_part (pos a +ℤ d)) -ℤ d) ≡ true
unfolding ◌+ℤ◌ ◌-ℤ◌
undo_move a (pos d) h = ground arith
undo_move a (negsuc d) h = ground arith
