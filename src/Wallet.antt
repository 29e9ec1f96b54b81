-- ===== src/Wallet.antt =====
-- The internal balance: `Wallet`, `wallet` and `postMoney` of controlplane/commerce_types.go over the
-- tables wallet_accounts, money_transactions and money_entries. An event key `kind:reference` is
-- the pair of its parts; the fresh transaction id is an argument.
pub mod Sums
pub mod Reconciled
pub mod Post
use guangyue_panel.Prelude.{
  ℕ, suc, ◌+◌, ◌-◌, ◌≤◌, ◌≡◌, String, Bool, true, false, not, ◌&&◌, ◌||◌, Option, none, some, List,
  Map, [], ◌∷◌, ◌++◌, lookup, insert, value_or, any, ltb, ◌==◌, nat_eq, string_eq, if◌then◌else◌, ℤ,
  pos, negsuc, pos_part, neg_part, sub_ℕ, neg, ◌+ℤ◌, ◌-ℤ◌, ltb_ℤ, eqb_ℤ, Result, ok, err, guard,
  or_fail, ◌>>=◌, ◌>>◌, insufficient_balance, ledger_mismatch, no_rows, unique_violation,
}

-- CNY 1 billion in cents.
abbrev pub money_limit : ℕ
money_limit = 100000000000

pub record Wallet : Type 0 where
  pub available : ℕ
  pub held : ℕ
  pub revision : ℕ

abbrev pub empty_wallet : Wallet
empty_wallet = record { available = 0; held = 0; revision = 0 }

pub data Account : Type 0 where
  available_of held_of : ℕ → Account
  system : String → Account

abbrev pub Event : Type 0
Event = String × String

abbrev pub same_event : Event → Event → Bool
same_event a b = a.0 == b.0 && a.1 == b.1

pub record MoneyTransaction : Type 0 where
  pub id : String
  pub event : Event
  pub user : ℕ
  pub actor : ℕ
  pub revision : ℕ
  pub kind : String
  pub amount : ℤ
  pub available : ℕ
  pub held : ℕ
  pub reference : String

pub record MoneyEntry : Type 0 where
  pub transaction : String
  pub account : Account
  pub amount : ℤ

-- The newest row of a table stands first.
pub record Ledger : Type 0 where
  pub wallets : Map ℕ Wallet
  pub transactions : List MoneyTransaction
  pub entries : List MoneyEntry

-- A user without a row has the zero wallet.
unfoldable pub wallet : ℕ → Ledger → Wallet
wallet user l = value_or empty_wallet (lookup user l.wallets)

unfoldable pub find_checkpoint : ℕ → ℕ → List MoneyTransaction → Option MoneyTransaction
find_checkpoint user revision [] = none
find_checkpoint user revision (t ∷ ts) =
    if t.user == user && t.revision == revision then some t else find_checkpoint user revision ts

abbrev is_zero : ℤ → Bool
is_zero z = eqb_ℤ z (pos 0)

-- The range tests of the conditional UPDATE.
abbrev pub in_limit : ℤ → Bool
in_limit z = not (ltb_ℤ z (pos 0)) && not (ltb_ℤ (pos money_limit) z)

pub record Movement : Type 0 where
  pub id : String
  pub user : ℕ
  pub actor : ℕ
  pub event : Event
  pub kind : String
  pub reference : String
  pub available_delta : ℤ
  pub held_delta : ℤ

abbrev entry_unless_zero : String → Account → ℤ → List MoneyEntry
entry_unless_zero id account amount =
    if is_zero amount
    then []
    else record { transaction = id; account = account; amount = amount } ∷ []

unfoldable pub movement_entries : Movement → List MoneyEntry
unfolding ◌+ℤ◌
movement_entries m =
    entry_unless_zero m.id (available_of m.user) m.available_delta
    ++ (entry_unless_zero m.id (held_of m.user) m.held_delta
        ++ entry_unless_zero m.id (system m.kind) (neg (m.available_delta +ℤ m.held_delta)))

unfoldable pub fits : Wallet → Movement → Bool
unfolding ◌+ℤ◌
fits w m =
    in_limit (pos w.available +ℤ m.available_delta)
    && in_limit (pos w.held +ℤ m.held_delta)
    && not (
        ltb_ℤ (pos money_limit)
          (pos w.available +ℤ pos w.held +ℤ m.available_delta +ℤ m.held_delta))

unfoldable pub moved : Wallet → Movement → Wallet
unfolding ◌+ℤ◌
moved w m = record {
  available = pos_part (pos w.available +ℤ m.available_delta);
  held = pos_part (pos w.held +ℤ m.held_delta);
  revision = w.revision + 1;
}

movement_row : Movement → Wallet → MoneyTransaction
unfolding ◌+ℤ◌
movement_row m w = record {
  id = m.id;
  event = m.event;
  user = m.user;
  actor = m.actor;
  revision = w.revision;
  kind = m.kind;
  amount =
      if is_zero (m.available_delta +ℤ m.held_delta)
      then m.held_delta
      else m.available_delta +ℤ m.held_delta;
  available = w.available;
  held = w.held;
  reference = m.reference;
}

-- What the row before the new revision says that the wallet held.
checkpoint_before : ℕ → ℕ → Ledger → Result (ℕ × ℕ)
unfolding find_checkpoint
checkpoint_before user revision l =
    if ltb 1 revision
    then (do
      t ← or_fail (find_checkpoint user (revision - 1) l.transactions) no_rows
      ok (t.available, t.held))
    else ok (0, 0)

matches_checkpoint : ℕ × ℕ → Wallet → Movement → Bool
unfolding ◌-ℤ◌
matches_checkpoint before w m =
    eqb_ℤ (pos before.0) (pos w.available -ℤ m.available_delta)
    && eqb_ℤ (pos before.1) (pos w.held -ℤ m.held_delta)

-- The unique indexes of money_transactions.
abbrev pub clashes : Movement → ℕ → MoneyTransaction → Bool
clashes m revision t =
    t.id == m.id || same_event t.event m.event || (t.user == m.user && t.revision == revision)

unfoldable pub posted : Movement → Wallet → Ledger → Ledger
unfolding movement_row
posted m w l = record {
  wallets = insert m.user w l.wallets;
  transactions = movement_row m w ∷ l.transactions;
  entries = movement_entries m ++ l.entries;
}

unfoldable pub post_money : Movement → Ledger → Result (Wallet × Ledger)
unfolding checkpoint_before matches_checkpoint
post_money m l = do
  guard (fits (wallet m.user l) m) insufficient_balance
  let w = moved (wallet m.user l) m
  before ← checkpoint_before m.user w.revision l
  guard (matches_checkpoint before w m) ledger_mismatch
  guard (not (any (clashes m w.revision) l.transactions)) unique_violation
  ok (w, posted m w l)
