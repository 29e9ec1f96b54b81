-- ===== src/Wallet/Reconciled.antt =====
-- The checks of `validateCommerce` on wallets and ledger as an invariant that movements keep.
use guangyue_panel.Prelude.{
  ℕ, ◌+◌, ◌≤◌, ◌<◌, ◌≡◌, refl, ap, subst, ◌∙◌, inl, inr, true, false, ◌&&◌, Option, none, some,
  List, [], ◌∷◌, lookup-insert, ◌==◌, nat_eq, string_eq, if◌then◌else◌, ℤ, pos, pos_part, neg_part,
  ◌+ℤ◌, arith, int_laws, Bool-cases,
}
use guangyue_panel.Wallet.{
  Wallet, money_limit, available_of, held_of, MoneyTransaction, Ledger, wallet, find_checkpoint,
  Movement, movement_entries, movement_row, fits, moved, posted,
}
use guangyue_panel.Wallet.Sums.{
  account_sum, ledger_sum, account_sum-append, ledger_sum-append, movement-available, movement-held,
  movement-balanced, fits-ok,
}

abbrev pub posts_of : ℕ → List MoneyTransaction → ℕ
posts_of user [] = 0
posts_of user (t ∷ ts) = let n = posts_of user ts in if t.user == user then n + 1 else n

-- What `validateCommerce` asks of the wallet of one user.
pub record IsReconciled (l : Ledger) (user : ℕ) : Type 0 where
  pub available : account_sum (available_of user) l.entries ≡ pos (wallet user l).available
  pub held : account_sum (held_of user) l.entries ≡ pos (wallet user l).held
  pub bounded : (wallet user l).available + (wallet user l).held ≤ money_limit
  pub counted : (wallet user l).revision ≡ posts_of user l.transactions

-- The newest transaction of a wallet repeats its balance; a wallet without one is empty.
abbrev pub Checkpointed : Wallet → Option MoneyTransaction → Type 0
Checkpointed w none = (w.revision ≡ 0) × (w.available ≡ 0) × (w.held ≡ 0)
Checkpointed w (some t) = (0 < w.revision) × (t.available ≡ w.available) × (t.held ≡ w.held)

abbrev pub HasCheckpoint : Ledger → ℕ → Type 0
HasCheckpoint l user =
    Checkpointed (wallet user l) (find_checkpoint user (wallet user l).revision l.transactions)

wallet-posted :
    (m : Movement) (w : Wallet) (l : Ledger) (user : ℕ)
    → wallet user (posted m w l) ≡ (if m.user == user then w else wallet user l)
unfolding posted wallet
wallet-posted m w l user = ground (arith, lookup-insert m.user user w l.wallets)

find-posted :
    (m : Movement) (w : Wallet) (l : Ledger) (user : ℕ) (n : ℕ)
    → find_checkpoint user n (posted m w l).transactions ≡ (
        if m.user == user && w.revision == n
        then some (movement_row m w)
        else find_checkpoint user n l.transactions)
unfolding find_checkpoint posted movement_row
find-posted m w l user n = ground arith

posts-posted :
    (m : Movement) (w : Wallet) (l : Ledger) (user : ℕ)
    → posts_of user (posted m w l).transactions
      ≡ (if m.user == user then posts_of user l.transactions + 1 else posts_of user l.transactions)
unfolding posted movement_row
posts-posted m w l user = ground arith

==_refl : (n : ℕ) → (n == n) ≡ true
==_refl n = ground arith

module _ (m : Movement) (l : Ledger) where
  abbrev pub after : Ledger
  after = posted m (moved (wallet m.user l) m) l

  pub wallet-own : wallet m.user after ≡ moved (wallet m.user l) m
  wallet-own = ground (arith, wallet-posted m (moved (wallet m.user l) m) l m.user)

  pub wallet-other : (user : ℕ) → (m.user == user) ≡ false → wallet user after ≡ wallet user l
  wallet-other user other =
      ground (arith, other, wallet-posted m (moved (wallet m.user l) m) l user)

  HasCheckpoint-own : HasCheckpoint after m.user
  unfolding movement_row moved
  HasCheckpoint-own =
      let f =
        find-posted m (moved (wallet m.user l) m) l m.user (moved (wallet m.user l) m).revision in
      let g : find_checkpoint m.user (moved (wallet m.user l) m).revision after.transactions
          ≡ some (movement_row m (moved (wallet m.user l) m)) =
        ground (arith, f) in
      rw wallet-own (rw g (omega arith, refl, refl))

  HasCheckpoint-other :
      (user : ℕ) → (m.user == user) ≡ false → HasCheckpoint l user → HasCheckpoint after user
  HasCheckpoint-other user other h =
      let f = find-posted m (moved (wallet m.user l) m) l user (wallet user l).revision in
      let g : find_checkpoint user (wallet user l).revision after.transactions
          ≡ find_checkpoint user (wallet user l).revision l.transactions =
        ground (arith, f, other) in
      rw (wallet-other user other) (rw g h)

  entries-available :
      (user : ℕ)
      → account_sum (available_of user) after.entries
        ≡ (if m.user == user then m.available_delta else pos 0)
          +ℤ account_sum (available_of user) l.entries
  unfolding posted
  entries-available user =
      account_sum-append (available_of user) (movement_entries m) l.entries
      ∙ ap (λ (z : ℤ). z +ℤ account_sum (available_of user) l.entries) (movement-available m user)

  entries-held :
      (user : ℕ)
      → account_sum (held_of user) after.entries
        ≡ (if m.user == user then m.held_delta else pos 0) +ℤ account_sum (held_of user) l.entries
  unfolding posted
  entries-held user =
      account_sum-append (held_of user) (movement_entries m) l.entries
      ∙ ap (λ (z : ℤ). z +ℤ account_sum (held_of user) l.entries) (movement-held m user)

  module _ (fit : fits (wallet m.user l) m ≡ true) where
    own_sum :
        (d : ℤ) (n : ℕ)
        → neg_part (pos n +ℤ d) ≡ 0
        → (if m.user == m.user then d else pos 0) +ℤ pos n ≡ pos (pos_part (pos n +ℤ d))
    own_sum d n h = rw (==_refl m.user) (omega (int_laws, h))

    IsReconciled-own : IsReconciled l m.user → IsReconciled after m.user
    unfolding moved
    IsReconciled-own r =
        let w = wallet m.user l in
        let f = fits-ok w m fit in
        record {
          available = rw wallet-own (
              entries-available m.user
              ∙ rw r.available (own_sum m.available_delta w.available f.0));
          held = rw wallet-own (entries-held m.user ∙ rw r.held (own_sum m.held_delta w.held f.1));
          bounded = rw wallet-own (omega (int_laws, f.0, f.1, f.2));
          counted = rw wallet-own (ground (arith, posts-posted m (moved w m) l m.user, r.counted));
        }

  IsReconciled-other :
      (user : ℕ) → (m.user == user) ≡ false → IsReconciled l user → IsReconciled after user
  IsReconciled-other user other r = record {
    available =
        rw (wallet-other user other)
          (entries-available user ∙ rw (other, r.available) (omega int_laws));
    held = rw (wallet-other user other) (entries-held user ∙ rw (other, r.held) (omega int_laws));
    bounded = rw (wallet-other user other) r.bounded;
    counted =
        rw (wallet-other user other)
          (ground (arith, posts-posted m (moved (wallet m.user l) m) l user, r.counted, other));
  }

-- The ledger passes the checks for every user, and its entries balance.
pub record IsSound (l : Ledger) : Type 0 where
  pub reconciled : (user : ℕ) → IsReconciled l user
  pub checkpoint : (user : ℕ) → HasCheckpoint l user
  pub balanced : ledger_sum l.entries ≡ pos 0

balanced-after :
    (m : Movement) (l : Ledger)
    → ledger_sum l.entries ≡ pos 0
    → ledger_sum (after m l).entries ≡ pos 0
unfolding posted
balanced-after m l h =
    ledger_sum-append (movement_entries m) l.entries ∙ rw (movement-balanced m, h) (omega int_laws)

pub IsSound-after :
    (m : Movement) (l : Ledger) → fits (wallet m.user l) m ≡ true → IsSound l → IsSound (after m l)
IsSound-after m l fit s = record {
  reconciled = λ user. elim (Bool-cases (m.user == user)) [
    | inl own ↦
        subst (IsReconciled (after m l)) ((nat_eq.beq_iff m.user user).0 own)
          (IsReconciled-own m l fit (s.reconciled m.user))
    | inr other ↦ IsReconciled-other m l user other (s.reconciled user)
  ];
  checkpoint = λ user. elim (Bool-cases (m.user == user)) [
    | inl own ↦
        subst (HasCheckpoint (after m l)) ((nat_eq.beq_iff m.user user).0 own)
          (HasCheckpoint-own m l)
    | inr other ↦ HasCheckpoint-other m l user other (s.checkpoint user)
  ];
  balanced = balanced-after m l s.balanced;
}
