-- ===== src/Commerce/Settle.antt =====
-- The end of each order handler: the movement of money, the guarded write of the order and the write
-- of the account, in one transaction that fails as a whole.
use guangyue_panel.Prelude.{
  ℕ, ◌+◌, ◌≡◌, sym, subst, String, true, Option, none, some, Map, ◌==◌, nat_eq, string_eq,
  if◌then◌else◌, lookup, insert, lookup-insert, Eq, arith, Bool-cases, inl, inr, Result, ok, ◌>>=◌,
  >>=-eq-ok, ℤ, pos, negsuc, pos_part, neg_part, ◌+ℤ◌, int_laws,
}
use guangyue_panel.Domain.Account.{User}
use guangyue_panel.Wallet.{Ledger, Movement, wallet, fits, moved, post_money}
use guangyue_panel.Wallet.Sums.{fits-ok}
use guangyue_panel.Wallet.Post.{post_money-ok, post_money-IsSound}
use guangyue_panel.Wallet.Reconciled.{IsSound, after, wallet-own, wallet-other}
use guangyue_panel.Commerce.{Order, OrderState, Shop, save_order, tx_user}
use guangyue_panel.Commerce.Held.{held_by, held_orders-insert, HeldMatches}

-- A movement for an order: its event is `kind:order`, its kind `kind` unless the caller says another.
abbrev pub order_movement : String → ℕ → ℕ → String → String → String → ℤ → ℤ → Movement
order_movement id user actor event kind order available held = record {
  id = id;
  user = user;
  actor = actor;
  event = (event, order);
  kind = kind;
  reference = order;
  available_delta = available;
  held_delta = held;
}

unfoldable pub charge : Option Movement → Ledger → Result Ledger
charge none l = ok l
charge (some m) l = do (w, l') ← post_money m l; ok l'

unfoldable pub settle : Option Movement → Order → OrderState → User → Shop → Result Shop
unfolding charge
settle m o old u s = do
  l ← charge m s.ledger
  saved ← save_order o old (record s { ledger = l })
  tx_user u saved

-- What a movement adds to the held balance of a user.
abbrev pub held_change : ℕ → Option Movement → ℤ
held_change user none = pos 0
held_change user (some m) = if m.user == user then m.held_delta else pos 0

charge-IsSound : (m : Option Movement) (l l' : Ledger) → charge m l ≡ ok l' → IsSound l → IsSound l'
unfolding charge
charge-IsSound none l l' h s = subst IsSound (ground arith) s
charge-IsSound (some m) l l' h s =
    let p = >>=-eq-ok (post_money m l) _ h in
    subst IsSound (ground (arith, p.2)) (post_money-IsSound m l p.0.1 p.0.0 p.1 s)

held-after :
    (m : Movement) (l : Ledger) (user : ℕ)
    → fits (wallet m.user l) m ≡ true
    → pos (wallet user (after m l)).held ≡ pos (wallet user l).held +ℤ held_change user (some m)
unfolding moved
held-after m l user fit = elim (Bool-cases (m.user == user)) [
  | inl own ↦
      let same : m.user ≡ user = (nat_eq.beq_iff m.user user).0 own in
      let f = fits-ok (wallet m.user l) m fit in
      rw own (
        subst (λ k. pos (wallet k (after m l)).held ≡ pos (wallet k l).held +ℤ m.held_delta) same
          (rw wallet-own (omega (int_laws, f.1))))
  | inr other ↦ rw (other, wallet-other m l user other) (omega int_laws)
]

held-charge :
    (m : Option Movement) (l l' : Ledger) (user : ℕ)
    → charge m l ≡ ok l'
    → pos (wallet user l').held ≡ pos (wallet user l).held +ℤ held_change user m
unfolding charge
held-charge none l l' user h = let same : l' ≡ l = ground arith in rw same (omega int_laws)
held-charge (some m) l l' user h =
    let p = >>=-eq-ok (post_money m l) _ h in
    let q = post_money-ok m l p.0.1 p.0.0 p.1 in
    let same : l' ≡ after m l = ground (arith, p.2, q.1) in rw same (held-after m l user q.0)

-- What a movement adds to the available balance of a user.
abbrev pub available_change : ℕ → Option Movement → ℤ
available_change user none = pos 0
available_change user (some m) = if m.user == user then m.available_delta else pos 0

available-after :
    (m : Movement) (l : Ledger) (user : ℕ)
    → fits (wallet m.user l) m ≡ true
    → pos (wallet user (after m l)).available
      ≡ pos (wallet user l).available +ℤ available_change user (some m)
unfolding moved
available-after m l user fit = elim (Bool-cases (m.user == user)) [
  | inl own ↦
      let same : m.user ≡ user = (nat_eq.beq_iff m.user user).0 own in
      let f = fits-ok (wallet m.user l) m fit in
      rw own (
        subst
          (λ k.
            pos (wallet k (after m l)).available ≡ pos (wallet k l).available +ℤ m.available_delta)
          same (rw wallet-own (omega (int_laws, f.0))))
  | inr other ↦ rw (other, wallet-other m l user other) (omega int_laws)
]

available-charge :
    (m : Option Movement) (l l' : Ledger) (user : ℕ)
    → charge m l ≡ ok l'
    → pos (wallet user l').available ≡ pos (wallet user l).available +ℤ available_change user m
unfolding charge
available-charge none l l' user h = let same : l' ≡ l = ground arith in rw same (omega int_laws)
available-charge (some m) l l' user h =
    let p = >>=-eq-ok (post_money m l) _ h in
    let q = post_money-ok m l p.0.1 p.0.0 p.1 in
    let same : l' ≡ after m l = ground (arith, p.2, q.1) in rw same (available-after m l user q.0)

pub pos_sum : (a b : ℕ) (c : ℤ) → pos a ≡ pos b +ℤ c → a + neg_part c ≡ b + pos_part c
unfolding ◌+ℤ◌
pos_sum a b (pos n) h = ground arith
pos_sum a b (negsuc n) h = ground arith

-- What a settled transaction has done.
pub settle-ok :
    (m : Option Movement) (o : Order) (old : OrderState) (u : User) (s s' : Shop)
    → settle m o old u s ≡ ok s'
    → (charge m s.ledger ≡ ok s'.ledger)
      × (s'.orders ≡ insert o.id o s.orders)
      × (s'.users ≡ insert u.id u s.users)
unfolding settle save_order tx_user
settle-ok m o old u s s' h =
    let p = >>=-eq-ok (charge m s.ledger) _ h in
    (ground (arith, p.1, p.2), ground (arith, p.2), ground (arith, p.2))

-- The books of the shop: a sound ledger, held balances that match the orders, and rows that stand
-- under their own identifiers.
pub record Books (s : Shop) : Type 0 where
  pub sound : IsSound s.ledger
  pub matches : HeldMatches s
  pub order_key : (id : String) (o : Order) → lookup id s.orders ≡ some o → o.id ≡ id
  pub user_key : (id : ℕ) (u : User) → lookup id s.users ≡ some u → u.id ≡ id

pub key-insert {ℓ κ} :
    {K : Type ℓ} {V : Type κ} ⦃e : Eq K⦄ (key : V → K) (v : V) (m : Map K V)
    → ((k : K) (x : V) → lookup k m ≡ some x → key x ≡ k)
    → (k : K) (x : V) → lookup k (insert (key v) v m) ≡ some x
    → key x ≡ k
key-insert ⦃e⦄ key v m keyed k x h =
    ground (arith, lookup-insert (key v) k v m, e.beq_iff (key v) k, keyed k x)

-- A transaction keeps the books if its movement holds, for each user, what the new row holds beyond
-- the old one.
pub settle-Books :
    (m : Option Movement) (o row : Order) (old : OrderState) (u : User) (s s' : Shop)
    → settle m o old u s ≡ ok s'
    → lookup o.id s.orders ≡ some row
    → ((user : ℕ) → pos (held_by user row) +ℤ held_change user m ≡ pos (held_by user o))
    → Books s
    → Books s'
settle-Books m o row old u s s' h there shift b =
    let p = settle-ok m o old u s s' h in
    record {
      sound = charge-IsSound m s.ledger s'.ledger p.0 b.sound;
      matches = record {
        at = λ user. rw p.1 (
            omega (
              arith,
              pos_sum _ _ _ (held-charge m s.ledger s'.ledger user p.0),
              held_orders-insert user o.id o row s.orders there,
              pos_sum _ _ _ (sym (shift user)),
              b.matches.at user,
            ));
      };
      order_key = rw p.1 (key-insert (λ (x : Order). x.id) o s.orders b.order_key);
      user_key = rw p.2 (key-insert (λ (x : User). x.id) u s.users b.user_key);
    }

-- The balances after a transaction, in numbers that do not go below zero.
pub settle-balances :
    (m : Option Movement) (o : Order) (old : OrderState) (u : User) (s s' : Shop) (user : ℕ)
    → settle m o old u s ≡ ok s'
    → ((wallet user s'.ledger).available + neg_part (available_change user m)
        ≡ (wallet user s.ledger).available + pos_part (available_change user m))
      × ((wallet user s'.ledger).held + neg_part (held_change user m)
          ≡ (wallet user s.ledger).held + pos_part (held_change user m))
settle-balances m o old u s s' user h =
    let p = (settle-ok m o old u s s' h).0 in
    (
      pos_sum _ _ _ (available-charge m s.ledger s'.ledger user p),
      pos_sum _ _ _ (held-charge m s.ledger s'.ledger user p),
    )

-- A movement that freezes nothing keeps the books.
pub charge-Books :
    (m : Movement) (s : Shop) (l : Ledger)
    → m.held_delta ≡ pos 0
    → charge (some m) s.ledger ≡ ok l
    → Books s
    → Books (record s { ledger = l })
charge-Books m s l free h b = record {
  sound = charge-IsSound (some m) s.ledger l h b.sound;
  matches = record {
    at = λ user.
        let shift = held-charge (some m) s.ledger l user h in
        ground (arith, pos_sum _ _ _ shift, free, b.matches.at user);
  };
  order_key = b.order_key;
  user_key = b.user_key;
}
