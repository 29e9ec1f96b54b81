-- ===== src/Wallet/Post.antt =====
-- When `postMoney` goes through, and what it then does.
use guangyue_panel.Prelude.{
  ℕ, ◌+◌, ◌-◌, ◌≡◌, sym, subst, inl, inr, true, false, any, nat_eq, string_eq, if◌then◌else◌, ok,
  err, insufficient_balance, arith, Bool-cases, Option-cases,
}
use guangyue_panel.Wallet.{
  Wallet, Ledger, wallet, find_checkpoint, Movement, fits, moved, checkpoint_before,
  matches_checkpoint, clashes, posted, post_money,
}
use guangyue_panel.Wallet.Sums.{fits-ok, undo_move}
use guangyue_panel.Wallet.Reconciled.{HasCheckpoint, Checkpointed, IsSound, IsSound-after}

checkpoint_holds :
    (l : Ledger) (user : ℕ)
    → HasCheckpoint l user
    → checkpoint_before user ((wallet user l).revision + 1) l
      ≡ ok ((wallet user l).available, (wallet user l).held)
unfolding checkpoint_before
checkpoint_holds l user h =
    let back : (wallet user l).revision + 1 - 1 ≡ (wallet user l).revision = omega arith in
    elim (Option-cases (find_checkpoint user (wallet user l).revision l.transactions)) [
      | inl gone ↦
          let k = subst (Checkpointed (wallet user l)) gone h in ground (arith, k.0, k.1, k.2)
      | inr (t, found) ↦
          let k = subst (Checkpointed (wallet user l)) found h in
          rw back (ground (arith, found, k.0, k.1, k.2))
    ]

matches_moved :
    (w : Wallet) (m : Movement)
    → fits w m ≡ true
    → matches_checkpoint (w.available, w.held) (moved w m) m ≡ true
unfolding matches_checkpoint moved
matches_moved w m h =
    let f = fits-ok w m h in
    rw (undo_move w.available m.available_delta f.0, undo_move w.held m.held_delta f.1)

-- On a wallet that its newest row repeats, and with keys that no row has, a movement goes through
-- exactly when the balances stay in range; the only other outcome is the refusal for the balance.
pub post_money_total :
    (m : Movement) (l : Ledger)
    → HasCheckpoint l m.user
    → any (clashes m ((wallet m.user l).revision + 1)) l.transactions ≡ false
    → post_money m l ≡ (
        if fits (wallet m.user l) m
        then ok (moved (wallet m.user l) m, posted m (moved (wallet m.user l) m) l)
        else err insufficient_balance)
unfolding post_money moved posted
post_money_total m l h fresh = elim (Bool-cases (fits (wallet m.user l) m)) [
  | inl fit ↦
      rw fit
        (rw (checkpoint_holds l m.user h) (rw (matches_moved (wallet m.user l) m fit) (rw fresh)))
  | inr over ↦ rw over
]

pub post_money-ok :
    (m : Movement) (l l' : Ledger) (w : Wallet)
    → post_money m l ≡ ok (w, l')
    → (fits (wallet m.user l) m ≡ true) × (l' ≡ posted m (moved (wallet m.user l) m) l)
unfolding post_money
post_money-ok m l l' w h = ground arith

-- A movement that goes through keeps a sound ledger sound: for every user both balances are the
-- sums of their entries, stay in range together, carry the revision of their last row and are
-- repeated by it, and the entries of the whole ledger balance.
pub post_money-IsSound :
    (m : Movement) (l l' : Ledger) (w : Wallet)
    → post_money m l ≡ ok (w, l')
    → IsSound l
    → IsSound l'
post_money-IsSound m l l' w h s =
    let p = post_money-ok m l l' w h in subst IsSound (sym p.1) (IsSound-after m l p.0 s)
