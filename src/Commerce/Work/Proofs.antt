-- ===== src/Commerce/Work/Proofs.antt =====
-- The worker keeps the books.
use guangyue_panel.Prelude.{
  ℕ, zero, suc, ◌+◌, ◌-◌, ◌*◌, ◌≤◌, ◌≡◌, refl, sym, subst, true, not, ◌&&◌, ◌||◌, Option, none,
  some, ltb, leb, ◌==◌, nat_eq, string_eq, lookup, arith, Result, ok, err, Bool-cases, inl, inr,
  if_true, if_false, min, if◌then◌else◌, any, Map,
}
use guangyue_panel.Commerce.{
  Order, OrderState, pending, provisioning, refunding, expired, Shop, same_state, save_order,
}
use guangyue_panel.Commerce.Settle.{Books, key-insert}
use guangyue_panel.Commerce.Held.{held_by, held_orders-insert}
use guangyue_panel.Commerce.Create.{is_open}
use guangyue_panel.Commerce.Cancel.Proofs.{fail-Books}
use guangyue_panel.Domain.Account.{User}
use guangyue_panel.Commerce.Fulfil.{Server, outstanding, needs_barrier, collected_shop}
use guangyue_panel.Commerce.Fulfil.Proofs.{IsDue, IsCollector, fulfil-Books}
use guangyue_panel.Commerce.Moves.{
  Move, stay, run_out, Writes, save-Write, Lives, Writes-Lives, Lives-trans,
}
use guangyue_panel.Commerce.Moves.Handlers.{fail-Writes, fulfil-Writes, same_orders-Writes}
use guangyue_panel.Commerce.Work.{
  Worker, run, expire_order, retry_delay, reschedule, rescheduled, retried, attempt_order,
  kept_shop, work_order, may_expire, expire_attempt,
}

-- A guarded write that leaves what an order holds keeps the books.
save-Books :
    (o row : Order) (old : OrderState) (s : Shop)
    → lookup o.id s.orders ≡ some row
    → ((user : ℕ) → held_by user row ≡ held_by user o)
    → Books s
    → Books (run s (save_order o old s))
unfolding save_order
save-Books o row old s there same b = elim (Bool-cases (same_state row.state old)) [
  | inr other ↦ rw (there, other) b
  | inl still ↦
      rw (there, still)
        (record {
          sound = b.sound;
          matches = record {
            at = λ user. omega (
              arith,
              b.matches.at user,
              held_orders-insert user o.id o row s.orders there,
              same user,
            );
          };
          order_key = key-insert (λ (x : Order). x.id) o s.orders b.order_key;
          user_key = b.user_key;
        })
]

reschedule-Books : (now : ℕ) (o : Order) (s : Shop) → Books s → Books (reschedule now o s)
unfolding reschedule held_by
reschedule-Books now o s b = go (lookup o.id s.orders) refl
  where
    go : (found : Option Order) → lookup o.id s.orders ≡ found → Books (rescheduled now o s found)
    go none there = b
    go (some row) there = elim (Bool-cases (same_state row.state o.state)) [
      | inr other ↦ rw other b
      | inl still ↦ rw still (
          save-Books (retried now row) row row.state s
            (subst (λ k. lookup k s.orders ≡ some row) (sym (b.order_key o.id row there)) there)
            (λ user. refl) b)
    ]

expire-Books :
    (now : ℕ) (o : Order) (s : Shop)
    → lookup o.id s.orders ≡ some o
    → same_state o.state pending ≡ true
    → Books s
    → Books (expire_order now o s)
unfolding expire_order held_by
expire-Books now o s there state b =
    elim (Bool-cases (o.provider_id == "crypto" || ltb now o.expires || not (may_expire o s))) [
      | inl stays ↦ rw stays b
      | inr out ↦ rw out (elim (Bool-cases (o.attempt_id == "")) [
        | inl balance ↦ rw balance (
            save-Books (record o { state = expired }) o pending s there
              (λ user. ground (arith, state)) b)
        | inr online ↦ rw online (
            save-Books (record o { state = expired }) o pending _ there
              (λ user. ground (arith, state))
              (record {
                sound = b.sound;
                matches = record { at = b.matches.at };
                order_key = b.order_key;
                user_key = b.user_key;
              }))
      ])
    ]

attempt-Books :
    (w : Worker) (o : Order) (s s' : Shop)
    → IsCollector w.server.collect
    → IsDue o s
    → attempt_order w o s ≡ ok s'
    → Books s
    → Books s'
unfolding attempt_order
attempt-Books w o s s' c due h b =
    elim (Bool-cases (same_state o.state provisioning && leb 1800 (w.server.now - o.started))) [
      | inl late ↦ fail-Books w.server.transaction o s s' due.there (if_true _ _ late h) b
      | inr early ↦ fulfil-Books w.server o s s' c due (if_false _ _ early h) b
    ]

users-Books :
    (s : Shop) (users : Map ℕ User)
    → ((id : ℕ) (u : User) → lookup id users ≡ some u → u.id ≡ id)
    → Books s
    → Books (record s { users = users })
users-Books s users keyed b = record {
  sound = b.sound;
  matches = record { at = b.matches.at };
  order_key = b.order_key;
  user_key = keyed;
}

collected_shop-Books :
    (v : Server) (o : Order) (s : Shop)
    → IsCollector v.collect
    → Books s
    → Books (collected_shop v o s)
unfolding collected_shop
collected_shop-Books v o s c b = go (lookup o.user_id s.users) (v.collect s.users) refl
  where
    go :
        (row : Option User) (r : Result (Map ℕ User))
        → v.collect s.users ≡ r
        → Books (elim row [
          | none ↦ s
          | some u ↦
              if needs_barrier o && not (any (outstanding u.id) s.sites)
              then (elim r [ ok users ↦ record s { users = users } | err e ↦ s ])
              else s
        ])
    go none r h = b
    go (some u) (ok users) h =
        elim (Bool-cases (needs_barrier o && not (any (outstanding u.id) s.sites))) [
          | inl barrier ↦ rw barrier (users-Books s users (c.keys s.users users h b.user_key) b)
          | inr free ↦ rw free b
        ]
    go (some u) (err e) h =
        elim (Bool-cases (needs_barrier o && not (any (outstanding u.id) s.sites))) [
          | inl barrier ↦ rw barrier b
          | inr free ↦ rw free b
        ]

kept_shop-Books :
    (w : Worker) (o : Order) (s : Shop)
    → IsCollector w.server.collect
    → Books s
    → Books (kept_shop w o s)
unfolding kept_shop
kept_shop-Books w o s c b =
    elim (Bool-cases (same_state o.state provisioning && leb 1800 (w.server.now - o.started))) [
      | inl late ↦ rw late b
      | inr early ↦ rw early (collected_shop-Books w.server o s c b)
    ]

orders-kept_shop : (w : Worker) (o : Order) (s : Shop) → (kept_shop w o s).orders ≡ s.orders
unfolding kept_shop collected_shop
orders-kept_shop w o s = ground arith

run-Books :
    (s : Shop) (r : Result Shop) → ((s' : Shop) → r ≡ ok s' → Books s') → Books s → Books (run s r)
run-Books s (ok t) good b = good t refl
run-Books s (err e) good b = b

-- One round of the worker over one open order, as it is stored, keeps the books.
pub work_order-Books :
    (w : Worker) (o : Order) (s : Shop)
    → IsCollector w.server.collect
    → lookup o.id s.orders ≡ some o
    → is_open o.state ≡ true
    → Books s
    → Books (work_order w o s)
unfolding work_order
work_order-Books w o s c there waiting b = elim (Bool-cases (ltb w.server.now o.next_attempt)) [
  | inl later ↦ rw later b
  | inr now ↦ elim (Bool-cases (same_state o.state pending)) [
    | inl open_order ↦ rw (now, open_order) (expire-Books w.server.now o s there open_order b)
    | inr going ↦
        let due : IsDue o s = record { there = there; state = ground (arith, waiting, going) } in
        elim (Bool-cases (
          same_state o.state provisioning
          && o.provider_id == "crypto"
          && not (w.chain_available o))) [
            | inl blocked ↦ rw (now, going, blocked) b
            | inr free ↦
                rw (now, going, free)
                  (reschedule-Books w.server.now o _ (
                    run-Books (kept_shop w o s) (attempt_order w o s)
                      (λ s' h. attempt-Books w o s s' c due h b) (kept_shop-Books w o s c b)))
          ]
  ]
]

keep-Writes : (s : Shop) → Writes s s
keep-Writes s = inl refl

saved-Writes :
    (o : Order) (old : OrderState) (s t : Shop) (r : Result Shop)
    → t.orders ≡ s.orders
    → Move old o.state
    → save_order o old t ≡ r
    → Writes s (run t r)
saved-Writes o old s t (ok t') same m h =
    same_orders-Writes s t t' same (inr (save-Write o old t t' h m))
saved-Writes o old s t (err e) same m h = inl same

expire-Writes :
    (now : ℕ) (o : Order) (s : Shop)
    → same_state o.state pending ≡ true
    → Writes s (expire_order now o s)
unfolding expire_order expire_attempt
expire-Writes now o s state =
    elim (Bool-cases (o.provider_id == "crypto" || ltb now o.expires || not (may_expire o s))) [
      | inl stays ↦ rw stays (keep-Writes s)
      | inr out ↦ rw out (
          saved-Writes (record o { state = expired }) pending s (expire_attempt o s)
            (save_order (record o { state = expired }) pending (expire_attempt o s)) (ground arith)
            run_out refl)
    ]

reschedule-Writes : (now : ℕ) (o : Order) (s : Shop) → Writes s (reschedule now o s)
unfolding reschedule
reschedule-Writes now o s = go (lookup o.id s.orders)
  where
    go : (found : Option Order) → Writes s (rescheduled now o s found)
    go none = inl refl
    go (some row) = elim (Bool-cases (same_state row.state o.state)) [
      | inr other ↦ rw other (keep-Writes s)
      | inl still ↦ rw still (
          saved-Writes (retried now row) row.state s s (save_order (retried now row) row.state s)
            refl stay refl)
    ]

attempt-Writes :
    (w : Worker) (o : Order) (s s' : Shop)
    → same_state o.state provisioning ≡ not (same_state o.state refunding)
    → attempt_order w o s ≡ ok s'
    → Writes s s'
unfolding attempt_order
attempt-Writes w o s s' due h =
    elim (Bool-cases (same_state o.state provisioning && leb 1800 (w.server.now - o.started))) [
      | inl late ↦ fail-Writes w.server.transaction o s s' (if_true _ _ late h)
      | inr early ↦ fulfil-Writes w.server o s s' due (if_false _ _ early h)
    ]

run-Writes :
    (s k : Shop) (r : Result Shop)
    → k.orders ≡ s.orders
    → ((s' : Shop) → r ≡ ok s' → Writes s s')
    → Writes s (run k r)
run-Writes s k (ok t) same good = good t refl
run-Writes s k (err e) same good = inl same

-- One round of the worker over one open order moves orders along their edges only.
pub work_order-Lives :
    (w : Worker) (o : Order) (s : Shop) → is_open o.state ≡ true → Lives s (work_order w o s)
unfolding work_order
work_order-Lives w o s waiting = elim (Bool-cases (ltb w.server.now o.next_attempt)) [
  | inl later ↦ rw later (Writes-Lives s s (keep-Writes s))
  | inr now ↦ elim (Bool-cases (same_state o.state pending)) [
    | inl open_order ↦
        rw (now, open_order)
          (Writes-Lives s (expire_order w.server.now o s)
            (expire-Writes w.server.now o s open_order))
    | inr going ↦
        elim (Bool-cases (
          same_state o.state provisioning
          && o.provider_id == "crypto"
          && not (w.chain_available o))) [
            | inl blocked ↦ rw (now, going, blocked) (Writes-Lives s s (keep-Writes s))
            | inr free ↦
                let t = run (kept_shop w o s) (attempt_order w o s) in
                rw (now, going, free)
                  (Lives-trans s t (reschedule w.server.now o t)
                    (Writes-Lives s t (
                      run-Writes s (kept_shop w o s) (attempt_order w o s) (orders-kept_shop w o s)
                        (λ s' h. attempt-Writes w o s s' (ground (arith, waiting, going)) h)))
                    (Writes-Lives t (reschedule w.server.now o t)
                      (reschedule-Writes w.server.now o t)))
          ]
  ]
]

-- The delay before the next attempt is at least two seconds and at most a minute, and it is
-- doubled from one attempt to the next until it reaches the minute.
retry_delay_lem :
    (n : ℕ)
    → (2 ≤ retry_delay (n + 1))
      × (retry_delay (n + 1) ≤ 60)
      × (retry_delay (n + 2) ≡ min 60 (2 * retry_delay (n + 1)))
unfolding retry_delay
retry_delay_lem zero = ground arith
retry_delay_lem (suc zero) = ground arith
retry_delay_lem (suc (suc zero)) = ground arith
retry_delay_lem (suc (suc (suc zero))) = ground arith
retry_delay_lem (suc (suc (suc (suc zero)))) = ground arith
retry_delay_lem (suc (suc (suc (suc (suc n))))) =
    let top : min (suc (suc (suc (suc (suc n)))) + 1) 6 ≡ 6 = omega arith in
    let next : min (suc (suc (suc (suc (suc n)))) + 2) 6 ≡ 6 = omega arith in
    rw (top, next) (ground arith)
