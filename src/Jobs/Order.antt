-- ===== src/Jobs/Order.antt =====
-- What a caller is answered: submissions are merged, and tasks run in the order of their creation.
use guangyue_panel.Prelude.{
  ℕ, ◌+◌, ◌≤◌, ◌≡◌, refl, subst, String, Bool, true, not, ◌&&◌, ◌||◌, none, some, List, [], ◌∷◌,
  ◌++◌, ltb, leb, ◌==◌, nat_eq, string_eq, if◌then◌else◌, All, any, sum_of, arith, ok, guard-eq-ok,
  Bool-cases, inl, inr, ◌⊎◌, unsupported_task, queue_full, unique_violation, Option-cases,
}
use guangyue_panel.Jobs.{
  Task, is_active, is_waiting, has_key, key_of, find_task, new_task, insert_task, submit, earliest,
  claim, claimed, update_where,
}

find_append :
    (p : Task → Bool) (ts : List Task) (t : Task)
    → find_task p ts ≡ none
    → p t ≡ true
    → find_task p (ts ++ t ∷ []) ≡ some t
find_append p [] t h k = ground arith
find_append p (u ∷ us) t h k = ground (arith, find_append p us t, h, k)

submitted :
    (capacity : ℕ) (known : Bool) (id kind target guard_text : String) (actor now : ℕ)
    (ts : List Task) (t : Task) (ts' : List Task)
    → submit capacity known id kind target guard_text actor now ts ≡ ok (t, ts')
    → find_task (has_key (key_of kind target)) ts' ≡ some t
unfolding submit insert_task new_task
submitted capacity known id kind target guard_text actor now ts t ts' h =
    let k = key_of kind target in
    let g = guard-eq-ok known unsupported_task _ h in
    elim (Option-cases (find_task (has_key k) ts)) [
      | inr (u, found) ↦ ground (arith, g.1, found)
      | inl free ↦
          let n = new_task id kind target guard_text actor now in
          let i : insert_task capacity n ts ≡ ok (t, ts') = ground (arith, g.1, free) in
          let a =
            guard-eq-ok (ltb (sum_of (λ x. if is_active x then 1 else 0) ts) capacity) queue_full _
              i in
          let b = guard-eq-ok (not (any (λ x. x.id == n.id) ts)) unique_violation _ a.1 in
          ground
            (arith, b.1, find_append (has_key k) ts n free (ground (arith, string_eq.beq_iff k k)))
    ]

-- A submission that was accepted is answered with the same task when it is made again, whatever
-- the second call's fresh identifier, guard, user and time are, and the second call changes
-- nothing.
pub submit_twice :
    (capacity : ℕ) (known : Bool) (id id' kind target guard_text guard_text' : String)
    (actor actor' now now' : ℕ) (ts : List Task) (t : Task) (ts' : List Task)
    → submit capacity known id kind target guard_text actor now ts ≡ ok (t, ts')
    → submit capacity known id' kind target guard_text' actor' now' ts' ≡ ok (t, ts')
unfolding submit
submit_twice capacity known id id' kind target guard_text guard_text' actor actor' now now' ts t ts'
      h =
    let g = guard-eq-ok known unsupported_task _ h in
    rw (g.0, submitted capacity known id kind target guard_text actor now ts t ts' h) refl

-- A task that waits and is due, created no later than every other task that waits and is due.
pub record IsFirst (now : ℕ) (ts : List Task) (t : Task) : Type 0 where
  pub due : (is_waiting t ≡ true) × (t.next_at ≤ now)
  pub first : All (λ u. is_waiting u ≡ true → u.next_at ≤ now → t.created ≤ u.created) ts

not_due :
    (before : String → String → Bool) (now created : ℕ) (ts : List Task)
    → earliest before now ts ≡ none
    → All (λ u. is_waiting u ≡ true → u.next_at ≤ now → created ≤ u.created) ts
unfolding earliest
not_due before now created [] h = tt
not_due before now created (t ∷ ts) h =
    (λ w d. absurd (ground (arith, h, w, d)), not_due before now created ts (ground (arith, h)))

later_All :
    (now a b : ℕ) (ts : List Task)
    → a ≤ b
    → All (λ u. is_waiting u ≡ true → u.next_at ≤ now → b ≤ u.created) ts
    → All (λ u. is_waiting u ≡ true → u.next_at ≤ now → a ≤ u.created) ts
later_All now a b [] h all = tt
later_All now a b (t ∷ ts) h (x, all) = (λ w d. omega (arith, h, x w d), later_All now a b ts h all)

earliest-IsFirst :
    (before : String → String → Bool) (now : ℕ) (ts : List Task) (t : Task)
    → earliest before now ts ≡ some t
    → IsFirst now ts t
unfolding earliest
earliest-IsFirst before now [] t h = absurd (ground arith)
earliest-IsFirst before now (x ∷ xs) t h = elim (Bool-cases (is_waiting x && leb x.next_at now)) [
  | inr passed ↦
      let r = earliest-IsFirst before now xs t (ground (arith, h, passed)) in
      record { due = r.due; first = (λ w d. absurd (ground (arith, passed, w, d)), r.first) }
  | inl counts ↦ elim (Option-cases (earliest before now xs)) [
    | inl rest ↦
        let same : x ≡ t = ground (arith, h, counts, rest) in
        subst (IsFirst now (x ∷ xs)) same (record {
          due = ground (arith, counts);
          first = (λ w d. omega arith, not_due before now x.created xs rest);
        })
    | inr (u, rest) ↦
        let r = earliest-IsFirst before now xs u rest in
        elim (Bool-cases
          (ltb u.created x.created || (u.created == x.created && before u.id x.id))) [
            | inl other ↦
                let same : u ≡ t = ground (arith, h, counts, rest, other) in
                subst (IsFirst now (x ∷ xs)) same
                  (record { due = r.due; first = (λ w d. ground (arith, other), r.first) })
            | inr own ↦
                let same : x ≡ t = ground (arith, h, counts, rest, own) in
                subst (IsFirst now (x ∷ xs)) same (record {
                  due = ground (arith, counts);
                  first = (
                    λ w d. omega arith,
                    later_All now x.created u.created xs (ground (arith, own)) r.first,
                  );
                })
          ]
  ]
]

none_due :
    (before : String → String → Bool) (now : ℕ) (ts : List Task)
    → earliest before now ts ≡ none
    → All (λ u. is_waiting u ≡ true → ¬ (u.next_at ≤ now)) ts
unfolding earliest
none_due before now [] h = tt
none_due before now (t ∷ ts) h =
    (λ w d. absurd (ground (arith, h, w, d)), none_due before now ts (ground (arith, h)))

-- A worker claims a task that was waiting and due, with one more attempt, and no other such task
-- was created before it; or it claims none, and then no waiting task is due.
pub claim-IsFirst :
    (before : String → String → Bool) (now : ℕ) (ts : List Task)
    → ((claim before now ts ≡ none) × All (λ u. is_waiting u ≡ true → ¬ (u.next_at ≤ now)) ts)
      ⊎ ((t : Task) × (ts' : List Task) × (claim before now ts
            ≡ some (record t { attempts = t.attempts + 1 }, ts'))
          × IsFirst now ts t)
unfolding claim
claim-IsFirst before now ts = elim (Option-cases (earliest before now ts)) [
  | inl nothing ↦ inl (rw (claim, nothing) refl, none_due before now ts nothing)
  | inr (t, found) ↦ inr (
    t,
    update_where (λ x. x.id == t.id && is_waiting x) (claimed now) ts,
    rw (claim, found) refl,
    earliest-IsFirst before now ts t found,
  )
]
