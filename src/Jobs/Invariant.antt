-- ===== src/Jobs/Invariant.antt =====
-- The queue stays within its capacity, and no two tasks that have not ended do the same.
use guangyue_panel.Prelude.{
  ℕ, ◌≤◌, ◌<◌, ◌≡◌, refl, subst, String, Bool, not, ◌&&◌, ◌||◌, none, some, List, [], ◌∷◌, ◌++◌,
  ltb, ◌==◌, nat_eq, string_eq, if◌then◌else◌, keep, sum_of, sum_of-append, All, any, arith, ok,
  guard-eq-ok, Bool-cases, inl, inr, unsupported_task, queue_full, unique_violation, Option-cases,
}
use guangyue_panel.Jobs.{
  Task, is_active, is_waiting, is_running, has_key, key_of, update_where, find_task, new_task,
  insert_task, submit, cancelled_at, cancel, requeued, recover, earliest, claimed, claim, Outcome,
  stopped, busy, answered, broken, after_outcome, finish, keep_newest, rank, in_window, prune,
}
use guangyue_panel.Jobs.Rows.{active_count, key_count, IsRow, IsQueue, Calms, update-IsQueue}

cancel-Calms : (now : ℕ) (id : String) → Calms (λ t. t.id == id && is_active t) (cancelled_at now)
cancel-Calms now id = record {
  activity = λ t h a. ground arith;
  keys = λ t k h a. ground arith;
  row = λ t h r. record { key = refl; open_end = λ a. cc };
}

recover-Calms : (now : ℕ) → Calms is_running (requeued now)
recover-Calms now = record {
  activity = λ t h a. ground arith;
  keys = λ t k h a. a;
  row = λ t h r. record {
    key = ground (arith, r.key, h);
    open_end = λ a. ground (arith, r.open_end, h);
  };
}

claim-Calms : (now : ℕ) (id : String) → Calms (λ t. t.id == id && is_waiting t) (claimed now)
claim-Calms now id = record {
  activity = λ t h a. ground arith;
  keys = λ t k h a. a;
  row = λ t h r. record {
    key = ground (arith, r.key, h);
    open_end = λ a. ground (arith, r.open_end, h);
  };
}

cancel-IsQueue :
    (capacity now : ℕ) (id : String) (ts : List Task)
    → IsQueue capacity ts
    → IsQueue capacity (cancel now id ts)
unfolding cancel
cancel-IsQueue capacity now id ts q = update-IsQueue capacity _ _ ts (cancel-Calms now id) q

recover-IsQueue :
    (capacity now : ℕ) (ts : List Task) → IsQueue capacity ts → IsQueue capacity (recover now ts)
unfolding recover
recover-IsQueue capacity now ts q = update-IsQueue capacity _ _ ts (recover-Calms now) q

claim-IsQueue :
    (before : String → String → Bool) (capacity now : ℕ) (ts : List Task) (t : Task)
    (ts' : List Task)
    → claim before now ts ≡ some (t, ts')
    → IsQueue capacity ts
    → IsQueue capacity ts'
unfolding claim
claim-IsQueue before capacity now ts t ts' h q = elim (Option-cases (earliest before now ts)) [
  | inl nothing ↦ absurd (ground (arith, nothing))
  | inr (u, found) ↦
      let same : update_where (λ x. x.id == u.id && is_waiting x) (claimed now) ts ≡ ts' =
        ground (arith, found, h) in
      subst (IsQueue capacity) same (update-IsQueue capacity _ _ ts (claim-Calms now u.id) q)
]

finish-Calms :
    (now : ℕ) (id : String) (attempts : ℕ) (outcome : Outcome)
    → Calms (λ t. t.id == id && is_running t) (after_outcome now attempts outcome)
unfolding after_outcome
finish-Calms now id attempts stopped = record {
  activity = λ t h a. ground arith;
  keys = λ t k h a. a;
  row = λ t h r. record {
    key = ground (arith, r.key, h);
    open_end = λ a. ground (arith, r.open_end, h);
  };
}
finish-Calms now id attempts busy = record {
  activity = λ t h a. ground arith;
  keys = λ t k h a. ground arith;
  row = λ t h r. record {
    key = ground (arith, r.key, h);
    open_end = λ a. ground (arith, r.open_end, h, a);
  };
}
finish-Calms now id attempts (answered r) = record {
  activity = λ t h a. ground arith;
  keys = λ t k h a. ground arith;
  row = λ t h r. record { key = refl; open_end = λ a. cc };
}
finish-Calms now id attempts (broken r) = record {
  activity = λ t h a. ground arith;
  keys = λ t k h a. ground arith;
  row = λ t h r. record { key = refl; open_end = λ a. cc };
}

finish-IsQueue :
    (capacity now : ℕ) (id : String) (attempts : ℕ) (outcome : Outcome) (ts : List Task)
    → IsQueue capacity ts
    → IsQueue capacity (finish now id attempts outcome ts)
unfolding finish
finish-IsQueue capacity now id attempts outcome ts q =
    update-IsQueue capacity _ _ ts (finish-Calms now id attempts outcome) q

-- Rows that are deleted lower every sum.
keep_le : (p : Task → Bool) (g : Task → ℕ) (ts : List Task) → sum_of g (keep p ts) ≤ sum_of g ts
keep_le p g [] = omega arith
keep_le p g (t ∷ ts) = ground (arith, keep_le p g ts)

keep_rows : (p : Task → Bool) (ts : List Task) → All IsRow ts → All IsRow (keep p ts)
keep_rows p [] rows = tt
keep_rows p (t ∷ ts) (r, rows) = elim (Bool-cases (p t)) [
  | inl hit ↦ rw hit (r, keep_rows p ts rows)
  | inr miss ↦ rw miss (keep_rows p ts rows)
]

newest_le :
    (g : Task → ℕ) (all before ts : List Task) → sum_of g (keep_newest all before ts) ≤ sum_of g ts
unfolding keep_newest
newest_le g all before [] = omega arith
newest_le g all before (t ∷ ts) = ground (arith, newest_le g all (before ++ t ∷ []) ts)

newest_rows : (all before ts : List Task) → All IsRow ts → All IsRow (keep_newest all before ts)
unfolding keep_newest
newest_rows all before [] rows = tt
newest_rows all before (t ∷ ts) (r, rows) =
    elim (Bool-cases (t.finished == 0 || ltb (rank t before all) 100)) [
      | inl hit ↦ rw hit (r, newest_rows all (before ++ t ∷ []) ts rows)
      | inr miss ↦ rw miss (newest_rows all (before ++ t ∷ []) ts rows)
    ]

prune-IsQueue :
    (capacity now : ℕ) (retain : Bool) (ts : List Task)
    → IsQueue capacity ts
    → IsQueue capacity (prune now retain ts)
unfolding prune
prune-IsQueue capacity now retain ts q =
    let recent = keep (in_window now retain) ts in
    record {
      within = omega (
        arith,
        q.within,
        keep_le (in_window now retain) (λ t. if is_active t then 1 else 0) ts,
        newest_le (λ t. if is_active t then 1 else 0) recent [] recent,
      );
      alone = λ k. omega (
        arith,
        q.alone k,
        keep_le (in_window now retain) (λ t. if has_key k t then 1 else 0) ts,
        newest_le (λ t. if has_key k t then 1 else 0) recent [] recent,
      );
      rows = newest_rows recent [] recent (keep_rows (in_window now retain) ts q.rows);
    }

no_key : (k : String) (ts : List Task) → find_task (has_key k) ts ≡ none → key_count k ts ≡ 0
no_key k [] h = refl
no_key k (t ∷ ts) h = ground (arith, no_key k ts)

append_rows : (ts : List Task) (t : Task) → All IsRow ts → IsRow t → All IsRow (ts ++ t ∷ [])
append_rows [] t rows r = (r, tt)
append_rows (u ∷ us) t (r, rows) s = (r, append_rows us t rows s)

insert-IsQueue :
    (capacity : ℕ) (k : String) (t : Task) (ts : List Task)
    → active_count ts < capacity
    → key_count k ts ≡ 0
    → t.dedup_key ≡ some k
    → IsRow t
    → IsQueue capacity ts
    → IsQueue capacity (ts ++ t ∷ [])
insert-IsQueue capacity k t ts room free key r q = record {
  within = ground (arith, room, sum_of-append (λ t. if is_active t then 1 else 0) ts (t ∷ []));
  alone = λ j. ground (
    arith,
    q.alone j,
    free,
    key,
    string_eq.beq_iff k j,
    sum_of-append (λ t. if has_key j t then 1 else 0) ts (t ∷ []),
  );
  rows = append_rows ts t q.rows r;
}

submit-IsQueue :
    (capacity : ℕ) (known : Bool) (id kind target guard_text : String) (actor now : ℕ)
    (ts : List Task) (t : Task) (ts' : List Task)
    → submit capacity known id kind target guard_text actor now ts ≡ ok (t, ts')
    → IsQueue capacity ts
    → IsQueue capacity ts'
unfolding submit insert_task new_task
submit-IsQueue capacity known id kind target guard_text actor now ts t ts' h q =
    let g = guard-eq-ok known unsupported_task _ h in
    elim (Option-cases (find_task (has_key (key_of kind target)) ts)) [
      | inr (u, found) ↦ subst (IsQueue capacity) (ground (arith, g.1, found)) q
      | inl free ↦
          let n = new_task id kind target guard_text actor now in
          let k : insert_task capacity n ts ≡ ok (t, ts') = ground (arith, g.1, free) in
          let a = guard-eq-ok (ltb (active_count ts) capacity) queue_full _ k in
          let b = guard-eq-ok (not (any (λ x. x.id == n.id) ts)) unique_violation _ a.1 in
          subst (IsQueue capacity) (ground (arith, b.1)) (
            insert-IsQueue capacity (key_of kind target) n ts (ground (arith, a.0))
              (no_key (key_of kind target) ts free) refl
              (record { key = refl; open_end = λ a. refl }) q)
    ]

-- The calls of the queue and of its workers, in any order.
pub data Step (capacity : ℕ) : List Task → List Task → Type 0 where
  submits :
      {ts ts' : List Task} (known : Bool) (id kind target guard_text : String) (actor now : ℕ)
      (t : Task)
      → submit capacity known id kind target guard_text actor now ts ≡ ok (t, ts')
      → Step capacity ts ts'
  cancels : {ts : List Task} (now : ℕ) (id : String) → Step capacity ts (cancel now id ts)
  recovers : {ts : List Task} (now : ℕ) → Step capacity ts (recover now ts)
  claims :
      {ts ts' : List Task} (before : String → String → Bool) (now : ℕ) (t : Task)
      → claim before now ts ≡ some (t, ts')
      → Step capacity ts ts'
  finishes :
      {ts : List Task} (now : ℕ) (id : String) (attempts : ℕ) (outcome : Outcome)
      → Step capacity ts (finish now id attempts outcome ts)
  prunes : {ts : List Task} (now : ℕ) (retain : Bool) → Step capacity ts (prune now retain ts)

pub data Reaches (capacity : ℕ) : List Task → List Task → Type 0 where
  done : {ts : List Task} → Reaches capacity ts ts
  step :
      {ts us vs : List Task} → Step capacity ts us → Reaches capacity us vs → Reaches capacity ts vs

Step-IsQueue :
    (capacity : ℕ) (ts us : List Task)
    → Step capacity ts us
    → IsQueue capacity ts
    → IsQueue capacity us
Step-IsQueue capacity ts us (submits known id kind target guard_text actor now t h) q =
    submit-IsQueue capacity known id kind target guard_text actor now ts t us h q
Step-IsQueue capacity ts _ (cancels now id) q = cancel-IsQueue capacity now id ts q
Step-IsQueue capacity ts _ (recovers now) q = recover-IsQueue capacity now ts q
Step-IsQueue capacity ts us (claims before now t h) q =
    claim-IsQueue before capacity now ts t us h q
Step-IsQueue capacity ts _ (finishes now id attempts outcome) q =
    finish-IsQueue capacity now id attempts outcome ts q
Step-IsQueue capacity ts _ (prunes now retain) q = prune-IsQueue capacity now retain ts q

-- Whatever is called on a queue, in whatever order: if at first no more tasks than the capacity
-- had not ended, no two rows carried one key, and the rows carried the keys of their kinds and
-- targets until they ended, then so it is afterwards.
pub Reaches-IsQueue :
    (capacity : ℕ) (ts us : List Task)
    → IsQueue capacity ts
    → Reaches capacity ts us
    → IsQueue capacity us
Reaches-IsQueue capacity ts _ q done = q
Reaches-IsQueue capacity ts vs q (step {us = us} h r) =
    Reaches-IsQueue capacity us vs (Step-IsQueue capacity ts us h q) r
