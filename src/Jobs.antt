-- ===== src/Jobs.antt =====
-- The durable task queue of jobs/manager.go: `New`, `Submit`, `claim`, `execute`, `Cancel`, `Recover`
-- and `Prune` over the table `tasks`. The goroutines, the channels that wake them and the table of
-- cancel functions are not modelled; what a handler returns is an argument.
pub mod Rows
pub mod Invariant
pub mod Order
use guangyue_panel.Prelude.{
  ℕ, ◌+◌, ◌-◌, ◌^◌, ◌*◌, ◌≤◌, ◌<◌, String, append, Bool, true, false, not, ◌&&◌, ◌||◌, Option, none,
  some, List, [], ◌∷◌, ◌++◌, ltb, leb, ◌==◌, nat_eq, string_eq, if◌then◌else◌, keep, sum_of, length,
  Result, ok, err, guard, or_fail, ◌>>=◌, ◌>>◌, unsupported_task, queue_full, no_rows,
  unique_violation, any,
}

pub data TaskState : Type 0 where
  waiting running succeeded failed cancelled : TaskState

pub record Task : Type 0 where
  pub id : String
  pub kind : String
  pub target : String
  pub guard_text : String
  pub dedup_key : Option String
  pub state : TaskState
  pub actor_id : ℕ
  pub created : ℕ
  pub started : ℕ
  pub finished : ℕ
  pub next_at : ℕ
  pub attempts : ℕ
  pub result : Option String

pub record Options : Type 0 where
  pub workers : ℕ
  pub capacity : ℕ
  pub timeout : ℕ

-- The limits that `New` puts on the options; the timeout is in seconds.
unfoldable pub clamped : Options → Options
clamped o = record {
  workers = if ltb 8 o.workers then 8 else if ltb o.workers 1 then 1 else o.workers;
  capacity = if ltb 1024 o.capacity then 1024 else if ltb o.capacity 1 then 64 else o.capacity;
  timeout = if o.timeout == 0 || ltb 300 o.timeout then 120 else o.timeout;
}

-- `queued` or `running`.
abbrev pub is_active : Task → Bool
is_active t = elim t.state [ waiting ↦ true | running ↦ true | _ ↦ false ]

abbrev pub is_waiting : Task → Bool
is_waiting t = elim t.state [ waiting ↦ true | _ ↦ false ]

abbrev pub is_running : Task → Bool
is_running t = elim t.state [ running ↦ true | _ ↦ false ]

abbrev pub has_key : String → Task → Bool
has_key k t = elim t.dedup_key [ none ↦ false | some j ↦ j == k ]

-- UPDATE tasks SET ... WHERE ...
abbrev pub update_where : (Task → Bool) → (Task → Task) → List Task → List Task
update_where p f [] = []
update_where p f (t ∷ ts) = let rest = update_where p f ts in (if p t then f t else t) ∷ rest

abbrev pub find_task : (Task → Bool) → List Task → Option Task
find_task p [] = none
find_task p (t ∷ ts) = let rest = find_task p ts in if p t then some t else rest

abbrev pub key_of : String → String → String
key_of kind target = append kind (append ":" target)

new_task : String → String → String → String → ℕ → ℕ → Task
new_task id kind target guard_text actor now = record {
  id = id;
  kind = kind;
  target = target;
  guard_text = guard_text;
  dedup_key = some (key_of kind target);
  state = waiting;
  actor_id = actor;
  created = now;
  started = 0;
  finished = 0;
  next_at = now;
  attempts = 0;
  result = none;
}

-- The insertion refuses an id that is taken.
unfoldable pub insert_task : ℕ → Task → List Task → Result (Task × List Task)
insert_task capacity t ts = do
  guard (ltb (sum_of (λ x. if is_active x then 1 else 0) ts) capacity) queue_full
  guard (not (any (λ x. x.id == t.id) ts)) unique_violation
  ok (t, ts ++ t ∷ [])

-- A task that has not ended answers for every later one of its kind and target. `known` says that a
-- handler is registered and that the texts are not too long; `id` is fresh.
unfoldable pub submit :
    ℕ → Bool → String → String → String → String → ℕ → ℕ → List Task → Result (Task × List Task)
unfolding new_task
submit capacity known id kind target guard_text actor now ts = do
  guard known unsupported_task
  elim (find_task (has_key (key_of kind target)) ts) [
    | some t ↦ ok (t, ts)
    | none ↦ insert_task capacity (new_task id kind target guard_text actor now) ts
  ]

abbrev pub cancelled_at : ℕ → Task → Task
cancelled_at now t = record t { state = cancelled; finished = now; dedup_key = none; result = none }

unfoldable pub cancel : ℕ → String → List Task → List Task
cancel now id ts = update_where (λ t. t.id == id && is_active t) (cancelled_at now) ts

abbrev pub requeued : ℕ → Task → Task
requeued now t = record t { state = waiting; started = 0; next_at = now }

-- After a restart no task is running.
unfoldable pub recover : ℕ → List Task → List Task
recover now ts = update_where is_running (requeued now) ts

-- ORDER BY created,id LIMIT 1, by the order of texts that the database has.
unfoldable pub earliest : (String → String → Bool) → ℕ → List Task → Option Task
earliest before now [] = none
earliest before now (t ∷ ts) =
    let rest = earliest before now ts in
    if is_waiting t && leb t.next_at now
    then elim rest [
      | none ↦ some t
      | some u ↦
          if ltb u.created t.created || (u.created == t.created && before u.id t.id)
          then some u
          else some t
    ]
    else rest

abbrev pub claimed : ℕ → Task → Task
claimed now t = record t { state = running; started = now; attempts = t.attempts + 1 }

unfoldable pub claim : (String → String → Bool) → ℕ → List Task → Option (Task × List Task)
claim before now ts = elim (earliest before now ts) [
  | none ↦ none
  | some t ↦ some (
    record t { attempts = t.attempts + 1 },
    update_where (λ x. x.id == t.id && is_waiting x) (claimed now) ts,
  )
]

-- How the run of a handler ended: the controller is shutting down, the capacity that the handler
-- needs is busy, or there is a result, or an error with
-- what was returned beside it; a result that is too long or not JSON is dropped and is an error.
pub data Outcome : Type 0 where
  stopped busy : Outcome
  answered : Option String → Outcome
  broken : Option String → Outcome

abbrev pub ended : TaskState → ℕ → Option String → Task → Task
ended state now result t = record t {
  state = state;
  finished = now;
  dedup_key = none;
  result = result;
}

abbrev pub delayed : ℕ → Task → Task
delayed at t = record t { state = waiting; next_at = at }

after_outcome : ℕ → ℕ → Outcome → Task → Task
after_outcome now attempts stopped t = delayed now t
after_outcome now attempts busy t =
    if ltb attempts 6 then delayed (now + 2 ^ attempts) t else ended failed now none t
after_outcome now attempts (answered r) t = ended succeeded now r t
after_outcome now attempts (broken r) t = ended failed now r t

-- `attempts` is that of the claimed task; a row that is no longer running is left as it is.
unfoldable pub finish : ℕ → String → ℕ → Outcome → List Task → List Task
unfolding after_outcome
finish now id attempts outcome ts =
    update_where (λ t. t.id == id && is_running t) (after_outcome now attempts outcome) ts

-- How many ended rows stand before one in ORDER BY finished DESC; rows that ended at once stand in
-- the order of the table.
rank : Task → List Task → List Task → ℕ
rank t before all =
    sum_of (λ u. if ltb t.finished u.finished then 1 else 0) all
    + sum_of (λ u. if u.finished == t.finished then 1 else 0) before

keep_newest : List Task → List Task → List Task → List Task
unfolding rank
keep_newest all before [] = []
keep_newest all before (t ∷ ts) =
    let rest = keep_newest all (before ++ t ∷ []) ts in
    if t.finished == 0 || ltb (rank t before all) 100 then t ∷ rest else rest

abbrev pub in_window : ℕ → Bool → Task → Bool
in_window now retain t =
    t.finished == 0 || leb now (t.finished + (if retain then 24 * 3600 else 60))

-- Rows that ended before the window of retention are deleted, and all but the 100 that ended last.
unfoldable pub prune : ℕ → Bool → List Task → List Task
unfolding keep_newest
prune now retain ts = let recent = keep (in_window now retain) ts in keep_newest recent [] recent
