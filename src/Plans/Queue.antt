-- ===== src/Plans/Queue.antt =====
-- The queue of paused plans is a stack: what a purchase pauses, a restoration brings back.
use guangyue_panel.Prelude.{
  ℕ, ◌+◌, ◌<◌, ◌≡◌, refl, ◌∙◌, ◌⊎◌, String, true, some, List, [], ◌∷◌, ◌++◌, nat_eq, Result, ok,
  ◌>>=◌, arith, >>=-eq-ok,
}
use guangyue_panel.Domain.Account.{User, QuotaMeter, Entitlement, PlanSlot, quota_used}
use guangyue_panel.Domain.Periods.{Calendar, next_period}
use guangyue_panel.Plans.{
  Plan, paused_slot, restore_slot, unsnoc, pause_current_plan, restore_previous_plan, assign_plan,
  opened_plan, purchase_plan,
}

pub unsnoc-append {ℓ} : {A : Type ℓ} (xs : List A) (x : A) → unsnoc (xs ++ x ∷ []) ≡ some (xs, x)
unsnoc-append [] x = refl
unsnoc-append (y ∷ ys) x = rw (unsnoc-append ys x)

-- The plan of an account runs at an instant.
abbrev pub Runs : ℕ → User → Type 0
Runs now u = (u.expires ≡ 0) ⊎ (now < u.expires)

-- `w` has at `later` the plan that `u` had at `now`: what it may use, what it has used, what is left
-- of its time, and the plans that are still paused under it.
pub record Resumes (now later : ℕ) (u w : User) : Type 0 where
  pub queue : w.plan_queue ≡ u.plan_queue
  pub quota : w.quota ≡ u.quota
  pub vless : w.vless ≡ u.vless
  pub hy2 : w.hy2 ≡ u.hy2
  pub endless : u.expires ≡ 0 → w.expires ≡ 0
  pub time_left : now < u.expires → w.expires + now ≡ later + u.expires
  pub used : (m : QuotaMeter) → u.meter ≡ some m → quota_used w ≡ quota_used u
  pub entitlement :
      (e : Entitlement)
      → u.entitlement ≡ some e
      → (revision : String) × (w.entitlement ≡ some (record e { revision = revision }))

unsnoc-pause :
    (now : ℕ) (u : User) (e : Entitlement)
    → u.entitlement ≡ some e
    → Runs now u
    → unsnoc (pause_current_plan now u).plan_queue ≡ some (u.plan_queue, paused_slot now u e)
unfolding pause_current_plan
unsnoc-pause now u e has runs =
    let pushed : (pause_current_plan now u).plan_queue ≡ u.plan_queue ++ paused_slot now u e ∷ [] =
      ground (arith, has) in
    rw pushed (unsnoc-append u.plan_queue (paused_slot now u e))

restore_top :
    (period revision : String) (later : ℕ) (v : User) (rest : List PlanSlot) (slot : PlanSlot)
    (e : Entitlement)
    → unsnoc v.plan_queue ≡ some (rest, slot)
    → slot.entitlement ≡ some e
    → restore_previous_plan period revision later v
      ≡ (restore_slot period revision later v rest slot e, true)
unfolding restore_previous_plan
restore_top period revision later v rest slot e top has = ground (arith, top, has)

restore_slot-Resumes :
    (period revision : String) (now later : ℕ) (u v : User) (e : Entitlement)
    → u.entitlement ≡ some e
    → Resumes now later u
        (restore_slot period revision later v u.plan_queue (paused_slot now u e) e)
unfolding restore_slot paused_slot quota_used
restore_slot-Resumes period revision now later u v e has = record {
  queue = ground arith;
  quota = ground arith;
  vless = ground arith;
  hy2 = ground arith;
  endless = λ never. ground (arith, never);
  time_left = λ running. ground (arith, running);
  used = λ m metered. ground (arith, metered);
  entitlement = λ e' same. (revision, ground (arith, has, same));
}

-- Whatever happens to the account while a plan is paused, so long as the queue is left alone, the
-- restoration brings the plan back.
pub restore-pause :
    (period revision : String) (now later : ℕ) (u v : User) (e : Entitlement)
    → u.entitlement ≡ some e
    → Runs now u
    → v.plan_queue ≡ (pause_current_plan now u).plan_queue
    → ((restore_previous_plan period revision later v).1 ≡ true)
      × Resumes now later u (restore_previous_plan period revision later v).0
restore-pause period revision now later u v e has runs same =
    let top : unsnoc v.plan_queue ≡ some (u.plan_queue, paused_slot now u e) =
      rw same (unsnoc-pause now u e has runs) in
    let step =
      restore_top period revision later v u.plan_queue (paused_slot now u e) e top
        (unfold paused_slot in refl) in
    rw step (refl, restore_slot-Resumes period revision now later u v e has)

queue-assign :
    (cal : Calendar) (period revision : String) (p : Plan) (now : ℕ) (order_id : String) (u : User)
    → (assign_plan cal period revision p now order_id u).plan_queue ≡ u.plan_queue
unfolding assign_plan
queue-assign cal period revision p now order_id u = ground arith

-- A purchase, and the instant at which the plan that it paused is restored.
pub record Visit : Type 0 where
  pub plan : Plan
  pub order_id : String
  pub at : ℕ
  pub back : ℕ
  pub period : String
  pub revision : String
  pub cycle_id : String

unfoldable pub buy : Calendar → Visit → User → Result User
buy cal v = purchase_plan cal v.period v.revision v.cycle_id v.plan v.at v.order_id

queue-buy :
    (cal : Calendar) (v : Visit) (u w : User)
    → buy cal v u ≡ ok w
    → w.plan_queue ≡ (pause_current_plan v.at u).plan_queue
unfolding buy purchase_plan opened_plan
queue-buy cal v u w h =
    let p = >>=-eq-ok (next_period cal v.at v.plan.cycle v.plan.timezone) _ h in
    ground (
      arith,
      p.2,
      queue-assign cal v.period v.revision v.plan v.at v.order_id (pause_current_plan v.at u),
    )

-- Purchases, the first one first; restorations, in the opposite order.
unfoldable pub buy_all : Calendar → List Visit → User → Result User
buy_all cal [] u = ok u
buy_all cal (v ∷ vs) u = do w ← buy cal v u; buy_all cal vs w

pub return_all : List Visit → User → User
return_all [] w = w
return_all (v ∷ vs) w = (restore_previous_plan v.period v.revision v.back (return_all vs w)).0

-- Each purchase is made while a plan runs.
abbrev pub Running : Calendar → List Visit → User → Type 0
Running cal [] u = Unit
Running cal (v ∷ vs) u =
    Runs v.at u
    × ((e : Entitlement) × (u.entitlement ≡ some e))
    × ((w : User) → buy cal v u ≡ ok w → Running cal vs w)

returns :
    (cal : Calendar) (v : Visit) (vs : List Visit) (u w : User)
    → Running cal (v ∷ vs) u
    → ((x : User)
        → buy_all cal vs x ≡ ok w
        → Running cal vs x
        → (return_all vs w).plan_queue ≡ x.plan_queue)
    → buy_all cal (v ∷ vs) u ≡ ok w
    → Resumes v.at v.back u (return_all (v ∷ vs) w)
unfolding buy_all return_all
returns cal v vs u w runs inner bought =
    let s = >>=-eq-ok (buy cal v u) _ bought in
    let below = inner s.0 s.2 (runs.2 s.0 s.1) in
    (restore-pause v.period v.revision v.at v.back u (return_all vs w) runs.1.0 runs.1.1 runs.0
      (below ∙ queue-buy cal v u s.0 s.1)).1

queue-return :
    (cal : Calendar) (vs : List Visit) (u w : User)
    → buy_all cal vs u ≡ ok w
    → Running cal vs u
    → (return_all vs w).plan_queue ≡ u.plan_queue
unfolding buy_all return_all
queue-return cal [] u w bought runs = ground arith
queue-return cal (v ∷ vs) u w bought runs =
    (returns cal v vs u w runs (λ x b r. queue-return cal vs x w b r) bought).queue

-- If each of some purchases is made while a plan runs, then restoring them in turn, the last one
-- first, brings the first plan back, however deep they are nested: its quota, protocols and
-- entitlement up to its revision, what was used of it, the queue that was below it, and the time
-- that it had left: a plan without an end has none again, and the new end is as long after the
-- last restoration as the old one was after the first purchase.
pub plans_return :
    (cal : Calendar) (v : Visit) (vs : List Visit) (u w : User)
    → Running cal (v ∷ vs) u
    → buy_all cal (v ∷ vs) u ≡ ok w
    → Resumes v.at v.back u (return_all (v ∷ vs) w)
plans_return cal v vs u w runs bought =
    returns cal v vs u w runs (λ x b r. queue-return cal vs x w b r) bought
