-- ===== src/Plans.antt =====
-- Plans and the queue of paused plans: controlplane/node_policy.go (`pauseCurrentPlan`,
-- `restorePreviousPlan`, `assignPlan`), the type `Plan` of entitlement_store.go, and the lookup and
-- removal of queued plans in commerce_orders.go. Copies of documents are the documents themselves;
-- an empty and a missing map of rates are one. The fresh identifiers that the code draws
-- (`randomToken`, `serial`) are arguments.
pub mod Queue
pub mod Position
use guangyue_panel.Prelude.{
  ℕ, zero, suc, ◌+◌, ◌-◌, ◌*◌, ◌≡◌, refl, String, Bool, true, false, not, ◌&&◌, ◌||◌, Option, none,
  some, List, Map, [], ◌∷◌, ◌++◌, ltb, leb, ◌==◌, nat_eq, string_eq, if◌then◌else◌, Result, ok, err,
  ◌>>=◌, length,
}
use guangyue_panel.Domain.Account.{User, QuotaMeter, Entitlement, PlanSlot, init_meter}
use guangyue_panel.Domain.Periods.{Calendar, next_period, day}

pub record Plan : Type 0 where
  pub id : String
  pub version : ℕ
  pub name : String
  pub archived : Bool
  pub quota : ℕ
  pub valid_days : ℕ
  pub cycle : String
  pub timezone : String
  pub group_ids : List String
  pub node_ids : List String
  pub node_rates : Map String ℕ
  pub vless : Bool
  pub hy2 : Bool
  pub price : ℕ

-- The last element and what stands before it.
abbrev pub unsnoc {ℓ} : {A : Type ℓ} → List A → Option (List A × A)
unsnoc [] = none
unsnoc (x ∷ xs) = elim (unsnoc xs) [ none ↦ some ([], x) | some (ys, y) ↦ some (x ∷ ys, y) ]

abbrev pub on_meter : (QuotaMeter → QuotaMeter) → Option QuotaMeter → Option QuotaMeter
on_meter f none = none
on_meter f (some m) = some (f m)

abbrev or_zero : Result ℕ → ℕ
or_zero (ok n) = n
or_zero (err e) = 0

paused_slot : ℕ → User → Entitlement → PlanSlot
paused_slot now u e = record {
  entitlement = some e;
  order_id = e.order_id;
  renewal_order_id = e.renewal_order_id;
  node_rates = e.node_rates;
  quota = u.quota;
  expires = u.expires;
  paused_at = now;
  vless = u.vless;
  hy2 = u.hy2;
  meter = u.meter;
}

-- A plan that has run out is not kept.
unfoldable pub pause_current_plan : ℕ → User → User
unfolding paused_slot
pause_current_plan now u = elim u.entitlement [
  | none ↦ u
  | some e ↦
      if not (u.expires == 0) && leb u.expires now
      then u
      else record u { plan_queue = u.plan_queue ++ paused_slot now u e ∷ [] }
]

-- What is left of a deadline at the pause, counted from now; 0 is no deadline.
abbrev resumed : ℕ → ℕ → ℕ → ℕ
resumed now paused_at deadline = if deadline == 0 then 0 else now + (deadline - paused_at)

restored_meter : ℕ → ℕ → QuotaMeter → QuotaMeter
restored_meter now paused_at m = record m {
  ends = resumed now paused_at m.ends;
  start = now;
  pending_reset = false;
}

restore_slot : String → String → ℕ → User → List PlanSlot → PlanSlot → Entitlement → User
unfolding restored_meter init_meter
restore_slot period revision now u rest slot e =
    let v = record u {
      plan_queue = rest;
      entitlement = some (record e { node_rates = slot.node_rates; revision = revision });
      node_group_ids = none;
      quota = slot.quota;
      vless = slot.vless;
      hy2 = slot.hy2;
      expires = resumed now slot.paused_at slot.expires;
      meter = on_meter (restored_meter now slot.paused_at) slot.meter;
    } in
    init_meter period now v

-- The slot leaves the queue also where it holds no entitlement and nothing is restored.
unfoldable pub restore_previous_plan : String → String → ℕ → User → User × Bool
unfolding restore_slot
restore_previous_plan period revision now u = elim (unsnoc u.plan_queue) [
  | none ↦ (u, false)
  | some (rest, slot) ↦ elim slot.entitlement [
    | none ↦ (record u { plan_queue = rest; entitlement = none }, false)
    | some e ↦ (restore_slot period revision now u rest slot e, true)
  ]
]

unfoldable pub assign_plan : Calendar → String → String → Plan → ℕ → String → User → User
unfolding init_meter
assign_plan cal period revision p now order_id u =
    let v = init_meter period now u in
    record v {
      node_group_ids = none;
      entitlement = some (record {
        plan_id = p.id;
        order_id = order_id;
        renewal_order_id = "";
        version = p.version;
        name = p.name;
        group_ids = p.group_ids;
        node_ids = p.node_ids;
        node_rates = p.node_rates;
        cycle = p.cycle;
        timezone = p.timezone;
        assigned_at = now;
        revision = revision;
      });
      quota = p.quota;
      vless = p.vless;
      hy2 = p.hy2;
      expires = if ltb 0 p.valid_days then now + p.valid_days * day else 0;
      meter =
          on_meter (λ m. record m { ends = or_zero (next_period cal now p.cycle p.timezone) })
            v.meter;
    }

-- The meter of a purchased plan: a new period from now on, its baselines at the present counters.
opened_meter : String → ℕ → ℕ → User → QuotaMeter → QuotaMeter
opened_meter cycle_id now ends u m = record m {
  period_id = cycle_id;
  start = now;
  ends = ends;
  pending_reset = false;
  base_upload = m.upload;
  base_download = m.download;
  raw_base_upload = u.upload;
  raw_base_download = u.download;
  upload_remainder = 0;
  download_remainder = 0;
}

-- The account of a purchase whose period ends at `ends`.
unfoldable pub opened_plan :
    Calendar → String → String → String → Plan → ℕ → ℕ → String → User → User
unfolding opened_meter
opened_plan cal period revision cycle_id p now ends order_id u =
    let v = assign_plan cal period revision p now order_id (pause_current_plan now u) in
    record v { meter = on_meter (opened_meter cycle_id now ends v) v.meter }

-- The purchase branch of `fulfilOrder`.
unfoldable pub purchase_plan :
    Calendar → String → String → String → Plan → ℕ → String → User → Result User
purchase_plan cal period revision cycle_id p now order_id u = do
  ends ← next_period cal now p.cycle p.timezone
  ok (opened_plan cal period revision cycle_id p now ends order_id u)
