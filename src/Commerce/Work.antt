-- ===== src/Commerce/Work.antt =====
-- The worker `commerceWork` of controlplane/commerce_fulfilment.go: pending orders run out, orders in
-- provisioning and refunding are tried again until they are done. Errors are gathered for the log by
-- the code and are left out here; so are the notifications that it sends at the end.
pub mod Proofs
use guangyue_panel.Prelude.{
  ℕ, ◌+◌, ◌-◌, ◌^◌, String, Bool, true, false, not, ◌&&◌, ◌||◌, Option, none, some, List, Map, [],
  ◌∷◌, ltb, leb, ◌==◌, nat_eq, string_eq, if◌then◌else◌, lookup, min, take, Result, ok, err, ◌>>=◌,
  ◌>>◌,
}
use guangyue_panel.Commerce.{
  Order, OrderState, pending, provisioning, expired, refunding, Shop, AttemptState, created,
  awaiting_customer, paid, attempt_expired, save_order, same_state,
}
use guangyue_panel.Commerce.Create.{is_open}
use guangyue_panel.Commerce.Cancel.{update_attempt, fail_provisioning}
use guangyue_panel.Commerce.Fulfil.{Server, collected_shop, fulfil_order}

-- What the worker asks of the installation: the server of the fulfilment, and whether the chain of a
-- crypto payment can be used.
pub record Worker : Type 0 where
  pub server : Server
  pub chain_available : Order → Bool

abbrev pub on_expire : AttemptState → AttemptState
on_expire created = attempt_expired
on_expire awaiting_customer = attempt_expired
on_expire a = a

-- A failed transaction leaves the tables as they were.
abbrev pub run : Shop → Result Shop → Shop
run s (ok t) = t
run s (err e) = s

-- An attempt that is missing or already paid does not run out.
abbrev pub may_expire : Order → Shop → Bool
may_expire o s = o.attempt_id == "" || (elim (lookup o.attempt_id s.attempts) [
  | none ↦ false
  | some a ↦ (elim a.state [ paid ↦ false | _ ↦ true ])
])

expire_attempt : Order → Shop → Shop
expire_attempt o s =
    if o.attempt_id == ""
    then s
    else record s { attempts = update_attempt on_expire o.attempt_id s.attempts }

-- The attempt and the order are written in two transactions.
unfoldable pub expire_order : ℕ → Order → Shop → Shop
unfolding expire_attempt
expire_order now o s =
    if o.provider_id == "crypto" || ltb now o.expires || not (may_expire o s)
    then s
    else let t = expire_attempt o s in run t (save_order (record o { state = expired }) pending t)

-- The delay before the next attempt, in seconds.
unfoldable pub retry_delay : ℕ → ℕ
retry_delay attempts = min 60 (2 ^ min attempts 6)

abbrev pub retried : ℕ → Order → Order
retried now row = record row {
  attempts = row.attempts + 1;
  next_attempt = now + retry_delay (row.attempts + 1);
}

-- An order that is still in the state that was read is tried again later.
abbrev pub rescheduled : ℕ → Order → Shop → Option Order → Shop
rescheduled now o s none = s
rescheduled now o s (some row) =
    if same_state row.state o.state then run s (save_order (retried now row) row.state s) else s

unfoldable pub reschedule : ℕ → Order → Shop → Shop
reschedule now o s = rescheduled now o s (lookup o.id s.orders)

unfoldable pub attempt_order : Worker → Order → Shop → Result Shop
attempt_order w o s =
    if same_state o.state provisioning && leb 1800 (w.server.now - o.started)
    then fail_provisioning w.server.transaction o s
    else fulfil_order w.server o s

-- What stays when the attempt fails.
unfoldable pub kept_shop : Worker → Order → Shop → Shop
kept_shop w o s =
    if same_state o.state provisioning && leb 1800 (w.server.now - o.started)
    then s
    else collected_shop w.server o s

unfoldable pub work_order : Worker → Order → Shop → Shop
work_order w o s =
    if ltb w.server.now o.next_attempt
    then s
    else if same_state o.state pending
    then expire_order w.server.now o s
    else if same_state o.state provisioning
        && o.provider_id == "crypto"
        && not (w.chain_available o)
    then s
    else reschedule w.server.now o (run (kept_shop w o s) (attempt_order w o s))

-- ORDER BY created
unfoldable pub insert_by_created : Order → List Order → List Order
insert_by_created o [] = o ∷ []
insert_by_created o (p ∷ ps) =
    let rest = insert_by_created o ps in if leb o.created p.created then o ∷ p ∷ ps else p ∷ rest

unfoldable pub open_orders : Map String Order → List Order
unfolding insert_by_created
open_orders [] = []
open_orders ((id, o) ∷ rows) =
    let rest = open_orders rows in if is_open o.state then insert_by_created o rest else rest

-- The orders are read once, before the first of them is worked on.
unfoldable pub work_orders : Worker → List Order → Shop → Shop
work_orders w [] s = s
work_orders w (o ∷ os) s = work_orders w os (work_order w o s)

unfoldable pub commerce_work : Worker → Shop → Shop
commerce_work w s = work_orders w (take 100 (open_orders s.orders)) s
