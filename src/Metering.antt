-- ===== src/Metering.antt =====
-- `Store.account` of controlplane/usage_meter.go: the counters that the proxy cores report are turned
-- into traffic of the accounts, each byte once. The rate of a node for an account, which the code
-- reads from the policies of nodes and plans, is an argument; the hourly history is not modelled.
pub mod Proofs
use guangyue_panel.Prelude.{
  ℕ, ◌+◌, ◌-◌, String, Bool, true, false, not, ◌&&◌, ◌||◌, Option, none, some, List, Map, [], ◌∷◌,
  ltb, leb, ◌==◌, nat_eq, string_eq, if◌then◌else◌, lookup, insert, value_or, pos, Result, ok, err,
  guard, ◌>>=◌, ◌>>◌, invalid_counter,
}
use guangyue_panel.Domain.Account.{User, QuotaMeter, init_meter}
use guangyue_panel.Domain.Counters.{counter_limit, weighted_bytes, add_counter}

-- Any other text is `unknown`.
pub data Direction : Type 0 where
  up down unknown_direction : Direction

pub data Protocol : Type 0 where
  vless hy2 unknown_protocol : Protocol

pub record Counter : Type 0 where
  pub key : String
  pub generation : String
  pub protocol : Protocol
  pub direction : Direction
  pub node_id : String
  pub user_id : ℕ
  pub value : ℕ

-- One row of the traffic of nodes: its key and its totals.
pub record NodeUsage : Type 0 where
  pub user_id : ℕ
  pub node_id : String
  pub period_id : String
  pub rate_revision : String
  pub rate_milli : ℕ
  pub upload : ℕ
  pub download : ℕ

pub record Books : Type 0 where
  pub users : Map ℕ User
  pub checkpoints : Map String (String × ℕ)
  pub node_usage : List NodeUsage

-- The policy that an account has at a node, in thousandths, and the revision of it.
abbrev pub Policies : Type 0
Policies = User → String → ℕ × String

abbrev pub no_checkpoint : String × ℕ
no_checkpoint = ("", 0)

abbrev pub is_valid : Counter → Bool
is_valid c =
    not (c.user_id == 0)
    && not (ltb counter_limit c.value)
    && (elim c.direction [ unknown_direction ↦ false | _ ↦ true ])
    && (elim c.protocol [ unknown_protocol ↦ false | _ ↦ true ])

-- What a counter has grown by. A new generation, or a value below the last one, is a restart.
unfoldable pub delta_of : Counter → Books → ℕ
delta_of c b =
    let last = value_or no_checkpoint (lookup c.key b.checkpoints) in
    if last.0 == c.generation && leb last.1 c.value then c.value - last.1 else c.value

abbrev pub node_of : Counter → String
node_of c =
    if c.node_id == ""
    then (elim c.protocol [ vless ↦ "vless-main" | hy2 ↦ "hy2-main" | unknown_protocol ↦ "-main" ])
    else c.node_id

-- The traffic of one counter on an account and on its meter.
charge_up : ℕ → ℕ → User → QuotaMeter → Result User
charge_up delta rate u m = do
  (cost, residue) ← weighted_bytes (pos delta) (pos rate) (pos m.upload_remainder)
  raw ← add_counter (pos u.upload) (pos delta)
  weighted ← add_counter (pos m.upload) (pos cost)
  ok (record u {
    upload = raw;
    meter = some (record m { upload = weighted; upload_remainder = residue });
  })

charge_down : ℕ → ℕ → User → QuotaMeter → Result User
charge_down delta rate u m = do
  (cost, residue) ← weighted_bytes (pos delta) (pos rate) (pos m.download_remainder)
  raw ← add_counter (pos u.download) (pos delta)
  weighted ← add_counter (pos m.download) (pos cost)
  ok (record u {
    download = raw;
    meter = some (record m { download = weighted; download_remainder = residue });
  })

charge_protocol : Protocol → ℕ → User → Result User
charge_protocol vless delta u = do
  n ← add_counter (pos u.vless_traffic) (pos delta)
  ok (record u { vless_traffic = n })
charge_protocol hy2 delta u = do
  n ← add_counter (pos u.hy2_traffic) (pos delta)
  ok (record u { hy2_traffic = n })
charge_protocol unknown_protocol delta u = err invalid_counter

charge_direction : Direction → ℕ → ℕ → User → QuotaMeter → Result User
charge_direction up delta rate u m = charge_up delta rate u m
charge_direction down delta rate u m = charge_down delta rate u m
charge_direction unknown_direction delta rate u m = err invalid_counter

-- An account without a meter is given one first, so the first branch is not taken.
pub charge_with : Counter → ℕ → ℕ → User → Option QuotaMeter → Result User
unfolding charge_up charge_down charge_protocol charge_direction
charge_with c delta rate u none = ok u
charge_with c delta rate u (some m) = do
  v ← charge_direction c.direction delta rate u m
  charge_protocol c.protocol delta v

unfoldable pub charge_user : Counter → ℕ → ℕ → User → Result User
unfolding charge_with
charge_user c delta rate u = charge_with c delta rate u u.meter

abbrev pub added : Counter → ℕ → NodeUsage → NodeUsage
added c delta row = record row {
  upload = row.upload + (elim c.direction [ up ↦ delta | _ ↦ 0 ]);
  download = row.download + (elim c.direction [ down ↦ delta | _ ↦ 0 ]);
}

-- INSERT ... ON CONFLICT DO UPDATE: the row of the user, node, period and rate revision grows.
unfoldable pub add_usage : Counter → ℕ → NodeUsage → List NodeUsage → List NodeUsage
add_usage c delta row [] = added c delta row ∷ []
add_usage c delta row (r ∷ rs) =
    let rest = add_usage c delta row rs in
    if r.user_id == row.user_id
      && r.node_id == row.node_id
      && r.period_id == row.period_id
      && r.rate_revision == row.rate_revision
    then added c delta r ∷ rs
    else r ∷ rest

abbrev pub period_of : Option QuotaMeter → String
period_of none = ""
period_of (some m) = m.period_id

usage_row : Counter → ℕ × String → User → NodeUsage
usage_row c policy u = record {
  user_id = c.user_id;
  node_id = node_of c;
  period_id = period_of u.meter;
  rate_revision = policy.1;
  rate_milli = policy.0;
  upload = 0;
  download = 0;
}

-- The counter's checkpoint moves even if nothing is charged, also for an account that is gone.
unfoldable pub step_counter : Policies → String → ℕ → Counter → Books → Result Books
unfolding init_meter usage_row
step_counter policies period now c b = do
  guard (is_valid c) invalid_counter
  let delta = delta_of c b
  let checkpoints = insert c.key (c.generation, c.value) b.checkpoints
  elim (lookup c.user_id b.users) [
    | none ↦ ok (record b { checkpoints = checkpoints })
    | some row ↦ if delta == 0 then ok (record b { checkpoints = checkpoints }) else (do
      let u = init_meter period now row
      let policy = policies u (node_of c)
      v ← charge_user c delta policy.0 u
      ok (record b {
        users = insert c.user_id v b.users;
        checkpoints = checkpoints;
        node_usage = add_usage c delta (usage_row c policy u) b.node_usage;
      }))
  ]

-- One transaction for all counters of a report.
unfoldable pub account : Policies → String → ℕ → List Counter → Books → Result Books
account policies period now [] b = ok b
account policies period now (c ∷ cs) b = do
  b' ← step_counter policies period now c b
  account policies period now cs b'
