-- ===== src/Domain/Account.antt =====
-- domain/account.go and the records and meters of domain/entitlement.go. Times are Unix seconds;
-- counters, quotas and times are not negative. `time.Now()` is the argument `now`.
use guangyue_panel.Prelude.{
  ℕ, ◌+◌, ◌-◌, ◌≡◌, String, Bool, true, false, not, ◌&&◌, ◌||◌, Option, none, some, List, Map,
  arith, ltb, ◌==◌, nat_eq,
}

pub record MountAccess : Type 0 where
  pub token_id : String
  pub master_id : String
  pub user_id : ℕ
  pub node_ids : List String
  pub lease_until : ℕ
  pub revision : ℕ
  pub generation : String

pub record QuotaMeter : Type 0 where
  pub initial_upload : ℕ
  pub initial_download : ℕ
  pub period_id : String
  pub start : ℕ
  pub ends : ℕ
  pub pending_reset : Bool
  pub upload : ℕ
  pub download : ℕ
  pub upload_remainder : ℕ
  pub download_remainder : ℕ
  pub base_upload : ℕ
  pub base_download : ℕ
  pub raw_base_upload : ℕ
  pub raw_base_download : ℕ

pub record Entitlement : Type 0 where
  pub plan_id : String
  pub order_id : String
  pub renewal_order_id : String
  pub version : ℕ
  pub name : String
  pub group_ids : List String
  pub node_ids : List String
  pub node_rates : Map String ℕ
  pub cycle : String
  pub timezone : String
  pub assigned_at : ℕ
  pub revision : String

pub record PlanSlot : Type 0 where
  pub entitlement : Option Entitlement
  pub order_id : String
  pub renewal_order_id : String
  pub node_rates : Map String ℕ
  pub quota : ℕ
  pub expires : ℕ
  pub paused_at : ℕ
  pub vless : Bool
  pub hy2 : Bool
  pub meter : Option QuotaMeter

pub record User : Type 0 where
  pub node_group_ids : Option (List String)
  pub mount : Option MountAccess
  pub archived : Bool
  pub id : ℕ
  pub username : String
  pub role : String
  pub enabled : Bool
  pub vless : Bool
  pub hy2 : Bool
  pub expires : ℕ
  pub quota : ℕ
  pub upload : ℕ
  pub download : ℕ
  pub vless_traffic : ℕ
  pub hy2_traffic : ℕ
  pub created : ℕ
  pub last_sub : ℕ
  pub compiled_groups : Option (List String)
  pub meter : Option QuotaMeter
  pub entitlement : Option Entitlement
  pub plan_queue : List PlanSlot

-- `max(0, a - b)` of Go is subtraction on ℕ.
unfoldable pub quota_upload : User → ℕ
quota_upload u = elim u.meter [ none ↦ u.upload | some m ↦ m.upload - m.base_upload ]

unfoldable pub quota_download : User → ℕ
quota_download u = elim u.meter [ none ↦ u.download | some m ↦ m.download - m.base_download ]

unfoldable pub quota_used : User → ℕ
unfolding quota_upload quota_download
quota_used u = quota_upload u + quota_download u

abbrev mount_leased : ℕ → Option MountAccess → Bool
mount_leased now none = true
mount_leased now (some m) = ltb now m.lease_until

abbrev meter_open : ℕ → Option QuotaMeter → Bool
meter_open now none = true
meter_open now (some m) = not m.pending_reset && (m.ends == 0 || ltb now m.ends)

unfoldable pub active : ℕ → User → Bool
active now u =
    u.enabled
    && mount_leased now u.mount
    && (u.expires == 0 || ltb now u.expires)
    && meter_open now u.meter
    && (u.quota == 0 || ltb (quota_used u) u.quota)

-- `InitMeter` leaves a meter that is there as it is.
unfoldable pub init_meter : String → ℕ → User → User
init_meter period now u = elim u.meter [
  | some m ↦ u
  | none ↦ record u {
    meter = some (record {
      initial_upload = u.upload;
      initial_download = u.download;
      period_id = period;
      start = now;
      ends = 0;
      pending_reset = false;
      upload = u.upload;
      download = u.download;
      upload_remainder = 0;
      download_remainder = 0;
      base_upload = 0;
      base_download = 0;
      raw_base_upload = 0;
      raw_base_download = 0;
    });
  }
]

-- Starting a meter changes neither the quota that counts as used nor who may connect.
init_meter_keeps_access :
    (period : String) (start now : ℕ) (u : User)
    → (quota_used (init_meter period start u) ≡ quota_used u)
      × (active now (init_meter period start u) ≡ active now u)
unfolding init_meter active quota_used
init_meter_keeps_access period start now u = ground arith
