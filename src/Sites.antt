-- ===== src/Sites.antt =====
-- Business sites, the child panels of a controller: the types of controlplane/business_types.go that
-- carry state, and the monthly traffic budget of a site.
pub mod Budget
pub mod Grants
pub mod Safety
use guangyue_panel.Prelude.{
  ℕ, ◌+◌, ◌-◌, ◌*◌, ◌/◌, ◌≤◌, String, Bool, true, false, not, ◌&&◌, ◌||◌, Option, none, some, List,
  Map, [], ltb, leb, ◌==◌, nat_eq, if◌then◌else◌, lookup, value_or,
}

pub record BusinessGrant : Type 0 where
  pub period_id : String
  pub budget : ℕ
  pub user_id : ℕ
  pub quota : ℕ

pub record BusinessUsage : Type 0 where
  pub period_id : String
  pub upload_remainder : ℕ
  pub download_remainder : ℕ
  pub metered : Bool
  pub quota_upload : ℕ
  pub quota_download : ℕ
  pub upload : ℕ
  pub download : ℕ
  pub vless : ℕ
  pub hy2 : ℕ

-- What a missing key of the map `Usage` reads as.
abbrev pub no_usage : BusinessUsage
no_usage = record {
  period_id = "";
  upload_remainder = 0;
  download_remainder = 0;
  metered = false;
  quota_upload = 0;
  quota_download = 0;
  upload = 0;
  download = 0;
  vless = 0;
  hy2 = 0;
}

unfoldable pub total : BusinessUsage → ℕ
total v = if v.metered then v.quota_upload + v.quota_download else v.upload + v.download

abbrev pub raw_total : BusinessUsage → ℕ
raw_total v = v.upload + v.download

-- `mounted` and `connected` say whether the code's pointers `Mount` and `Connection` are set, and
-- `protocol` is that of `Info`.
pub record BusinessSite : Type 0 where
  pub id : String
  pub enabled : Bool
  pub removed : Bool
  pub mounted : Bool
  pub connected : Bool
  pub protocol : Option ℕ
  pub rate_rules : Map String ℕ
  pub period_rules : Map String Bool
  pub usage_baseline : Map ℕ BusinessUsage
  pub monthly_budget : ℕ
  pub monthly_usage : ℕ
  pub monthly_budget_period : ℕ
  pub cooldown_seconds : ℕ
  pub budget_cooldown_until : ℕ
  pub grants : List BusinessGrant
  pub sent_grants : List BusinessGrant
  pub revision : String
  pub applied : String
  pub desired : String
  pub usage : Map ℕ BusinessUsage
  pub issued : Map ℕ ℕ
  pub issued_unlimited : Map ℕ Bool

abbrev pub usage_of : BusinessSite → ℕ → BusinessUsage
usage_of v user = value_or no_usage (lookup user v.usage)

abbrev pub issued_to : BusinessSite → ℕ → ℕ
issued_to v user = value_or 0 (lookup user v.issued)

abbrev pub unlimited_for : BusinessSite → ℕ → Bool
unlimited_for v user = value_or false (lookup user v.issued_unlimited)

abbrev pub default_cooldown : ℕ
default_cooldown = 24 * 60 * 60

abbrev pub max_cooldown : ℕ
max_cooldown = 365 * 24 * 60 * 60

-- The calendar month in UTC of a Unix time, as `12 * year + month` of the proleptic calendar; it
-- stands for the text `2006-01` of the code, 0 for the empty text.
unfoldable pub utc_month : ℕ → ℕ
utc_month now =
    let z = now / 86400 + 719468 in
    let era = z / 146097 in
    let day_of_era = z - era * 146097 in
    let year_of_era =
      (day_of_era - day_of_era / 1460 + day_of_era / 36524 - day_of_era / 146096) / 365 in
    let day_of_year = day_of_era - (365 * year_of_era + year_of_era / 4 - year_of_era / 100) in
    let shifted = (5 * day_of_year + 2) / 153 in 12 * (era * 400 + year_of_era) + shifted + 3

abbrev pub valid_cooldown : ℕ → ℕ
valid_cooldown seconds =
    if seconds == 0 || ltb max_cooldown seconds then default_cooldown else seconds

unfoldable pub mark_budget_exhausted : ℕ → BusinessSite → BusinessSite
mark_budget_exhausted now v =
    if v.monthly_budget == 0 || ltb v.monthly_usage v.monthly_budget then v else record v {
      cooldown_seconds = valid_cooldown v.cooldown_seconds;
      budget_cooldown_until = now + valid_cooldown v.cooldown_seconds;
    }

-- A new month, or the end of a cooldown, opens a new window.
roll_window : ℕ → BusinessSite → BusinessSite
roll_window now v =
    if not (v.monthly_budget_period == utc_month now)
      || (ltb 0 v.budget_cooldown_until && leb v.budget_cooldown_until now)
    then record v {
      monthly_budget_period = utc_month now;
      monthly_usage = 0;
      budget_cooldown_until = 0;
    }
    else v

unfoldable pub refresh_monthly_budget : ℕ → BusinessSite → BusinessSite
unfolding roll_window mark_budget_exhausted
refresh_monthly_budget now v =
    let w = roll_window now v in
    let x = record w { cooldown_seconds = valid_cooldown w.cooldown_seconds } in
    if x.budget_cooldown_until == 0
      && ltb 0 x.monthly_budget
      && leb x.monthly_budget x.monthly_usage
    then mark_budget_exhausted now x
    else x

unfoldable pub monthly_budget_available : ℕ → BusinessSite → Bool
monthly_budget_available now v =
    v.monthly_budget == 0
    || (leb v.budget_cooldown_until now && ltb v.monthly_usage v.monthly_budget)
