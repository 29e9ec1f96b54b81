-- ===== src/Domain.antt =====
-- backend/internal/domain: accounts, entitlements, quota meters and byte counters.
pub mod Counters
pub mod Periods
pub mod Account
