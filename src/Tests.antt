-- ===== src/Tests.antt =====
-- Concrete inputs on which the theorems are used, one file for each part.
pub mod Sample
pub mod Orders
pub mod Refunds
pub mod Accounts
pub mod Queues
pub mod Payments
pub mod Tickets
pub mod Ingress
pub mod Cached
