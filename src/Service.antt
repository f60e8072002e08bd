-- ===== src/Service.antt =====
-- internal/service: validation of amounts and ids, accounts, and transfers.
pub mod Money
pub mod Accounts
pub mod Transfers
pub mod Drift
