-- ===== src/Repository.antt =====
-- internal/repository: the queries of accounts and transfers, the transaction helper, and the
-- mapping of server errors.
pub mod Errors
pub mod GoMap
pub mod Tx
pub mod Accounts
pub mod Transfers
