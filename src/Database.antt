-- ===== src/Database.antt =====
-- migrations/0001_init.up.sql: the tables, and the database as one transaction sees it. A NUMERIC(38,
-- 18) column holds a number of units of 10^-18. The logs stand newest row first.
mod Rows
pub mod Schema
pub mod Statements
pub mod Accounts
pub mod Effects
pub mod Progress
pub use Rows.*
