-- ===== src/Tests.antt =====
-- Concrete decimals and UUIDs, runs of the code on small inputs, and the theorems at such inputs.
mod Externals
mod Runs
mod Text
mod Witnesses
mod Statuses
mod Refused
mod Contended
mod Labels
mod Startup
mod Openings
mod Requests
mod Served
mod Remembered
mod Audits
mod Decided
mod Schemas
