-- ===== src/Audit.antt =====
-- What the logs say of the accounts: the sums that the README's audit queries compare, and the
-- invariant of the stored data.
pub mod Sums
pub mod Soundness
pub mod Script
