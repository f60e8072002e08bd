-- ===== src/Platform.antt =====
-- internal/platform/postgres.
pub mod Tracer
pub mod Names
pub mod Migrate
pub mod Pool
