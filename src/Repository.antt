-- ===== src/Repository.antt =====
-- internal/repository: the two repositories.
pub mod Postgres
pub mod Cache
