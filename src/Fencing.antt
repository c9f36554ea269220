-- ===== src/Fencing.antt =====
-- api/cmd/api/db_fencing.go: what keeps two owners of the archive of a database apart. The tables of
-- Postgres are state, and each SQL statement is a function on them.
pub mod Generations
pub mod Leases
pub mod Breaker
pub mod Wal
pub mod Gaps
pub mod Partials
pub mod Survivors
pub mod Examples
