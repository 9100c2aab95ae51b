-- ===== src/Wire/Postgres.antt =====
-- internal/wire/postgres/postgres.go.
pub mod Rows
pub mod Backend
pub mod Startup
pub mod UpstreamTls
pub mod Auth
pub mod Scram
pub mod Login
