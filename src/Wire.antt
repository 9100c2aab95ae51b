-- ===== src/Wire.antt =====
-- internal/wire: one engine for each database protocol.
pub mod Credential
pub mod Postgres
pub mod Mongo
pub mod Mysql
