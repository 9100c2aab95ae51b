-- ===== src/Wire/Mysql.antt =====
-- internal/wire/mysql/mysql.go.
pub mod Packet
pub mod LenEnc
pub mod Rows
pub mod Results
pub mod Handshake
pub mod Commands
pub mod Relay
pub mod Auth
