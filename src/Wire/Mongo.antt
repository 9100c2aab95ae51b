-- ===== src/Wire/Mongo.antt =====
-- internal/wire/mongo.
pub mod Bson
pub mod Message
pub mod Server
