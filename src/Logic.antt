-- ===== src/Logic.antt =====
-- The logic layer (logic/*.go, logic/dao/user.go): accounts, sessions and rooms, kept in Redis and in
-- the user database, and the messages that are queued for the task layer.
pub mod Redis
pub mod Keys
pub mod Users
pub mod Publish
pub mod Session
pub mod Rooms
