-- ===== src/Journey.antt =====
-- The way of a message through the layers: from the call of the logic layer (logic/rpc.go), through the
-- Redis queue and the task layer (task/queue.go, task/push.go, task/rpc.go), to the call of a connect
-- instance (connect/rpc.go) and the channel of the user.
pub mod Single
pub mod Whole
pub mod Calls
pub mod Post
