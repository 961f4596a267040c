-- ===== src/Task.antt =====
-- The task layer (task/*.go): it takes the queued messages and calls the connect layer's instances.
pub mod Params
pub mod Registry
pub mod Push
pub mod Queue
