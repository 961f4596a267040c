-- ===== src/Connect.antt =====
-- The connect layer (connect/*.go): channels, rooms, buckets and the server that keep the live
-- connections, and the pushes into them.
pub mod Heap
pub mod Room
pub mod Bucket
pub mod Hall
pub mod House
pub mod Server
pub mod Races
pub mod Write
pub mod Listen
pub mod Operator
