-- ===== src/Examples.antt =====
-- The theorems at concrete inputs, by the layer that they speak of.
mod Frames
mod Rooms
mod Tasks
mod Sessions
mod Visitors
mod Doors
mod Halls
mod Houses
mod Journeys
mod Screens
