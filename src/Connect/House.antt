-- ===== src/Connect/House.antt =====
-- What a server of connect/server.go promises: a house of halls, one for each bucket. A user comes to
-- the hall of its own bucket, and a connection that ends is told by the ticket it came with.
pub mod Others
pub mod Leaving
pub mod Floors
pub mod Tickets
pub mod Steps
pub mod Stands
pub mod Moves
pub mod Calls
pub mod Routines
pub mod Pushes
pub mod Runs
pub mod Presence
pub mod Arrival
pub mod Service
pub mod Broadcasts
use yoyichat.Base.{ℕ, ◌≡◌, false, Option, none, some, if◌then◌else◌, ◌==◌}
use yoyichat.Base.Int.{ℤ, ◌==ℤ◌}
use yoyichat.Base.Assoc.{lookup, int_key}
use yoyichat.Connect.Heap.{no_room}
use yoyichat.Connect.Bucket.{Bucket}
use yoyichat.Connect.Hall.{Hall, empty, join, leave}

-- `tickets` has the user and the room id that a channel came with.
pub record House : Type 0 where
  pub halls : ℕ → Hall
  pub tickets : ℕ → Option (ℤ × ℤ)

abbrev pub empty_house : House
empty_house = record { halls = λ i. empty; tickets = λ c. none }

abbrev pub in_hall : ℕ → (Hall → Hall) → (ℕ → Hall) → ℕ → Hall
in_hall i f halls j = if j == i then f (halls j) else halls j

-- a user comes to a room with a channel, for the bucket index of each user
abbrev pub arrive : (ℤ → ℕ) → ℤ → ℤ → ℕ → House → House
arrive idx u k c a = record {
  halls = in_hall (idx u) (join u k c) a.halls;
  tickets = λ d. if d == c then some (u, k) else a.tickets d;
}

-- The connection of a channel ends. One that came to no room takes nobody along.
abbrev pub depart_with : (ℤ → ℕ) → Option (ℤ × ℤ) → House → House
depart_with idx none a = a
depart_with idx (some (u, k)) a =
    if k ==ℤ no_room then a else record a { halls = in_hall (idx u) (leave u) a.halls }

abbrev pub depart : (ℤ → ℕ) → ℕ → House → House
depart idx c a = depart_with idx (a.tickets c) a

-- Two buckets have no room object in common, and no channel is in rooms of both.
pub record Apart (b : Bucket) (a : Hall) (b' : Bucket) (a' : Hall) : Type 0 where
  pub rooms :
      (k j : ℤ) (r q : ℕ)
      → lookup k b.rooms ≡ some r
      → lookup j b'.rooms ≡ some q
      → (q == r) ≡ false
  pub homes : (c : ℕ) (k j : ℤ) → a.home c ≡ some k → a'.home c ≡ some j → ⊥
