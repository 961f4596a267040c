-- ===== src/Connect/Hall.antt =====
-- What a bucket of connect/bucket.go promises: a hall of rooms, where each room id has the list of the
-- channels that are in it, the newest first, and each user at most one channel. References, links,
-- counts and drop flags are left out.
pub mod Frame
pub mod Opening
pub mod Join
pub mod Place
pub mod Leave
pub mod Newer
pub mod Pushes
pub mod Steps
pub mod Buffers
use yoyichat.Base.{
  ℕ, ◌<◌, ◌≡◌, Bool, true, false, Option, none, some, List, [], ◌∷◌, if◌then◌else◌, ◌==◌,
}
use yoyichat.Base.Int.{ℤ, ◌==ℤ◌}
use yoyichat.Base.Assoc.{lookup, int_key}
use yoyichat.Connect.Heap.{Heap, no_room}
use yoyichat.Connect.Bucket.{Bucket}
use yoyichat.Connect.Room.Chain.{has}
use yoyichat.Connect.Room.Members.{IsRoom}

-- `home` is the room that a channel is in.
pub record Hall : Type 0 where
  pub users : ℤ → Option ℕ
  pub members : ℤ → List ℕ
  pub home : ℕ → Option ℤ

abbrev pub empty : Hall
empty = record { users = λ u. none; members = λ k. []; home = λ c. none }

abbrev pub at_key {ℓ} : {A : Type ℓ} → (ℤ → A) → ℤ → A → ℤ → A
at_key f k v j = if k ==ℤ j then v else f j

abbrev pub without : ℕ → List ℕ → List ℕ
without c [] = []
without c (x ∷ xs) = if c == x then xs else x ∷ without c xs

-- A user comes with a channel; the user's older channel, if any, stays in its room.
abbrev pub join : ℤ → ℤ → ℕ → Hall → Hall
join u k c a = if k ==ℤ no_room then record a { users = at_key a.users u (some c) } else record {
  users = at_key a.users u (some c);
  members = at_key a.members k (c ∷ a.members k);
  home = λ d. if d == c then some k else a.home d;
}

-- The user's channel goes out of its room.
abbrev pub vacate : ℤ → ℕ → Option ℤ → Hall → Hall
vacate u d none a = record a { users = at_key a.users u none }
vacate u d (some k) a = record {
  users = at_key a.users u none;
  members = at_key a.members k (without d (a.members k));
  home = λ c. if c == d then none else a.home c;
}

abbrev pub leave_with : ℤ → Option ℕ → Hall → Hall
leave_with u none a = a
leave_with u (some d) a = vacate u d (a.home d) a

abbrev pub leave : ℤ → Hall → Hall
leave u a = leave_with u (a.users u) a

-- room object `r` is live, and it is the one of id `k`
pub record IsOpen (h : Heap) (k : ℤ) (r : ℕ) (xs : List ℕ) : Type 0 where
  pub id : (h.room r).id ≡ k
  pub live : (h.room r).drop ≡ false
  pub held : IsRoom h r xs
  pub known : r < h.next_room

-- Channel `c` sits in the room of id `k`.
pub record Sits (b : Bucket) (h : Heap) (k : ℤ) (c : ℕ) (xs : List ℕ) : Type 0 where
  pub room : ℕ
  pub open_room : lookup k b.rooms ≡ some room
  pub seat : (h.channel c).room ≡ some room
  pub member : has c xs ≡ true

-- The bucket and its objects implement the hall; channels from `n` on were never used.
pub record Implements (n : ℕ) (b : Bucket) (h : Heap) (a : Hall) : Type 0 where
  pub users : (u : ℤ) → lookup u b.chs ≡ a.users u
  pub owner : (u : ℤ) (c : ℕ) → a.users u ≡ some c → (h.channel c).user_id ≡ u
  pub used : (u : ℤ) (c : ℕ) → a.users u ≡ some c → c < n
  pub rooms : (k : ℤ) (r : ℕ) → lookup k b.rooms ≡ some r → IsOpen h k r (a.members k)
  pub closed : (k : ℤ) → lookup k b.rooms ≡ none → a.members k ≡ []
  pub sits : (c : ℕ) (k : ℤ) → a.home c ≡ some k → Sits b h k c (a.members k)
  pub seated : (c : ℕ) (k : ℤ) → has c (a.members k) ≡ true → a.home c ≡ some k
  pub housed : (c : ℕ) (k : ℤ) → a.home c ≡ some k → c < n
  pub standing : (u : ℤ) (c : ℕ) → a.users u ≡ some c → a.home c ≡ none → (h.channel c).room ≡ none
