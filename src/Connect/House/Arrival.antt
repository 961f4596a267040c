-- ===== src/Connect/House/Arrival.antt =====
-- Where a channel is when its connect request has been served (connect/server.go, connect/bucket.go).
use yoyichat.Base.{
  ℕ, suc, ◌≡◌, refl, Bool, true, false, some, none, head?, arith, ==_refl, get_elem?, ◌∙◌,
}
use yoyichat.Base.Int.{ℤ, ◌==ℤ◌, ==ℤ_refl}
use yoyichat.Base.Assoc.{int_key}
use yoyichat.Connect.Heap.{Heap, no_room}
use yoyichat.Connect.Bucket.{Bucket, BucketOptions, channel, room}
use yoyichat.Connect.Server.{Server}
use yoyichat.Connect.Hall.{Hall, Implements, join}
use yoyichat.Connect.House.{House, arrive, in_hall}
use yoyichat.Connect.House.Stands.{Stands}

-- With the room id -1 a channel takes no room; else it heads the room that the bucket has for the id.
abbrev pub TakesSeat : Bool → ℤ → ℕ → Bucket → Heap → Type 0
TakesSeat true k c b h = (h.channel c).room ≡ none
TakesSeat false k c b h =
    (r : ℕ) × ((h.channel c).room ≡ some r) × (room b k ≡ some r) × ((h.room r).next ≡ some c)

-- the bucket has the channel for the user, which knows its user and its room
pub record IsIn (u k : ℤ) (c : ℕ) (b : Bucket) (h : Heap) : Type 0 where
  pub mapped : channel b u ≡ some c
  pub user : (h.channel c).user_id ≡ u
  pub seat : TakesSeat (k ==ℤ no_room) k c b h

module _ (idx : ℤ → ℕ) {more : ℕ} {o : BucketOptions} {n : ℕ} {s : Server} {h : Heap} (a : House)
    (u k : ℤ) (v : Stands more o (suc n) s h (arrive idx u k n a)) where
  own_hall : in_hall (idx u) (join u k n) a.halls (idx u) ≡ join u k n (a.halls (idx u))
  own_hall = rw (==_refl (idx u)) refl

  ticket : (arrive idx u k n a).tickets n ≡ some (u, k)
  ticket = rw (==_refl n) refl

  joined_user : (b : Hall) → (join u k n b).users u ≡ some n
  joined_user b = ground (arith, ==ℤ_refl u)

  joined_home : (b : Hall) → (k ==ℤ no_room) ≡ false → (join u k n b).home n ≡ some k
  joined_home b e = ground (arith, e)

  joined_first : (b : Hall) → (k ==ℤ no_room) ≡ false → head? ((join u k n b).members k) ≡ some n
  joined_first b e = ground (arith, e, ==ℤ_refl k)

  takes_seat :
      (b : Bucket) (same : Bool)
      → (k ==ℤ no_room) ≡ same
      → Implements (suc n) b h (join u k n (a.halls (idx u)))
      → TakesSeat same k n b h
  unfolding room
  takes_seat b true e f = (v.ticket n u k ticket).bare e
  takes_seat b false e f =
      let p = f.sits n k (joined_home (a.halls (idx u)) e) in
      (
        p.room,
        p.seat,
        p.open_room,
        (f.rooms k p.room p.open_room).held.first ∙ joined_first (a.halls (idx u)) e,
      )

  -- A channel that has just come is in the own bucket of its user, at the head of its room.
  pub arrive-IsIn : (b : Bucket) → get_elem? s.buckets (idx u) ≡ some b → IsIn u k n b h
  unfolding channel
  arrive-IsIn b at =
      let f : Implements (suc n) b h (join u k n (a.halls (idx u))) =
        rw (← own_hall) (v.floors.floor (idx u) b at) in
      record {
        mapped = f.users u ∙ joined_user (a.halls (idx u));
        user = (v.ticket n u k ticket).user;
        seat = takes_seat b (k ==ℤ no_room) refl f;
      }
