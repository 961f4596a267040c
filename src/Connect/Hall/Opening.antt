-- ===== src/Connect/Hall/Opening.antt =====
-- The room lookup of Bucket.Put of connect/bucket.go: a room that is made for it is an empty one.
use yoyichat.Base.{ℕ, suc, ◌≡◌, refl, none, some, List, [], arith, Option-cases, inl, inr}
use yoyichat.Base.Int.{ℤ, ==ℤ_iff}
use yoyichat.Base.Assoc.{
  lookup, insert, lookup-insert, lookup-insert_self, lookup-insert_hit, lookup-insert_miss, int_key,
}
use yoyichat.Connect.Heap.{Heap, new_room, put_room}
use yoyichat.Connect.Bucket.{Bucket, find_room}
use yoyichat.Connect.Room.Frame.{IsRoom-frame}
use yoyichat.Connect.Hall.{Hall, IsOpen, Implements}

-- a bucket that implements the hall, and the room object of an id in it
pub record Finds (n : ℕ) (k : ℤ) (a : Hall) (h : Heap) (found : ℕ × Bucket × Heap) : Type 0 where
  pub implements : Implements n found.1 found.2 a
  pub room_of : lookup k found.1.rooms ≡ some found.0
  pub channels : found.2.channel ≡ h.channel

module _ (n : ℕ) (b : Bucket) (h : Heap) (a : Hall) (k : ℤ) (v : Implements n b h a) where
  abbrev with_room : Bucket
  with_room = record b { rooms = insert k h.next_room b.rooms }

  abbrev room_added : Heap
  room_added = record (put_room h.next_room (new_room k) h) { next_room = suc h.next_room }

  added_new : IsOpen room_added k h.next_room []
  unfolding put_room new_room
  added_new = record {
    id = ground arith;
    live = ground arith;
    held = record {
      first = ground arith;
      chain = tt;
      distinct = tt;
      count = ground arith;
      dropped = λ e. refl;
    };
    known = ground arith;
  }

  added_old : (j : ℤ) (r : ℕ) (xs : List ℕ) → IsOpen h j r xs → IsOpen room_added j r xs
  unfolding put_room
  added_old j r xs o =
      let same : room_added.room r ≡ h.room r = ground (arith, o.known) in
      record {
        id = rw (same) o.id;
        live = rw (same) o.live;
        held = IsRoom-frame h room_added r xs same (λ c m. (refl, refl)) o.held;
        known = ground (arith, o.known);
      }

  added_IsOpen :
      lookup k b.rooms ≡ none
      → (j : ℤ) (r : ℕ) → lookup j with_room.rooms ≡ some r
      → IsOpen room_added j r (a.members j)
  added_IsOpen new j r e = elim (lookup-insert_hit k j h.next_room r b.rooms e) [
    | inl (same, here) ↦ rw (← (==ℤ_iff k j).0 same, ← here, v.closed k new) added_new
    | inr (other, old) ↦ added_old j r (a.members j) (v.rooms j r old)
  ]

  added_Implements : lookup k b.rooms ≡ none → Implements n with_room room_added a
  unfolding put_room
  added_Implements new = record {
    users = v.users;
    owner = v.owner;
    used = v.used;
    rooms = added_IsOpen new;
    closed = λ j e. v.closed j (lookup-insert_miss k j h.next_room b.rooms e).1;
    sits = λ c j e.
        let p = v.sits c j e in
        record {
          room = p.room;
          open_room = rw (lookup-insert) (ground (arith, p.open_room, new, ==ℤ_iff k j));
          seat = p.seat;
          member = p.member;
        };
    seated = v.seated;
    housed = v.housed;
    standing = v.standing;
  }

  pub find_room-Finds : Finds n k a h (find_room k b h)
  unfolding find_room put_room
  find_room-Finds = elim (Option-cases (lookup k b.rooms)) [
    | inl e ↦
        rw (e, find_room)
          record {
            implements = added_Implements e;
            room_of = lookup-insert_self k h.next_room b.rooms;
            channels = refl;
          }
    | inr (r, e) ↦ rw (e, find_room) record { implements = v; room_of = e; channels = refl }
  ]
