-- ===== src/Connect/House/Tickets.antt =====
-- The fields Room and userId of the channels (connect/channel.go): a channel has them from the Put it
-- came with, and no other call changes them.
use yoyichat.Base.{
  ℕ, ◌<◌, ◌≤◌, ap, ◌≡◌, refl, true, false, Option, none, some, arith, ◌==◌, Bool-cases,
  Option-cases, inl, inr, ◌∙◌,
}
use yoyichat.Base.Int.{ℤ, ◌==ℤ◌}
use yoyichat.Base.Assoc.{lookup, int_key}
use yoyichat.Connect.Heap.{Heap, no_room, set_room, set_user, put_room}
use yoyichat.Connect.Bucket.{Bucket, find_room, register, leave_room}
use yoyichat.Connect.Bucket
use yoyichat.Connect.Room
use yoyichat.Connect.Room.{link}
use yoyichat.Connect.Room.Frame.{OnlyRoom, link-OnlyRoom, delete_channel-OnlyRoom}
use yoyichat.Connect.Hall.{Hall, Implements}
use yoyichat.Connect.House.Leaving.{deleted, leave_room_heap}

-- the channels have the rooms and the users that they had, and the rooms their ids
pub record SameSeats (h h' : Heap) : Type 0 where
  pub seat : (c : ℕ) → (h'.channel c).room ≡ (h.channel c).room
  pub user : (c : ℕ) → (h'.channel c).user_id ≡ (h.channel c).user_id
  pub id : (r : ℕ) → r < h.next_room → (h'.room r).id ≡ (h.room r).id
  pub next_room : h.next_room ≤ h'.next_room

SameSeats-refl : {h : Heap} → SameSeats h h
SameSeats-refl = record {
  seat = λ c. refl;
  user = λ c. refl;
  id = λ r low. refl;
  next_room = omega arith;
}

OnlyRoom-SameSeats : {r : ℕ} {h h' : Heap} → OnlyRoom r h h' → SameSeats h h'
OnlyRoom-SameSeats {r} {h} {h'} only = record {
  seat = only.seat;
  user = only.user;
  id = λ q low. elim (Bool-cases (q == r)) [
    | inl same ↦ let qr : q ≡ r = ground arith in rw (qr) only.id
    | inr other ↦ ap (λ room. room.id) (only.others q other)
  ];
  next_room = omega (arith, only.next_room);
}

room_put-SameSeats : (r c : ℕ) (h : Heap) → SameSeats h (Room.put r c h).1
unfolding Room.put
room_put-SameSeats r c h = elim (Bool-cases (h.room r).drop) [
  | inl e ↦ rw (e) SameSeats-refl
  | inr e ↦ rw (e) (OnlyRoom-SameSeats (link-OnlyRoom r c h (h.room r).next))
]

pub find_room-SameSeats : (k : ℤ) (b : Bucket) (h : Heap) → SameSeats h (find_room k b h).2
unfolding find_room put_room
find_room-SameSeats k b h = elim (Option-cases (lookup k b.rooms)) [
  | inl e ↦
      rw (e, find_room)
        record {
          seat = λ c. refl;
          user = λ c. refl;
          id = λ r low. ground arith;
          next_room = omega arith;
        }
  | inr (r, e) ↦ rw (e, find_room) SameSeats-refl
]

-- What `Put` writes: the room and the user of the channel that comes, and of no other.
pub record Seated (n : ℕ) (u k : ℤ) (h h' : Heap) : Type 0 where
  pub user : (h'.channel n).user_id ≡ u
  pub bare : (k ==ℤ no_room) ≡ true → (h'.channel n).room ≡ (h.channel n).room
  pub others_seat : (c : ℕ) → (c == n) ≡ false → (h'.channel c).room ≡ (h.channel c).room
  pub others_user : (c : ℕ) → (c == n) ≡ false → (h'.channel c).user_id ≡ (h.channel c).user_id
  pub id : (r : ℕ) → r < h.next_room → (h'.room r).id ≡ (h.room r).id
  pub next_room : h.next_room ≤ h'.next_room

pub put-Seated : (b : Bucket) (u k : ℤ) (n : ℕ) (h : Heap) → Seated n u k h (Bucket.put b u k n h).2
unfolding Bucket.put register set_user set_room
put-Seated b u k n h = elim (Bool-cases (k ==ℤ no_room)) [
  | inl e ↦ rw (e) record {
    user = ground arith;
    bare = λ t. ground arith;
    others_seat = λ c other. ground arith;
    others_user = λ c other. ground arith;
    id = λ r low. refl;
    next_room = omega arith;
  }
  | inr e ↦
      let r = (find_room k b h).0 in
      let h₁ = (find_room k b h).2 in
      let f = find_room-SameSeats k b h in
      let s = room_put-SameSeats r n (set_user n u (set_room n (some r) h₁)) in
      rw (e) record {
        user = s.user n ∙ ground arith;
        bare = λ t. absurd (ground arith);
        others_seat = λ c other. s.seat c ∙ ground (arith, f.seat c);
        others_user = λ c other. s.user c ∙ ground (arith, f.user c);
        id = λ q low. s.id q (omega (arith, f.next_room)) ∙ f.id q low;
        next_room = omega (arith, f.next_room, s.next_room);
      }
]

pub left-SameSeats :
    (r : Option ℕ) (d : ℕ) (b : Bucket) (h : Heap) → SameSeats h (leave_room r d b h).1
unfolding leave_room
left-SameSeats none d b h = SameSeats-refl
left-SameSeats (some r) d b h =
    rw (leave_room_heap b h d r) (OnlyRoom-SameSeats (delete_channel-OnlyRoom r d h))

pub delete_channel-SameSeats :
    {n : ℕ} {b : Bucket} {h : Heap} {a : Hall} (c : ℕ) (left : Bucket × Heap)
    → Implements n b h a
    → Bucket.delete_channel b c h ≡ some left
    → SameSeats h left.1
delete_channel-SameSeats {n} {b} {h} {a} c left v done = elim (deleted c left v done) [
  | inl (f, same) ↦ rw (same) SameSeats-refl
  | inr (d, f, same) ↦ rw (same) (left-SameSeats (h.channel d).room d _ h)
]
