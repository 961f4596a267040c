-- ===== src/Connect/Hall/Leave.antt =====
-- Bucket.DeleteChannel of connect/bucket.go as the `leave` of a hall.
use yoyichat.Base.{
  ℕ, ◌≡◌, refl, true, false, none, some, List, [], arith, ◌==◌, if◌then◌else◌, is_empty, Bool-cases,
  Option-cases, inl, inr, ◌⊎◌, ◌∙◌, ap, sym,
}
use yoyichat.Base.Int.{ℤ, ◌==ℤ◌, ==ℤ_iff}
use yoyichat.Base.Assoc.{Assoc, lookup, delete, lookup-delete, lookup-delete_self, int_key}
use yoyichat.Connect.Heap.{Heap}
use yoyichat.Connect.Bucket.{Bucket, leave_room, delete_found}
use yoyichat.Connect.Bucket
use yoyichat.Connect.Room
use yoyichat.Connect.Room.Chain.{has}
use yoyichat.Connect.Room.Members.{IsRoom}
use yoyichat.Connect.Room.Removal.{empty_of_none}
use yoyichat.Connect.Room.Frame.{
  IsRoom-frame, OnlyRoom, delete_channel-OnlyRoom, delete_channel_links, delete_channel_drop,
}
use yoyichat.Connect.Hall.{Hall, at_key, without, vacate, leave, IsOpen, Sits, Implements}
use yoyichat.Connect.Hall.Place.{has-without, apart_links, delete_member}
use yoyichat.Connect.Hall.Frame.{lists_apart, rooms_apart}

module _ (n : ℕ) (b : Bucket) (h : Heap) (a : Hall) (u k : ℤ) (d r : ℕ) (v : Implements n b h a)
    (owned : a.users u ≡ some d) (found : lookup k b.rooms ≡ some r)
    (member : has d (a.members k) ≡ true) where
  abbrev h' : Heap
  h' = (Room.delete_channel r d h).1

  abbrev rest : List ℕ
  rest = without d (a.members k)

  o : IsOpen h k r (a.members k)
  o = v.rooms k r found

  only : OnlyRoom r h h'
  only = delete_channel-OnlyRoom r d h

  left : ((Room.delete_channel r d h).0 ≡ is_empty rest) × IsRoom h' r rest
  left = delete_member h r d (a.members k) o.held member

  left_others :
      (j : ℤ) (q : ℕ) → (k ==ℤ j) ≡ false → lookup j b.rooms ≡ some q → IsOpen h' j q (a.members j)
  left_others j q ne e =
      let p = v.rooms j q e in
      let same = only.others q (rooms_apart v k j r q ne found e) in
      record {
        id = rw (same) p.id;
        live = rw (same) p.live;
        held =
            IsRoom-frame h h' q (a.members j) same
              (λ c m.
                let (i, i') =
                  apart_links h r d c (a.members k) o.held member (lists_apart v k j c ne m) in
                delete_channel_links r d h c i i')
              p.held;
        known = rw (only.next_room) p.known;
      }

  -- for the map of the rooms after it, which may have lost the room, if that is empty
  module _ (rooms : Assoc ℤ ℕ)
      (off : (j : ℤ) → (k ==ℤ j) ≡ false → lookup j rooms ≡ lookup j b.rooms)
      (at : ((lookup k rooms ≡ some r) × ((h'.room r).drop ≡ false))
        ⊎ ((lookup k rooms ≡ none) × (rest ≡ []))) where
    abbrev b' : Bucket
    b' = record b { chs = delete u b.chs; rooms = rooms }

    left_rooms :
        (j : ℤ) (q : ℕ) → lookup j rooms ≡ some q → IsOpen h' j q (at_key a.members k rest j)
    left_rooms j q e = elim (Bool-cases (k ==ℤ j)) [
      | inl same ↦
          let kj = (==ℤ_iff k j).0 same in
          elim at [
            | inl (here, live) ↦
                let rq : r ≡ q = ground (arith, kj) in
                rw (same, ← kj, ← rq)
                  record {
                    id = only.id ∙ o.id;
                    live = live;
                    held = left.1;
                    known = rw (only.next_room) o.known;
                  }
            | inr (gone, bare) ↦ absurd (ground (arith, kj))
          ]
      | inr other ↦ rw (other) (left_others j q other (sym (off j other) ∙ e))
    ]

    left_closed : (j : ℤ) → lookup j rooms ≡ none → at_key a.members k rest j ≡ []
    left_closed j e = elim (Bool-cases (k ==ℤ j)) [
      | inl same ↦
          let kj = (==ℤ_iff k j).0 same in
          elim at [
            | inl (here, live) ↦ absurd (ground (arith, kj))
            | inr (gone, bare) ↦ rw (same) bare
          ]
      | inr other ↦ rw (other) (v.closed j (sym (off j other) ∙ e))
    ]

    left-Sits :
        (c : ℕ) (j : ℤ)
        → (if c == d then none else a.home c) ≡ some j
        → Sits b' h' j c (at_key a.members k rest j)
    left-Sits c j e =
        let home : a.home c ≡ some j = ground arith in
        let away : (c == d) ≡ false = ground arith in
        let p = v.sits c j home in
        let stays = has-without c d (a.members k) o.held.distinct in
        record {
          room = p.room;
          open_room = elim (Bool-cases (k ==ℤ j)) [
            | inl same ↦
                let kj = (==ℤ_iff k j).0 same in
                elim at [
                  | inl (here, live) ↦ ground (arith, kj, p.open_room)
                  | inr (gone, bare) ↦
                      absurd (ground (arith, kj, p.member, stays, ap (λ xs. has c xs) bare))
                ]
            | inr other ↦ off j other ∙ p.open_room
          ];
          seat = only.seat c ∙ p.seat;
          member = ground (arith, p.member, stays, ==ℤ_iff k j);
        }

    vacated-Implements : Implements n b' h' (vacate u d (some k) a)
    vacated-Implements = record {
      users = λ j. rw (lookup-delete, v.users j) refl;
      owner = λ j c e. only.user c ∙ v.owner j c (ground arith);
      used = λ j c e. v.used j c (ground arith);
      rooms = left_rooms;
      closed = left_closed;
      sits = left-Sits;
      seated = λ c j m. ground (
        arith,
        v.seated c j,
        v.seated d j,
        v.seated d k,
        v.seated c k,
        ==ℤ_iff k j,
        has-without c d (a.members k) o.held.distinct,
      );
      housed = λ c j e. v.housed c j (ground arith);
      standing = λ j c e away.
          only.seat c
          ∙ v.standing j c (ground arith) (ground (arith, v.owner j c, v.owner u d, ==ℤ_iff u j));
    }

  leave_room-Implements :
      let (b₂, h₂) = leave_room (some r) d (record b { chs = delete u b.chs }) h in
      Implements n b₂ h₂ (vacate u d (some k) a)
  unfolding leave_room
  leave_room-Implements =
      let id_k : (h'.room r).id ≡ k = only.id ∙ o.id in
      elim (Bool-cases (is_empty rest)) [
        | inl e ↦
            rw (delete_channel_drop r d h, left.0, e, id_k)
              (vacated-Implements (delete k b.rooms) (λ j other. rw (lookup-delete, other))
                (inr (lookup-delete_self k b.rooms, empty_of_none rest e)))
        | inr e ↦
            rw (delete_channel_drop r d h, left.0, e)
              (vacated-Implements b.rooms (λ j other. refl)
                (inl (found, delete_channel_drop r d h ∙ left.0 ∙ e)))
      ]

-- the channel of a user that is in no room
module _ (n : ℕ) (b : Bucket) (h : Heap) (a : Hall) (u : ℤ) (d : ℕ) (v : Implements n b h a)
    (owned : a.users u ≡ some d) (away : a.home d ≡ none) where
  homeless-Implements : Implements n (record b { chs = delete u b.chs }) h (vacate u d none a)
  homeless-Implements = record {
    users = λ j. rw (lookup-delete, v.users j) refl;
    owner = λ j c e. v.owner j c (ground arith);
    used = λ j c e. v.used j c (ground arith);
    rooms = v.rooms;
    closed = v.closed;
    sits = λ c j e.
        let p = v.sits c j e in
        record { room = p.room; open_room = p.open_room; seat = p.seat; member = p.member };
    seated = v.seated;
    housed = v.housed;
    standing = λ j c e bare. v.standing j c (ground arith) bare;
  }

pub delete_found_at :
    (b : Bucket) (d : ℕ) (h : Heap) (u : ℤ)
    → (h.channel d).user_id ≡ u
    → lookup u b.chs ≡ some d
    → delete_found b d h
      ≡ some (leave_room (h.channel d).room d (record b { chs = delete u b.chs }) h)
unfolding delete_found
delete_found_at b d h u e f =
    let f' : lookup (h.channel d).user_id b.chs ≡ some d = rw (e) f in
    rw (← e) (rw (f', delete_found) refl)

-- for the channel `d` that the bucket has for the user
found-Implements :
    (n : ℕ) (b : Bucket) (h : Heap) (a : Hall) (u : ℤ) (d : ℕ)
    → Implements n b h a
    → a.users u ≡ some d
    → (left : Bucket × Heap) × (delete_found b d h ≡ some left)
      × Implements n left.0 left.1 (vacate u d (a.home d) a)
unfolding leave_room
found-Implements n b h a u d v owned = elim (Option-cases (a.home d)) [
  | inl away ↦ (
    (record b { chs = delete u b.chs }, h),
    delete_found_at b d h u (v.owner u d owned) (v.users u ∙ owned)
        ∙ (rw (v.standing u d owned away) refl),
    rw (away) (homeless-Implements n b h a u d v owned away),
  )
  | inr (k, home) ↦
      let p = v.sits d k home in
      (
        leave_room (some p.room) d (record b { chs = delete u b.chs }) h,
        delete_found_at b d h u (v.owner u d owned) (v.users u ∙ owned) ∙ (rw (p.seat) refl),
        rw (home) (leave_room-Implements n b h a u k d p.room v owned p.open_room p.member),
      )
]

-- `DeleteChannel` does not panic, and it is the `leave` of the channel's user: the channel that the
-- bucket has for that user, if any, is no longer in its room nor in the bucket.
pub delete_channel-Implements :
    (n : ℕ) (b : Bucket) (h : Heap) (a : Hall) (c : ℕ)
    → Implements n b h a
    → (left : Bucket × Heap) × (Bucket.delete_channel b c h ≡ some left)
      × Implements n left.0 left.1 (leave (h.channel c).user_id a)
unfolding Bucket.delete_channel
delete_channel-Implements n b h a c v = elim (Option-cases (a.users (h.channel c).user_id)) [
  | inl e ↦ ((b, h), rw (v.users (h.channel c).user_id, e, Bucket.delete_channel) refl, rw (e) v)
  | inr (d, e) ↦
      rw (v.users (h.channel c).user_id, e, Bucket.delete_channel)
        (found-Implements n b h a (h.channel c).user_id d v e)
]
