-- ===== src/Connect/Hall/Join.antt =====
-- Bucket.Put of connect/bucket.go as the `join` of a hall.
use yoyichat.Base.{
  ℕ, suc, ◌<◌, ◌≡◌, refl, false, none, some, ◌∷◌, arith, ◌==◌, if◌then◌else◌, Bool-cases, inl, inr,
  ◌∙◌,
}
use yoyichat.Base.Int.{ℤ, ◌==ℤ◌, ==ℤ_iff, ==ℤ_refl}
use yoyichat.Base.Assoc.{lookup, insert, lookup-insert, int_key}
use yoyichat.Connect.Heap.{Heap, no_room, set_room, set_user}
use yoyichat.Connect.Bucket.{Bucket, find_room, register}
use yoyichat.Connect.Bucket
use yoyichat.Connect.Room
use yoyichat.Connect.Room.Chain.{points-head}
use yoyichat.Connect.Room.Members.{put-IsRoom}
use yoyichat.Connect.Room.Frame.{IsRoom-frame, OnlyRoom, put-OnlyRoom, put_drop, put_links}
use yoyichat.Connect.Hall.{Hall, at_key, join, IsOpen, Sits, Implements}
use yoyichat.Connect.Hall.Opening.{find_room-Finds}
use yoyichat.Connect.Hall.Frame.{
  unused, lists_apart, rooms_apart, not_true, user_at, Alike, Implements-Alike,
}

-- The end of `Put` in a room, when the bucket has room object `r` for the id: `h₁` is the heap with the
-- channel's room and user written.
module _ (n : ℕ) (b : Bucket) (h : Heap) (a : Hall) (u k : ℤ) (r : ℕ) (v : Implements n b h a)
    (found : lookup k b.rooms ≡ some r) (real : (k ==ℤ no_room) ≡ false) where
  abbrev pub h₁ : Heap
  h₁ = set_user n u (set_room n (some r) h)

  abbrev h₂ : Heap
  h₂ = (Room.put r n h₁).1

  abbrev b₂ : Bucket
  b₂ = record b { chs = insert u n b.chs }

  o : IsOpen h k r (a.members k)
  o = v.rooms k r found

  pub written-Alike : Alike n h h₁
  unfolding set_user set_room
  written-Alike = record {
    rooms = refl;
    next_room = refl;
    prev = λ c low. ground arith;
    next = λ c low. ground arith;
    seat = λ c low. ground arith;
    user = λ c low. ground arith;
  }

  written_here : ((h₁.channel n).room ≡ some r) × ((h₁.channel n).user_id ≡ u)
  unfolding set_user set_room
  written_here = ground arith

  w : Implements n b h₁ a
  w = Implements-Alike v written-Alike

  pub o₁ : IsOpen h₁ k r (a.members k)
  o₁ = w.rooms k r found

  only : OnlyRoom r h₁ h₂
  only = put-OnlyRoom r n h₁ o₁.live

  joined_answer : (Room.put r n h₁).0 ≡ none
  joined_answer = (put-IsRoom r n h₁ o₁.held (unused w k) o₁.live).0

  joined : IsOpen h₂ k r (n ∷ a.members k)
  joined = record {
    id = only.id ∙ o₁.id;
    live = put_drop r n h₁ o₁.live;
    held = (put-IsRoom r n h₁ o₁.held (unused w k) o₁.live).1;
    known = rw (only.next_room) o₁.known;
  }

  elsewhere :
      (j : ℤ) (q : ℕ) → (k ==ℤ j) ≡ false → lookup j b.rooms ≡ some q → IsOpen h₂ j q (a.members j)
  elsewhere j q ne e =
      let p = w.rooms j q e in
      let same = only.others q (rooms_apart w k j r q ne found e) in
      record {
        id = rw (same) p.id;
        live = rw (same) p.live;
        held =
            IsRoom-frame h₁ h₂ q (a.members j) same
              (λ c m.
                put_links r n h₁ o₁.live c (ground (arith, w.housed c j (w.seated c j m)))
                  (rw (o₁.held.first) (points-head c (a.members k) (lists_apart w k j c ne m))))
              p.held;
        known = rw (only.next_room) p.known;
      }

  kept_user : (c : ℕ) → c < n → (h₂.channel c).user_id ≡ (h.channel c).user_id
  kept_user c low = only.user c ∙ written-Alike.user c low

  kept_seat : (c : ℕ) → c < n → (h₂.channel c).room ≡ (h.channel c).room
  kept_seat c low = only.seat c ∙ written-Alike.seat c low

  joined_owner : (j : ℤ) (c : ℕ) → at_key a.users u (some n) j ≡ some c → (h₂.channel c).user_id ≡ j
  joined_owner j c e = elim (user_at v u j c e) [
    | inl (eu, ec) ↦ rw (ec, only.user n, written_here.1) eu
    | inr (old, low) ↦ kept_user c low ∙ v.owner j c old
  ]

  joined_rooms :
      (j : ℤ) (q : ℕ)
      → lookup j b.rooms ≡ some q
      → IsOpen h₂ j q (at_key a.members k (n ∷ a.members k) j)
  joined_rooms j q e = elim (Bool-cases (k ==ℤ j)) [
    | inl same ↦
        let kj = (==ℤ_iff k j).0 same in
        let rq : r ≡ q = ground (arith, e, found, kj) in rw (same, ← kj, ← rq) joined
    | inr other ↦ rw (other) (elsewhere j q other e)
  ]

  joined-Sits :
      (c : ℕ) (j : ℤ)
      → (if c == n then some k else a.home c) ≡ some j
      → Sits b₂ h₂ j c (at_key a.members k (n ∷ a.members k) j)
  joined-Sits c j e = elim (Bool-cases (c == n)) [
    | inl new ↦
        let kj : k ≡ j = ground arith in
        let cn : c ≡ n = ground arith in
        rw (← kj, ==ℤ_refl k)
          record {
            room = r;
            open_room = found;
            seat = rw (cn) (only.seat n ∙ written_here.0);
            member = ground arith;
          }
    | inr old ↦
        let home : a.home c ≡ some j = ground arith in
        let p = v.sits c j home in
        record {
          room = p.room;
          open_room = p.open_room;
          seat = kept_seat c (v.housed c j home) ∙ p.seat;
          member = ground (arith, p.member, ==ℤ_iff k j);
        }
  ]

  joined-Implements : Implements (suc n) b₂ h₂ (join u k n a)
  joined-Implements = rw (real) record {
    users = λ j. rw (lookup-insert, v.users j) refl;
    owner = joined_owner;
    used = λ j c e. elim (user_at v u j c e) [
      | inl (eu, ec) ↦ omega arith
      | inr (old, low) ↦ omega arith
    ];
    rooms = joined_rooms;
    closed = λ j e.
        rw (not_true (k ==ℤ j) (λ same. ground (arith, found, (==ℤ_iff k j).0 same)))
          (v.closed j e);
    sits = joined-Sits;
    seated = λ c j m. ground (arith, v.seated c j, v.seated c k, v.housed c j, ==ℤ_iff k j);
    housed = λ c j e. ground (arith, v.housed c j);
    standing = λ j c e away. elim (user_at v u j c e) [
      | inl (eu, ec) ↦ absurd (ground arith)
      | inr (old, low) ↦ kept_seat c low ∙ v.standing j c old (ground arith)
    ];
  }

-- without a room: the user and the channel of the bucket's map alone
module _ (n : ℕ) (b : Bucket) (h : Heap) (a : Hall) (u : ℤ) (v : Implements n b h a)
    (bare : (h.channel n).room ≡ none) where
  pub named-Alike : Alike n h (set_user n u h)
  unfolding set_user
  named-Alike = record {
    rooms = refl;
    next_room = refl;
    prev = λ c low. ground arith;
    next = λ c low. ground arith;
    seat = λ c low. ground arith;
    user = λ c low. ground arith;
  }

  named_here : ((set_user n u h).channel n).user_id ≡ u
  unfolding set_user
  named_here = ground arith

  named_seat : (c : ℕ) → ((set_user n u h).channel c).room ≡ (h.channel c).room
  unfolding set_user
  named_seat c = ground arith

  named-Implements :
      Implements
        (suc n)
        (record b { chs = insert u n b.chs })
        (set_user n u h)
        (record a { users = at_key a.users u (some n) })
  named-Implements =
      let w = Implements-Alike v named-Alike in
      record {
        users = λ j. rw (lookup-insert, v.users j) refl;
        owner = λ j c e. elim (user_at v u j c e) [
          | inl (eu, ec) ↦ rw (ec, named_here) eu
          | inr (old, low) ↦ w.owner j c old
        ];
        used = λ j c e. ground (arith, v.used j c);
        rooms = w.rooms;
        closed = w.closed;
        sits = λ c j e.
            let p = w.sits c j e in
            record { room = p.room; open_room = p.open_room; seat = p.seat; member = p.member };
        seated = w.seated;
        housed = λ c j e. ground (arith, v.housed c j);
        standing = λ j c e away. elim (user_at v u j c e) [
          | inl (eu, ec) ↦ named_seat c ∙ (rw (ec) bare)
          | inr (old, low) ↦ named_seat c ∙ v.standing j c old away
        ];
      }

-- `put` into a room: the three steps after the room is found
pub put_real :
    (b : Bucket) (u k : ℤ) (n : ℕ) (h : Heap)
    → (k ==ℤ no_room) ≡ false
    → let (r, b₁, f) = find_room k b h in
      Bucket.put b u k n h ≡ (
        let (err, h₃) = Room.put r n (set_user n u (set_room n (some r) f)) in
        (err, record b₁ { chs = insert u n b₁.chs }, h₃))
unfolding Bucket.put register
put_real b u k n h e = rw (e) refl

-- `Put` of a channel that was never used is the `join` of the hall, with no error: the user has the
-- channel, and it is the first member of the room of that id, which is made where there is none; with
-- the id -1 it is in no room.
pub put-Implements :
    (n : ℕ) (b : Bucket) (h : Heap) (a : Hall) (u k : ℤ)
    → Implements n b h a
    → (h.channel n).room ≡ none
    → ((Bucket.put b u k n h).0 ≡ none)
      × Implements (suc n) (Bucket.put b u k n h).1 (Bucket.put b u k n h).2 (join u k n a)
unfolding Bucket.put register
put-Implements n b h a u k v bare = elim (Bool-cases (k ==ℤ no_room)) [
  | inl e ↦ rw (e) (refl, named-Implements n b h a u v bare)
  | inr e ↦
      let f = find_room-Finds n b h a k v in
      let (r, b₁, h₁) = find_room k b h in
      rw (put_real b u k n h e) (
        joined_answer n b₁ h₁ a u k r f.implements f.room_of e,
        joined-Implements n b₁ h₁ a u k r f.implements f.room_of e,
      )
]
