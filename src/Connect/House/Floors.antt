-- ===== src/Connect/House/Floors.antt =====
-- The buckets of a server (connect/server.go) as the halls of a house, when one of them changes.
use yoyichat.Base.{
  ℕ, suc, ◌≡◌, false, none, some, List, arith, ◌==◌, inl, inr, get_elem?, get_elem?-set_hit, set,
}
use yoyichat.Base.Int.{ℤ}
use yoyichat.Connect.Heap.{Heap}
use yoyichat.Connect.Bucket.{Bucket}
use yoyichat.Connect.Bucket
use yoyichat.Connect.Hall.{Hall, join, leave, Implements}
use yoyichat.Connect.Hall.Frame.{Alike, Implements-Alike, Implements-Spares, Implements-later}
use yoyichat.Connect.Hall.Join.{put-Implements}
use yoyichat.Connect.Hall.Leave.{delete_channel-Implements}
use yoyichat.Connect.House.{Apart, in_hall}
use yoyichat.Connect.House.Others.{put-Spares, put-Apart}
use yoyichat.Connect.House.Leaving.{delete_channel-Spares, delete_channel-Apart}

pub record Floors (n : ℕ) (bs : List Bucket) (h : Heap) (halls : ℕ → Hall) : Type 0 where
  pub floor : (i : ℕ) (b : Bucket) → get_elem? bs i ≡ some b → Implements n b h (halls i)
  pub apart :
      (i j : ℕ) (b b' : Bucket)
      → (j == i) ≡ false
      → get_elem? bs i ≡ some b
      → get_elem? bs j ≡ some b'
      → Apart b (halls i) b' (halls j)

Apart-sym : {b b' : Bucket} {a a' : Hall} → Apart b a b' a' → Apart b' a' b a
Apart-sym p = record {
  rooms = λ k j r q e f. ground (arith, p.rooms j k q r f e);
  homes = λ c k j e f. p.homes c j k f e;
}

module _ {n m : ℕ} {bs : List Bucket} {h h' : Heap} {halls : ℕ → Hall} (v : Floors n bs h halls)
    (i : ℕ) (b₁ : Bucket) (f : Hall → Hall) (w : Implements m b₁ h' (f (halls i)))
    (others : (j : ℕ) (b' : Bucket)
      → (j == i) ≡ false
      → get_elem? bs j ≡ some b'
      → Implements m b' h' (halls j) × Apart b₁ (f (halls i)) b' (halls j)) where
  floor_set :
      (j : ℕ) (b : Bucket)
      → get_elem? (set bs i b₁) j ≡ some b
      → Implements m b h' (in_hall i f halls j)
  floor_set j b e = elim (get_elem?-set_hit bs i j b₁ b e) [
    | inl (test, here, new) ↦ rw (test, here, ← new) w
    | inr (other, old) ↦ rw (other) (others j b other old).0
  ]

  Apart-set :
      (j k : ℕ) (b b' : Bucket)
      → (k == j) ≡ false
      → get_elem? (set bs i b₁) j ≡ some b
      → get_elem? (set bs i b₁) k ≡ some b'
      → Apart b (in_hall i f halls j) b' (in_hall i f halls k)
  Apart-set j k b b' ne e e' = elim (get_elem?-set_hit bs i j b₁ b e) [
    | inl (t, here, new) ↦ elim (get_elem?-set_hit bs i k b₁ b' e') [
      | inl (t', here', new') ↦ absurd (ground arith)
      | inr (other, old) ↦ rw (t, other, here, ← new) (others k b' other old).1
    ]
    | inr (other, old) ↦ elim (get_elem?-set_hit bs i k b₁ b' e') [
      | inl (t', here', new') ↦ rw (t', other, here', ← new') (Apart-sym (others j b other old).1)
      | inr (other', old') ↦ rw (other, other') (v.apart j k b b' ne old old')
    ]
  ]

  Floors-set : Floors m (set bs i b₁) h' (in_hall i f halls)
  Floors-set = record { floor = floor_set; apart = Apart-set }

module _ {n : ℕ} {bs : List Bucket} {h : Heap} {halls : ℕ → Hall} (v : Floors n bs h halls) where
  pub Floors-Alike : {h' : Heap} → Alike n h h' → Floors n bs h' halls
  Floors-Alike s = record { floor = λ i b e. Implements-Alike (v.floor i b e) s; apart = v.apart }

  pub Floors-later : Floors (suc n) bs h halls
  Floors-later = record { floor = λ i b e. Implements-later (v.floor i b e); apart = v.apart }

  module _ (i : ℕ) (b : Bucket) (at : get_elem? bs i ≡ some b) where
    -- `Put` in one bucket: its hall has the channel, and the other halls stay as they are.
    pub put-Floors :
        (u k : ℤ)
        → (h.channel n).room ≡ none
        → ((Bucket.put b u k n h).0 ≡ none)
          × Floors
              (suc n)
              (set bs i (Bucket.put b u k n h).1)
              (Bucket.put b u k n h).2
              (in_hall i (join u k n) halls)
    put-Floors u k bare =
        let w = v.floor i b at in
        let (answer, done) = put-Implements n b h (halls i) u k w bare in
        (
          answer,
          Floors-set v i (Bucket.put b u k n h).1 (join u k n) done λ j b' other e.
              let w' = v.floor j b' e in
              let p = v.apart i j b b' other at e in
              (
                Implements-later (Implements-Spares w' (put-Spares w w' p u k bare)),
                put-Apart w w' p u k,
              ),
        )

    -- `DeleteChannel` in one bucket: the user leaves its hall, and the other halls stay as they are.
    pub delete_channel-Floors :
        (c : ℕ)
        → (left : Bucket × Heap) × (Bucket.delete_channel b c h ≡ some left)
          × Floors n (set bs i left.0) left.1 (in_hall i (leave (h.channel c).user_id) halls)
    delete_channel-Floors c =
        let w = v.floor i b at in
        let (left, done, w₁) = delete_channel-Implements n b h (halls i) c w in
        (
          left,
          done,
          Floors-set v i left.0 (leave (h.channel c).user_id) w₁ λ j b' other e.
              let w' = v.floor j b' e in
              let p = v.apart i j b b' other at e in
              (
                Implements-Spares w' (delete_channel-Spares w w' p c left done),
                delete_channel-Apart w w' p c left done,
              ),
        )

-- the buckets have the users and the rooms that they had; their routines may differ
pub record SameMaps (bs bs' : List Bucket) : Type 0 where
  pub before :
      (i : ℕ) (b' : Bucket)
      → get_elem? bs' i ≡ some b'
      → (b : Bucket) × (get_elem? bs i ≡ some b) × (b'.chs ≡ b.chs) × (b'.rooms ≡ b.rooms)

pub Implements-maps :
    {n : ℕ} {b b' : Bucket} {h : Heap} {a : Hall}
    → b'.chs ≡ b.chs
    → b'.rooms ≡ b.rooms
    → Implements n b h a
    → Implements n b' h a
Implements-maps chs rooms v = record {
  users = rw (chs) v.users;
  owner = v.owner;
  used = v.used;
  rooms = rw (rooms) v.rooms;
  closed = rw (rooms) v.closed;
  sits = λ c k e.
      let p = v.sits c k e in
      record {
        room = p.room;
        open_room = rw (rooms) p.open_room;
        seat = p.seat;
        member = p.member;
      };
  seated = v.seated;
  housed = v.housed;
  standing = v.standing;
}

pub Floors-maps :
    {n : ℕ} {bs bs' : List Bucket} {h : Heap} {halls : ℕ → Hall}
    → SameMaps bs bs'
    → Floors n bs h halls
    → Floors n bs' h halls
Floors-maps s v = record {
  floor = λ i b' e.
      let (b, at, chs, rooms) = s.before i b' e in Implements-maps chs rooms (v.floor i b at);
  apart = λ i j b b' ne e e'.
      let (b₁, at, chs, rooms) = s.before i b e in
      let (b₂, at', chs', rooms') = s.before j b' e' in
      let p = v.apart i j b₁ b₂ ne at at' in
      record { rooms = rw (rooms, rooms') p.rooms; homes = p.homes };
}
