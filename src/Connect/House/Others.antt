-- ===== src/Connect/House/Others.antt =====
-- Put and DeleteChannel of connect/bucket.go seen from another bucket of the same server: it is spared.
use yoyichat.Base.{
  ℕ, ◌≡◌, refl, false, none, some, arith, ◌==◌, Bool-cases, Option-cases, inl, inr, ◌∙◌,
}
use yoyichat.Base.Int.{ℤ, ◌==ℤ◌}
use yoyichat.Base.Assoc.{lookup, lookup-insert_hit, int_key}
use yoyichat.Connect.Heap.{Heap, no_room, set_room, set_user, put_room}
use yoyichat.Connect.Bucket.{Bucket, find_room, register}
use yoyichat.Connect.Bucket
use yoyichat.Connect.Room
use yoyichat.Connect.Room.Chain.{has, points-head}
use yoyichat.Connect.Room.Frame.{put-OnlyRoom, put_links}
use yoyichat.Connect.Hall.{Hall, join, Implements}
use yoyichat.Connect.Hall.Opening.{find_room-Finds}
use yoyichat.Connect.Hall.Frame.{not_true, Spares, Implements-Spares, Alike-Spares}
use yoyichat.Connect.Hall.Join.{written-Alike, named-Alike, put_real, o₁}
use yoyichat.Connect.House.{Apart}

pub Spares-refl : {n : ℕ} {b : Bucket} {h : Heap} {a : Hall} → Spares n b a h h
Spares-refl = record {
  rooms = λ k r e. refl;
  next_room = omega arith;
  prev = λ c k e. refl;
  next = λ c k e. refl;
  seat = λ c low. refl;
  user = λ c low. refl;
}

pub Spares-trans :
    {n : ℕ} {b : Bucket} {h h' h'' : Heap} {a : Hall}
    → Spares n b a h h'
    → Spares n b a h' h''
    → Spares n b a h h''
Spares-trans s t = record {
  rooms = λ k r e. t.rooms k r e ∙ s.rooms k r e;
  next_room = omega (arith, s.next_room, t.next_room);
  prev = λ c k e. t.prev c k e ∙ s.prev c k e;
  next = λ c k e. t.next c k e ∙ s.next c k e;
  seat = λ c low. t.seat c low ∙ s.seat c low;
  user = λ c low. t.user c low ∙ s.user c low;
}

module _ {n : ℕ} {b b' : Bucket} {h : Heap} {a a' : Hall} (v : Implements n b h a)
    (v' : Implements n b' h a') (apart : Apart b a b' a') where
  -- the room that `find_room` makes is nobody's
  find_room-Spares : (k : ℤ) → Spares n b' a' h (find_room k b h).2
  unfolding find_room put_room
  find_room-Spares k = elim (Option-cases (lookup k b.rooms)) [
    | inl e ↦
        rw (e, find_room)
          record {
            rooms = λ j q f. ground (arith, (v'.rooms j q f).known);
            next_room = omega arith;
            prev = λ c j f. refl;
            next = λ c j f. refl;
            seat = λ c low. refl;
            user = λ c low. refl;
          }
    | inr (r, e) ↦ rw (e, find_room) Spares-refl
  ]

  find_room-Apart : (k : ℤ) → Apart (find_room k b h).1 a b' a'
  unfolding find_room put_room
  find_room-Apart k = elim (Option-cases (lookup k b.rooms)) [
    | inl e ↦
        rw (e, find_room)
          record {
            rooms = λ i j r q f g. elim (lookup-insert_hit k i h.next_room r b.rooms f) [
              | inl (same, new) ↦ ground (arith, (v'.rooms j q g).known)
              | inr (other, old) ↦ apart.rooms i j r q old g
            ];
            homes = apart.homes;
          }
    | inr (r, e) ↦ rw (e, find_room) apart
  ]

  -- the end of `Put` in a room that the bucket has
  module _ (u k : ℤ) (r : ℕ) (found : lookup k b.rooms ≡ some r)
      (real : (k ==ℤ no_room) ≡ false) where
    placed-Spares : Spares n b' a' h (Room.put r n (set_user n u (set_room n (some r) h))).1
    placed-Spares =
        let alike = written-Alike n b h a u k r v found real in
        let o = o₁ n b h a u k r v found real in
        let h₁ = set_user n u (set_room n (some r) h) in
        let only = put-OnlyRoom r n h₁ o.live in
        let away : (c : ℕ) (j : ℤ) → a'.home c ≡ some j → (c == n) ≡ false =
          λ c j e. ground (arith, v'.housed c j e) in
        let out : (c : ℕ) (j : ℤ) → a'.home c ≡ some j → has c (a.members k) ≡ false =
          λ c j e. not_true _ λ m. apart.homes c k j (v.seated c k m) e in
        let links = λ (c : ℕ) (j : ℤ) (e : a'.home c ≡ some j).
          put_links r n h₁ o.live c (away c j e)
            (rw (o.held.first) (points-head c (a.members k) (out c j e))) in
        Spares-trans (Alike-Spares v' alike) record {
          rooms = λ j q e. only.others q (apart.rooms k j r q found e);
          next_room = omega (arith, only.next_room);
          prev = λ c j e. (links c j e).0;
          next = λ c j e. (links c j e).1;
          seat = λ c low. only.seat c;
          user = λ c low. only.user c;
        }

    placed-Apart : Apart b (join u k n a) b' a'
    placed-Apart = rw (real) record {
      rooms = apart.rooms;
      homes = λ c i j e f. ground (arith, apart.homes c i j, v'.housed c j f);
    }

module _ {n : ℕ} {b b' : Bucket} {h : Heap} {a a' : Hall} (v : Implements n b h a)
    (v' : Implements n b' h a') (apart : Apart b a b' a') (u k : ℤ) where
  pub put-Spares : (h.channel n).room ≡ none → Spares n b' a' h (Bucket.put b u k n h).2
  unfolding Bucket.put register
  put-Spares bare = elim (Bool-cases (k ==ℤ no_room)) [
    | inl e ↦ rw (e) (Alike-Spares v' (named-Alike n b h a u v bare))
    | inr e ↦
        let f = find_room-Finds n b h a k v in
        let (r, b₁, h₁) = find_room k b h in
        let s = find_room-Spares v v' apart k in
        rw (put_real b u k n h e) (
          Spares-trans s (
            placed-Spares f.implements (Implements-Spares v' s) (find_room-Apart v v' apart k) u k r
              f.room_of e))
  ]

  -- The other bucket stays apart from the one that the channel came to.
  pub put-Apart : Apart (Bucket.put b u k n h).1 (join u k n a) b' a'
  unfolding Bucket.put register
  put-Apart = elim (Bool-cases (k ==ℤ no_room)) [
    | inl e ↦ rw (e) record { rooms = apart.rooms; homes = apart.homes }
    | inr e ↦
        let f = find_room-Finds n b h a k v in
        let (r, b₁, h₁) = find_room k b h in
        let s = find_room-Spares v v' apart k in
        let p =
          placed-Apart f.implements (Implements-Spares v' s) (find_room-Apart v v' apart k) u k r
            f.room_of e in
        rw (put_real b u k n h e) record { rooms = p.rooms; homes = p.homes }
  ]
