-- ===== src/Connect/House/Leaving.antt =====
-- DeleteChannel of connect/bucket.go seen from another bucket of the same server: it is spared.
use yoyichat.Base.{
  ℕ, ◌≡◌, refl, true, false, Option, none, some, arith, ◌&&◌, Bool-cases, Option-cases, inl, inr,
  ◌⊎◌, ◌∙◌, sym,
}
use yoyichat.Base.Int.{ℤ}
use yoyichat.Base.Assoc.{lookup, delete, lookup-delete_hit, int_key}
use yoyichat.Connect.Heap.{Heap}
use yoyichat.Connect.Bucket.{Bucket, leave_room, delete_found}
use yoyichat.Connect.Bucket
use yoyichat.Connect.Room
use yoyichat.Connect.Room.Chain.{has}
use yoyichat.Connect.Room.Frame.{delete_channel-OnlyRoom, delete_channel_links}
use yoyichat.Connect.Hall.{Hall, vacate, leave_with, leave, Implements}
use yoyichat.Connect.Hall.Leave.{delete_found_at}
use yoyichat.Connect.Hall.Place.{apart_links}
use yoyichat.Connect.Hall.Frame.{not_true, Spares}
use yoyichat.Connect.House.{Apart}
use yoyichat.Connect.House.Others.{Spares-refl}

-- the rooms of `b'` are rooms of `b`
record Fewer (b b' : Bucket) : Type 0 where
  found : (k : ℤ) (r : ℕ) → lookup k b'.rooms ≡ some r → lookup k b.rooms ≡ some r

leave_room-Fewer : (b : Bucket) (h : Heap) (d : ℕ) (r : Option ℕ) → Fewer b (leave_room r d b h).0
unfolding leave_room
leave_room-Fewer b h d none = record { found = λ k r e. e }
leave_room-Fewer b h d (some r) =
    let h' = (Room.delete_channel r d h).1 in
    elim (Bool-cases ((Room.delete_channel r d h).0 && (h'.room r).drop)) [
      | inl e ↦
          rw (e) record { found = λ k q f. (lookup-delete_hit (h'.room r).id k q b.rooms f).1 }
      | inr e ↦ rw (e) record { found = λ k q f. f }
    ]

pub leave_room_heap :
    (b : Bucket) (h : Heap) (d r : ℕ)
    → (leave_room (some r) d b h).1 ≡ (Room.delete_channel r d h).1
unfolding leave_room
leave_room_heap b h d r =
    let h' = (Room.delete_channel r d h).1 in
    elim (Bool-cases ((Room.delete_channel r d h).0 && (h'.room r).drop)) [
      | inl e ↦ rw (e) refl
      | inr e ↦ rw (e) refl
    ]

module _ {n : ℕ} {b b' : Bucket} {h : Heap} {a a' : Hall} (v : Implements n b h a)
    (v' : Implements n b' h a') (apart : Apart b a b' a') where
  -- a member goes out of a room of the bucket
  removed-Spares :
      (k : ℤ) (d r : ℕ)
      → lookup k b.rooms ≡ some r
      → has d (a.members k) ≡ true
      → Spares n b' a' h (Room.delete_channel r d h).1
  removed-Spares k d r found member =
      let o = v.rooms k r found in
      let only = delete_channel-OnlyRoom r d h in
      let out : (c : ℕ) (j : ℤ) → a'.home c ≡ some j → has c (a.members k) ≡ false =
        λ c j e. not_true _ λ m. apart.homes c k j (v.seated c k m) e in
      let links = λ (c : ℕ) (j : ℤ) (e : a'.home c ≡ some j).
        let (i, i') = apart_links h r d c (a.members k) o.held member (out c j e) in
        delete_channel_links r d h c i i' in
      record {
        rooms = λ j q e. only.others q (apart.rooms k j r q found e);
        next_room = omega (arith, only.next_room);
        prev = λ c j e. (links c j e).0;
        next = λ c j e. (links c j e).1;
        seat = λ c low. only.seat c;
        user = λ c low. only.user c;
      }

  -- the channel of a user goes out of its room, if it has one
  left-Spares :
      (u : ℤ) (d : ℕ) (b₀ : Bucket)
      → a.users u ≡ some d
      → Spares n b' a' h (leave_room (h.channel d).room d b₀ h).1
  unfolding leave_room
  left-Spares u d b₀ owned = elim (Option-cases (a.home d)) [
    | inl away ↦ rw (v.standing u d owned away) Spares-refl
    | inr (k, home) ↦
        let p = v.sits d k home in
        rw (p.seat, leave_room_heap b₀ h d p.room) (removed-Spares k d p.room p.open_room p.member)
  ]

vacate_home :
    (u : ℤ) (d : ℕ) (o : Option ℤ) (a : Hall) (c : ℕ) (k : ℤ)
    → (vacate u d o a).home c ≡ some k
    → a.home c ≡ some k
vacate_home u d none a c k e = e
vacate_home u d (some j) a c k e = ground arith

pub leave_home :
    (u : ℤ) (o : Option ℕ) (a : Hall) (c : ℕ) (k : ℤ)
    → (leave_with u o a).home c ≡ some k
    → a.home c ≡ some k
leave_home u none a c k e = e
leave_home u (some d) a c k e = vacate_home u d (a.home d) a c k e

-- the bucket map that `DeleteChannel` leaves, and its heap
pub deleted :
    {n : ℕ} {b : Bucket} {h : Heap} {a : Hall} (c : ℕ) (left : Bucket × Heap)
    → Implements n b h a
    → Bucket.delete_channel b c h ≡ some left
    → let u = (h.channel c).user_id in
      ((a.users u ≡ none) × (left ≡ (b, h)))
      ⊎ ((d : ℕ) × (a.users u ≡ some d)
          × (left ≡ leave_room (h.channel d).room d (record b { chs = delete u b.chs }) h))
unfolding Bucket.delete_channel
deleted {n} {b} {h} {a} c left v e = elim (Option-cases (a.users (h.channel c).user_id)) [
  | inl f ↦
      let e' : some (b, h) ≡ some left =
        sym (rw (v.users (h.channel c).user_id, f, Bucket.delete_channel) refl) ∙ e in
      inl (f, cc e')
  | inr (d, f) ↦
      let e' : delete_found b d h ≡ some left =
        sym (rw (v.users (h.channel c).user_id, f, Bucket.delete_channel) refl) ∙ e in
      let at = delete_found_at b d h (h.channel c).user_id (v.owner _ d f) (v.users _ ∙ f) in
      inr (d, f, cc (sym e' ∙ at))
]

module _ {n : ℕ} {b b' : Bucket} {h : Heap} {a a' : Hall} (v : Implements n b h a)
    (v' : Implements n b' h a') (apart : Apart b a b' a') (c : ℕ) (left : Bucket × Heap)
    (done : Bucket.delete_channel b c h ≡ some left) where
  pub delete_channel-Spares : Spares n b' a' h left.1
  delete_channel-Spares = elim (deleted c left v done) [
    | inl (f, same) ↦ rw (same) Spares-refl
    | inr (d, f, same) ↦ rw (same) (left-Spares v v' apart (h.channel c).user_id d _ f)
  ]

  fewer : Fewer b left.0
  fewer = elim (deleted c left v done) [
    | inl (f, same) ↦ rw (same) record { found = λ k r e. e }
    | inr (d, f, same) ↦ rw (same) record {
      found =
          (leave_room-Fewer (record b { chs = delete (h.channel c).user_id b.chs }) h d
            (h.channel d).room).found;
    }
  ]

  -- The other bucket stays apart from the one that the user left.
  pub delete_channel-Apart : Apart left.0 (leave (h.channel c).user_id a) b' a'
  delete_channel-Apart = record {
    rooms = λ k j r q e f. apart.rooms k j r q (fewer.found k r e) f;
    homes = λ d k j e f.
        apart.homes d k j (leave_home (h.channel c).user_id (a.users (h.channel c).user_id) a d k e)
          f;
  }
