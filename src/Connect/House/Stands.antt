-- ===== src/Connect/House/Stands.antt =====
-- The server of connect/server.go and the objects of its channels as a house, and what each operation
-- on one of its buckets does to it.
use yoyichat.Base.{
  ℕ, suc, ◌<◌, ◌≡◌, refl, true, false, Option, none, some, arith, ◌==◌, ◌&&◌, length, get_elem?,
  get_elem?-lt, Bool-cases, Option-cases, inl, inr, ap, ◌∙◌,
}
use yoyichat.Base.Bytes.{Bytes}
use yoyichat.Base.Int.{ℤ, pos, ◌==ℤ◌}
use yoyichat.Base.Assoc.{lookup, int_key}
use yoyichat.Connect.Heap.{Heap, no_room}
use yoyichat.Connect.Bucket.{Bucket, BucketOptions, find_room, register, leave_room}
use yoyichat.Connect.Bucket
use yoyichat.Connect.Bucket.Routing.{IsRouted}
use yoyichat.Connect.Room
use yoyichat.Connect.Server.{Server, bucket, bucket_at, with_bucket, index_of}
use yoyichat.Connect.Hall.{Hall, Implements}
use yoyichat.Connect.Hall.Frame.{Alike}
use yoyichat.Connect.House.{House}
use yoyichat.Connect.House.Floors.{Floors, Floors-Alike, Floors-later}
use yoyichat.Connect.House.Leaving.{deleted}
use yoyichat.Connect.House.Steps.{own_bucket}

-- what the channel object has of the user and the room that it came with
pub record Ticket (n : ℕ) (h : Heap) (c : ℕ) (u k : ℤ) : Type 0 where
  pub below : c < n
  pub user : (h.channel c).user_id ≡ u
  pub real : (u ==ℤ pos 0) ≡ false
  pub bare : (k ==ℤ no_room) ≡ true → (h.channel c).room ≡ none
  pub seat :
      (k ==ℤ no_room) ≡ false
      → (r : ℕ) × ((h.channel c).room ≡ some r) × ((h.room r).id ≡ k) × (r < h.next_room)

-- each bucket has its options, and the routines that they say
pub record IsReady (o : BucketOptions) (b : Bucket) : Type 0 where
  pub options : b.options ≡ o
  pub routed : IsRouted b

pub record Stands (more : ℕ) (o : BucketOptions) (n : ℕ) (s : Server) (h : Heap) (a : House)
    : Type 0 where
  pub size : s.bucket_idx ≡ suc more
  pub count : length s.buckets ≡ suc more
  pub ready : (i : ℕ) (b : Bucket) → get_elem? s.buckets i ≡ some b → IsReady o b
  pub floors : Floors n s.buckets h a.halls
  pub ticket : (c : ℕ) (u k : ℤ) → a.tickets c ≡ some (u, k) → Ticket n h c u k
  pub blank : (c : ℕ) → c < n → a.tickets c ≡ none → (h.channel c).room ≡ none

-- the routines and the options stay
pub put-IsReady :
    (o : BucketOptions) (b : Bucket) (u k : ℤ) (c : ℕ) (h : Heap)
    → IsReady o b
    → IsReady o (Bucket.put b u k c h).1
unfolding Bucket.put register find_room
put-IsReady o b u k c h v = elim (Bool-cases (k ==ℤ no_room)) [
  | inl e ↦ rw (e) record { options = v.options; routed = v.routed }
  | inr e ↦ elim (Option-cases (lookup k b.rooms)) [
    | inl f ↦ rw (e, f, find_room) record { options = v.options; routed = v.routed }
    | inr (r, f) ↦ rw (e, f, find_room) record { options = v.options; routed = v.routed }
  ]
]

leave_room-IsReady :
    (o : BucketOptions) (r : Option ℕ) (d : ℕ) (b : Bucket) (h : Heap)
    → IsReady o b
    → IsReady o (leave_room r d b h).0
unfolding leave_room
leave_room-IsReady o none d b h v = v
leave_room-IsReady o (some r) d b h v =
    let h' = (Room.delete_channel r d h).1 in
    elim (Bool-cases ((Room.delete_channel r d h).0 && (h'.room r).drop)) [
      | inl e ↦ rw (e) record { options = v.options; routed = v.routed }
      | inr e ↦ rw (e) v
    ]

pub delete_channel-IsReady :
    {n : ℕ} {b : Bucket} {h : Heap} {a : Hall} (o : BucketOptions) (c : ℕ) (left : Bucket × Heap)
    → Implements n b h a
    → Bucket.delete_channel b c h ≡ some left
    → IsReady o b
    → IsReady o left.0
delete_channel-IsReady {n} {b} {h} {a} o c left v done w = elim (deleted c left v done) [
  | inl (f, same) ↦ rw (same) w
  | inr (d, f, same) ↦ rw (same) (
      leave_room-IsReady o (h.channel d).room d _ h
        record { options = w.options; routed = w.routed })
]

module _ {more : ℕ} {o : BucketOptions} {n : ℕ} {s : Server} {h : Heap} {a : House}
    (v : Stands more o n s h a) where
  -- every user has a bucket
  pub own :
      (hash : Bytes → ℕ) (u : ℤ)
      → (b : Bucket) × (get_elem? s.buckets (own_bucket hash more u) ≡ some b)
        × (bucket hash s u ≡ some (own_bucket hash more u, b))
  unfolding bucket bucket_at with_bucket index_of
  own hash u =
      let (b, at) = get_elem?-lt s.buckets (own_bucket hash more u) (ground (arith, v.count)) in
      (b, at, rw (v.size, at) refl)

  pub Stands-Alike : {h' : Heap} → Alike n h h' → Stands more o n s h' a
  Stands-Alike {h'} e = record {
    size = v.size;
    count = v.count;
    ready = v.ready;
    floors = Floors-Alike v.floors e;
    ticket = λ c u k t.
        let w = v.ticket c u k t in
        record {
          below = w.below;
          user = e.user c w.below ∙ w.user;
          real = w.real;
          bare = λ same. e.seat c w.below ∙ w.bare same;
          seat = λ other.
              let (r, seat, id, low) = w.seat other in
              (
                r,
                e.seat c w.below ∙ seat,
                ap (λ f. (f r).id) e.rooms ∙ id,
                omega (arith, low, e.next_room),
              );
        };
    blank = λ c low t. e.seat c low ∙ v.blank c low t;
  }

  pub Stands-later : (h.channel n).room ≡ none → Stands more o (suc n) s h a
  Stands-later bare = record {
    size = v.size;
    count = v.count;
    ready = v.ready;
    floors = Floors-later v.floors;
    ticket = λ c u k t.
        let w = v.ticket c u k t in
        record {
          below = omega (arith, w.below);
          user = w.user;
          real = w.real;
          bare = w.bare;
          seat = w.seat;
        };
    blank = λ c low t. elim (Bool-cases (c == n)) [
      | inl same ↦ let cn : c ≡ n = ground arith in rw (cn) bare
      | inr other ↦ v.blank c (ground arith) t
    ];
  }
