-- ===== src/Connect/House/Moves.antt =====
-- Put and DeleteChannel of connect/bucket.go in the user's bucket of a server, and the push of a room
-- message to all buckets, as what they do to the house.
use yoyichat.Base.{
  ℕ, suc, ◌<◌, ◌≡◌, false, Option, none, some, List, arith, ◌==◌, if◌then◌else◌, length, get_elem?,
  set, length-set, get_elem?-set_self, get_elem?-set_hit, get_elem?-bound, Bool-cases, inl, inr,
  ◌∙◌,
}
use yoyichat.Base.Int.{ℤ, pos, ◌==ℤ◌}
use yoyichat.Base.Assoc.{int_key}
use yoyichat.Connect.Heap.{Heap, no_room}
use yoyichat.Connect.Bucket.{Bucket, BucketOptions}
use yoyichat.Connect.Bucket
use yoyichat.Connect.Server.{Server, put_bucket}
use yoyichat.Connect.Hall.{join, leave, Implements}
use yoyichat.Connect.House.{House, in_hall}
use yoyichat.Connect.House.Floors.{Floors, SameMaps, Floors-maps, put-Floors, delete_channel-Floors}
use yoyichat.Connect.House.Stands.{Ticket, IsReady, Stands, put-IsReady, delete_channel-IsReady}
use yoyichat.Connect.House.Tickets.{Seated, put-Seated, delete_channel-SameSeats}

module _ {more : ℕ} {o : BucketOptions} {n : ℕ} {s : Server} {h : Heap} {a : House}
    (v : Stands more o n s h a) where
  IsReady-set :
      (i : ℕ) (b₁ : Bucket)
      → IsReady o b₁
      → (j : ℕ) (b : Bucket) → get_elem? (set s.buckets i b₁) j ≡ some b
      → IsReady o b
  IsReady-set i b₁ w j b e = elim (get_elem?-set_hit s.buckets i j b₁ b e) [
    | inl (t, here, new) ↦ rw (← new) w
    | inr (other, old) ↦ v.ready j b old
  ]

  module _ (i : ℕ) (b : Bucket) (at : get_elem? s.buckets i ≡ some b) where
    module _ (u k : ℤ) (bare : (h.channel n).room ≡ none) (real : (u ==ℤ pos 0) ≡ false) where
      abbrev b₁ : Bucket
      b₁ = (Bucket.put b u k n h).1

      abbrev h₁ : Heap
      h₁ = (Bucket.put b u k n h).2

      w : Seated n u k h h₁
      w = put-Seated b u k n h

      floors : Floors (suc n) (set s.buckets i b₁) h₁ (in_hall i (join u k n) a.halls)
      floors = (put-Floors v.floors i b at u k bare).1

      pub put_answer : (Bucket.put b u k n h).0 ≡ none
      put_answer = (put-Floors v.floors i b at u k bare).0

      here : Implements (suc n) b₁ h₁ (in_hall i (join u k n) a.halls i)
      here = floors.floor i b₁ (get_elem?-set_self s.buckets i b₁ (get_elem?-bound s.buckets i at))

      new_seat :
          (k ==ℤ no_room) ≡ false
          → (r : ℕ) × ((h₁.channel n).room ≡ some r) × ((h₁.room r).id ≡ k) × (r < h₁.next_room)
      new_seat e =
          let p = here.sits n k (ground (arith, e)) in
          let q = here.rooms k p.room p.open_room in (p.room, p.seat, q.id, q.known)

      new-Ticket : Ticket (suc n) h₁ n u k
      new-Ticket = record {
        below = omega arith;
        user = w.user;
        real = real;
        bare = λ e. w.bare e ∙ bare;
        seat = new_seat;
      }

      old-Ticket : (c : ℕ) (j l : ℤ) → a.tickets c ≡ some (j, l) → Ticket (suc n) h₁ c j l
      old-Ticket c j l t =
          let old = v.ticket c j l t in
          let other : (c == n) ≡ false = ground (arith, old.below) in
          record {
            below = omega (arith, old.below);
            user = w.others_user c other ∙ old.user;
            real = old.real;
            bare = λ e. w.others_seat c other ∙ old.bare e;
            seat = λ e.
                let (r, seat, id, low) = old.seat e in
                (r, w.others_seat c other ∙ seat, w.id r low ∙ id, omega (arith, low, w.next_room));
          }

      pub put-Stands : Stands more o (suc n) (put_bucket i b₁ s) h₁ (record {
        halls = in_hall i (join u k n) a.halls;
        tickets = λ d. if d == n then some (u, k) else a.tickets d;
      })
      unfolding put_bucket
      put-Stands = record {
        size = v.size;
        count = length-set s.buckets i b₁ ∙ v.count;
        ready = IsReady-set i b₁ (put-IsReady o b u k n h (v.ready i b at));
        floors = floors;
        ticket = λ c j l t. elim (Bool-cases (c == n)) [
          | inl e ↦
              let cn : c ≡ n = ground arith in
              let mine : Option (ℤ × ℤ) = some (u, k) in
              let t' : mine ≡ some (j, l) = ground (arith, e, t) in
              let uj : u ≡ j = cc t' in let kl : k ≡ l = cc t' in rw (cn, ← uj, ← kl) new-Ticket
          | inr e ↦ old-Ticket c j l (ground (arith, e, t))
        ];
        blank = λ c low t. elim (Bool-cases (c == n)) [
          | inl e ↦ absurd (ground (arith, e, t))
          | inr e ↦ w.others_seat c e ∙ v.blank c (ground (arith, low, e)) (ground (arith, e, t))
        ];
      }

    -- the channel of a user of this bucket is taken out
    module _ (c : ℕ) (u : ℤ) (user : (h.channel c).user_id ≡ u) where
      pub delete_channel-Stands :
          (left : Bucket × Heap) × (Bucket.delete_channel b c h ≡ some left)
          × Stands more o n
              (put_bucket i left.0 s)
              left.1
              (record a { halls = in_hall i (leave u) a.halls })
      unfolding put_bucket
      delete_channel-Stands =
          let (left, done, floors) = delete_channel-Floors v.floors i b at c in
          let w = delete_channel-SameSeats c left (v.floors.floor i b at) done in
          (
            left,
            done,
            record {
              size = v.size;
              count = length-set s.buckets i left.0 ∙ v.count;
              ready =
                  IsReady-set i left.0
                    (delete_channel-IsReady o c left (v.floors.floor i b at) done (v.ready i b at));
              floors = rw (← user) floors;
              ticket = λ d j k t.
                  let old = v.ticket d j k t in
                  record {
                    below = old.below;
                    user = w.user d ∙ old.user;
                    real = old.real;
                    bare = λ e. w.seat d ∙ old.bare e;
                    seat = λ e.
                        let (r, seat, id, low) = old.seat e in
                        (r, w.seat d ∙ seat, w.id r low ∙ id, omega (arith, low, w.next_room));
                  };
              blank = λ d low t. w.seat d ∙ v.blank d low t;
            },
          )

  -- The buckets may change in their routines.
  pub Stands-maps :
      (bs : List Bucket)
      → SameMaps s.buckets bs
      → length bs ≡ length s.buckets
      → ((i : ℕ) (b : Bucket) → get_elem? bs i ≡ some b → IsReady o b)
      → Stands more o n (record s { buckets = bs }) h a
  Stands-maps bs same len ready = record {
    size = v.size;
    count = len ∙ v.count;
    ready = ready;
    floors = Floors-maps same v.floors;
    ticket = v.ticket;
    blank = v.blank;
  }
