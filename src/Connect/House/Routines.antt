-- ===== src/Connect/House/Routines.antt =====
-- The routines of the buckets: what the send of a room message to every bucket (connect/rpc.go) and a
-- round of a routine (PushRoom of connect/bucket.go) change.
use yoyichat.Base.{
  ℕ, zero, suc, ◌≡◌, refl, Option, none, some, List, [], ◌∷◌, ◌++◌, ltb, length, get_elem?, set,
  length-set, get_elem?-set_hit, Bool-cases, Option-cases, inl, inr, ap, sym, ◌∙◌,
}
use yoyichat.Messages.{PushRoomMsgRequest}
use yoyichat.Connect.Heap.{Heap}
use yoyichat.Connect.Bucket.{
  Bucket, BucketOptions, Sending, sent, blocked, enqueue, broadcast_at, broadcast_room, receive,
  push_received, push_room, routine,
}
use yoyichat.Connect.Server.{
  Server, Broadcast, done, waits, fails, after_bucket, broadcast_all, put_bucket,
}
use yoyichat.Connect.House.{House}
use yoyichat.Connect.House.Moves.{Stands-maps}
use yoyichat.Connect.House.Stands.{Stands, IsReady}

-- only what waits in the routines may differ
pub record Routed (b b' : Bucket) : Type 0 where
  pub chs : b'.chs ≡ b.chs
  pub rooms : b'.rooms ≡ b.rooms
  pub options : b'.options ≡ b.options
  pub count : length b'.routines ≡ length b.routines

enqueue-Routed :
    (b b' : Bucket) (num : ℕ) (queue : Option (List PushRoomMsgRequest)) (req : PushRoomMsgRequest)
    → enqueue b num queue req ≡ sent b'
    → Routed b b'
unfolding enqueue
enqueue-Routed b b' num none req e = absurd (cc e)
enqueue-Routed b b' num (some queue) req e =
    elim (Bool-cases (ltb (length queue) b.options.routine_size)) [
      | inl room ↦
          let b₁ = record b { routines = set b.routines num (queue ++ req ∷ []) } in
          let e' : sent b₁ ≡ sent b' = sym (rw (room) refl) ∙ e in
          let same : b₁ ≡ b' = cc e' in
          rw (← same) record {
            chs = refl;
            rooms = refl;
            options = refl;
            count = length-set b.routines num (queue ++ req ∷ []);
          }
      | inr full ↦ let e' : blocked ≡ sent b' = sym (rw (full) refl) ∙ e in absurd (cc e')
    ]

broadcast_at-Routed :
    (amount : ℕ) (b b' : Bucket) (req : PushRoomMsgRequest)
    → broadcast_at amount b req ≡ sent b'
    → Routed b b'
unfolding broadcast_at
broadcast_at-Routed zero b b' req e = absurd (cc e)
broadcast_at-Routed (suc n) b b' req e =
    let s = enqueue-Routed _ b' _ _ req e in
    record { chs = s.chs; rooms = s.rooms; options = s.options; count = s.count }

broadcast_room-Routed :
    (b b' : Bucket) (req : PushRoomMsgRequest) → broadcast_room b req ≡ sent b' → Routed b b'
unfolding broadcast_room
broadcast_room-Routed b b' req e = broadcast_at-Routed b.options.routine_amount b b' req e

-- each bucket after it with the one before it
abbrev pub AllRouted : List Bucket → List Bucket → Type 0
AllRouted [] [] = Unit
AllRouted [] (b ∷ bs) = ⊥
AllRouted (b ∷ bs) [] = ⊥
AllRouted (b ∷ bs) (b' ∷ bs') = Routed b b' × AllRouted bs bs'

after_bucket-AllRouted :
    (b : Bucket) (bs bs' : List Bucket) (req : PushRoomMsgRequest) (s : Sending) (rest : Broadcast)
    → broadcast_room b req ≡ s
    → ((bs₁ : List Bucket) → rest ≡ done bs₁ → AllRouted bs bs₁)
    → after_bucket s rest ≡ done bs'
    → AllRouted (b ∷ bs) bs'
unfolding after_bucket
after_bucket-AllRouted b bs bs' req (sent b₁) (done bs₁) f more e =
    let same : b₁ ∷ bs₁ ≡ bs' = cc e in
    rw (← same) (broadcast_room-Routed b b₁ req f, more bs₁ refl)
after_bucket-AllRouted b bs bs' req (sent b₁) waits f more e = absurd (cc e)
after_bucket-AllRouted b bs bs' req (sent b₁) fails f more e = absurd (cc e)
after_bucket-AllRouted b bs bs' req blocked rest f more e = absurd (cc e)
after_bucket-AllRouted b bs bs' req Sending.panics rest f more e = absurd (cc e)

broadcast_all-AllRouted :
    (bs bs' : List Bucket) (req : PushRoomMsgRequest)
    → broadcast_all bs req ≡ done bs'
    → AllRouted bs bs'
unfolding broadcast_all
broadcast_all-AllRouted [] [] req e = tt
broadcast_all-AllRouted [] (b ∷ bs) req e = absurd (cc e)
broadcast_all-AllRouted (b ∷ bs) bs' req e =
    after_bucket-AllRouted b bs bs' req (broadcast_room b req) (broadcast_all bs req) refl
      (λ bs₁ f. broadcast_all-AllRouted bs bs₁ req f) e

AllRouted-before :
    (bs bs' : List Bucket) (i : ℕ) (b' : Bucket)
    → AllRouted bs bs'
    → get_elem? bs' i ≡ some b'
    → (b : Bucket) × (get_elem? bs i ≡ some b) × Routed b b'
AllRouted-before [] [] i b' r e = absurd (cc e)
AllRouted-before [] (b ∷ bs) i b' r e = elim r [ ]
AllRouted-before (b ∷ bs) [] i b' r e = elim r [ ]
AllRouted-before (b ∷ bs) (b₁ ∷ bs') zero b' (here, more) e =
    let same : b₁ ≡ b' = cc e in (b, refl, rw (← same) here)
AllRouted-before (b ∷ bs) (b₁ ∷ bs') (suc i) b' (here, more) e = AllRouted-before bs bs' i b' more e

AllRouted-length : (bs bs' : List Bucket) → AllRouted bs bs' → length bs' ≡ length bs
AllRouted-length [] [] r = refl
AllRouted-length [] (b ∷ bs) r = elim r [ ]
AllRouted-length (b ∷ bs) [] r = elim r [ ]
AllRouted-length (b ∷ bs) (b' ∷ bs') (here, more) = ap suc (AllRouted-length bs bs' more)

IsReady-Routed : (o : BucketOptions) (b b' : Bucket) → Routed b b' → IsReady o b → IsReady o b'
IsReady-Routed o b b' r v = record {
  options = r.options ∙ v.options;
  routed = r.count ∙ v.routed ∙ ap (λ p. p.routine_amount) (sym r.options);
}

-- a round of a routine hands on the first request that waits in it
pub record Round (fuel : ℕ) (b b' : Bucket) (h h' : Heap) : Type 0 where
  pub request : PushRoomMsgRequest
  pub routed : Routed b b'
  pub pushed : push_room fuel b' request h ≡ some h'

received :
    (fuel num : ℕ) (b b' : Bucket) (h h' : Heap) (queue : Option (List PushRoomMsgRequest))
    → push_received fuel (receive b num queue) h ≡ some (b', h')
    → Round fuel b b' h h'
unfolding push_received receive
received fuel num b b' h h' none e = absurd (cc e)
received fuel num b b' h h' (some []) e = absurd (cc e)
received fuel num b b' h h' (some (req ∷ rest)) e =
    let b₁ = record b { routines = set b.routines num rest } in
    elim (Option-cases (push_room fuel b₁ req h)) [
      | inl f ↦
          let e' : none ≡ some (b', h') = sym (rw (f, push_received) refl) ∙ e in absurd (cc e')
      | inr (h₁, f) ↦
          let mine : Option (Bucket × Heap) = some (b₁, h₁) in
          let e' : mine ≡ some (b', h') = sym (rw (f, push_received) refl) ∙ e in
          let same : b₁ ≡ b' = cc e' in
          let same_heap : h₁ ≡ h' = cc e' in
          rw (← same, ← same_heap)
            record {
              request = req;
              routed = record {
                chs = refl;
                rooms = refl;
                options = refl;
                count = length-set b.routines num rest;
              };
              pushed = f;
            }
    ]

pub routine-Round :
    (fuel num : ℕ) (b b' : Bucket) (h h' : Heap)
    → routine fuel num b h ≡ some (b', h')
    → Round fuel b b' h h'
unfolding routine
routine-Round fuel num b b' h h' e = received fuel num b b' h h' (get_elem? b.routines num) e

module _ {more : ℕ} {o : BucketOptions} {n : ℕ} {s : Server} {h : Heap} {a : House}
    (v : Stands more o n s h a) where
  pub broadcast_all-Stands :
      (bs : List Bucket) (req : PushRoomMsgRequest)
      → broadcast_all s.buckets req ≡ done bs
      → Stands more o n (record s { buckets = bs }) h a
  broadcast_all-Stands bs req e =
      let all = broadcast_all-AllRouted s.buckets bs req e in
      Stands-maps v bs
        record {
          before = λ i b' at'.
              let (b, at, r) = AllRouted-before s.buckets bs i b' all at' in
              (b, at, r.chs, r.rooms);
        }
        (AllRouted-length s.buckets bs all)
        λ i b' at'.
          let (b, at, r) = AllRouted-before s.buckets bs i b' all at' in
          IsReady-Routed o b b' r (v.ready i b at)

  -- one bucket whose routines changed
  pub Routed-Stands :
      (i : ℕ) (b b' : Bucket)
      → get_elem? s.buckets i ≡ some b
      → Routed b b'
      → Stands more o n (put_bucket i b' s) h a
  unfolding put_bucket
  Routed-Stands i b b' at r =
      Stands-maps v (set s.buckets i b')
        record {
          before = λ j b₁ e. elim (get_elem?-set_hit s.buckets i j b' b₁ e) [
            | inl (t, here, new) ↦ rw (here, ← new) (b, at, r.chs, r.rooms)
            | inr (other, old) ↦ (b₁, old, refl, refl)
          ];
        }
        (length-set s.buckets i b')
        λ j b₁ e. elim (get_elem?-set_hit s.buckets i j b' b₁ e) [
          | inl (t, here, new) ↦ rw (← new) (IsReady-Routed o b b' r (v.ready i b at))
          | inr (other, old) ↦ v.ready j b₁ old
        ]
