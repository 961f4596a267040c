-- ===== src/Connect/Hall/Steps.antt =====
-- The life of a bucket of connect/bucket.go: channels come and go, and messages are pushed, in any order.
use yoyichat.Base.{
  ℕ, suc, ◌≤◌, ◌≡◌, refl, some, List, [], ◌∷◌, arith, length, Option-cases, inl, inr, ap,
}
use yoyichat.Base.Int.{ℤ}
use yoyichat.Base.Assoc.{lookup, int_key}
use yoyichat.Messages.{Msg, PushRoomMsgRequest}
use yoyichat.Connect.Heap.{Heap, update, new_channel, push_channel}
use yoyichat.Connect.Bucket.{Bucket, BucketOptions, new_bucket, push_room, room}
use yoyichat.Connect.Bucket
use yoyichat.Connect.Room.Delivery.{Delivered, push-Delivered}
use yoyichat.Connect.Hall.{Hall, empty, join, leave, Implements}
use yoyichat.Connect.Hall.Frame.{Alike, Implements-Alike}
use yoyichat.Connect.Hall.Pushes.{push_channel-Alike, push_room-Alike}
use yoyichat.Connect.Hall.Join.{put-Implements}
use yoyichat.Connect.Hall.Leave.{delete_channel-Implements}

-- `next_channel` is the first reference that `NewChannel` has not given out.
pub record World : Type 0 where
  pub bucket : Bucket
  pub heap : Heap
  pub next_channel : ℕ

-- The connection's channel, with the buffer size, is made and put for the user and the room id.
unfoldable pub accept : ℤ → ℤ → ℕ → World → World
accept u k size w =
    let c = w.next_channel in
    let h = record w.heap { channel = update w.heap.channel c (new_channel size) } in
    let (err, b, h') = Bucket.put w.bucket u k c h in
    record { bucket = b; heap = h'; next_channel = suc c }

-- what happens to the membership: a user came to a room with a channel, or a user went
pub data Event : Type 0 where
  came : (u k : ℤ) (c : ℕ) → Event
  gone : ℤ → Event

-- the hall after the events, the last of which is the first of the list
abbrev pub hall_after : List Event → Hall
hall_after [] = empty
hall_after (came u k c ∷ es) = join u k c (hall_after es)
hall_after (gone u ∷ es) = leave u (hall_after es)

-- A run of the program on a new bucket, with its events. A channel is put once. `DeleteChannel` and the
-- pushes are called on any channel and with any request.
pub data Run (o : BucketOptions) : List Event → World → Type 0 where
  opens : (h : Heap) → Run o [] (record { bucket = new_bucket o; heap = h; next_channel = 0 })
  comes :
      {es : List Event} {w : World} (u k : ℤ) (size : ℕ)
      → Run o es w
      → Run o (came u k w.next_channel ∷ es) (accept u k size w)
  goes :
      {es : List Event} {w : World} (c : ℕ) (b : Bucket) (h : Heap)
      → Bucket.delete_channel w.bucket c w.heap ≡ some (b, h)
      → Run o es w
      → Run o (gone (w.heap.channel c).user_id ∷ es) (record w { bucket = b; heap = h })
  pushes :
      {es : List Event} {w : World} (msg : Msg) (c : ℕ)
      → Run o es w
      → Run o es (record w { heap = push_channel msg c w.heap })
  pushes_room :
      {es : List Event} {w : World} (fuel : ℕ) (req : PushRoomMsgRequest) (h : Heap)
      → push_room fuel w.bucket req w.heap ≡ some h
      → Run o es w
      → Run o es (record w { heap = h })

pub new-Alike :
    (size : ℕ) (n : ℕ) (h : Heap)
    → Alike n h (record h { channel = update h.channel n (new_channel size) })
new-Alike size n h = record {
  rooms = refl;
  next_room = refl;
  prev = λ c low. ground arith;
  next = λ c low. ground arith;
  seat = λ c low. ground arith;
  user = λ c low. ground arith;
}

pub new_bucket-Implements : (o : BucketOptions) (h : Heap) → Implements 0 (new_bucket o) h empty
unfolding new_bucket lookup
new_bucket-Implements o h = record {
  users = λ u. refl;
  owner = λ u c e. ground arith;
  used = λ u c e. ground arith;
  rooms = λ k r e. ground arith;
  closed = λ k e. refl;
  sits = λ c k e. ground arith;
  seated = λ c k m. ground arith;
  housed = λ c k e. ground arith;
  standing = λ u c e e'. ground arith;
}

accept-Implements :
    (w : World) (a : Hall) (u k : ℤ) (size : ℕ)
    → Implements w.next_channel w.bucket w.heap a
    → let w' = accept u k size w in
      Implements w'.next_channel w'.bucket w'.heap (join u k w.next_channel a)
unfolding accept new_channel
accept-Implements w a u k size v =
    let n = w.next_channel in
    let h = record w.heap { channel = update w.heap.channel n (new_channel size) } in
    (put-Implements n w.bucket h a u k (Implements-Alike v (new-Alike size n w.heap))
      (ground arith)).1

-- In every run of a bucket, its maps, its rooms' linked lists, their counts and their drop flags are
-- the representation of the hall that the comings and goings alone determine: the pushes between them
-- make no difference.
pub Run-Implements :
    (o : BucketOptions) (es : List Event) (w : World)
    → Run o es w
    → Implements w.next_channel w.bucket w.heap (hall_after es)
Run-Implements o es w (opens h) = new_bucket-Implements o h
Run-Implements o es w (comes {es = es₀} {w = w₀} u k size t) =
    accept-Implements w₀ (hall_after es₀) u k size (Run-Implements o es₀ w₀ t)
Run-Implements o es w (goes {es = es₀} {w = w₀} c b h e t) =
    let (left, done, v) =
      delete_channel-Implements w₀.next_channel w₀.bucket w₀.heap (hall_after es₀) c
        (Run-Implements o es₀ w₀ t) in
    let same : left ≡ (b, h) = cc (e, done) in
    let v' : Implements w₀.next_channel b h (hall_after es) =
      rw (← ap (λ l. l.0) same, ← ap (λ l. l.1) same) v in
    v'
Run-Implements o es w (pushes {es = es₀} {w = w₀} msg c t) =
    Implements-Alike (Run-Implements o es₀ w₀ t) (push_channel-Alike w₀.next_channel msg c w₀.heap)
Run-Implements o es w (pushes_room {es = es₀} {w = w₀} fuel req h e t) =
    Implements-Alike (Run-Implements o es₀ w₀ t)
      (push_room-Alike w₀.next_channel fuel w₀.bucket req w₀.heap h e)

pub push_room-Implements :
    (n : ℕ) (b : Bucket) (h : Heap) (a : Hall) (req : PushRoomMsgRequest) (fuel : ℕ)
    → Implements n b h a
    → length (a.members req.room_id) ≤ fuel
    → (h' : Heap) × (push_room fuel b req h ≡ some h')
      × Delivered req.msg (a.members req.room_id) h h'
unfolding push_room room
push_room-Implements n b h a req fuel v enough = elim (Option-cases (lookup req.room_id b.rooms)) [
  | inl e ↦ (
    h,
    rw (e, push_room) refl,
    rw (v.closed req.room_id e) record { channels = λ c. refl; rooms = refl },
  )
  | inr (r, e) ↦
      let (h', done, sent) =
        push-Delivered req.msg fuel r h (v.rooms req.room_id r e).held enough in
      (h', rw (e, push_room) done, sent)
]

-- In every run of a bucket, a message for a room is offered once to each channel that the comings and
-- goings leave in the room of that id, and to no other; and the loop ends, if its fuel is at least the
-- number of those channels.
pub Run-push_room :
    (o : BucketOptions) (es : List Event) (w : World) (req : PushRoomMsgRequest) (fuel : ℕ)
    → Run o es w
    → length ((hall_after es).members req.room_id) ≤ fuel
    → (h : Heap) × (push_room fuel w.bucket req w.heap ≡ some h)
      × Delivered req.msg ((hall_after es).members req.room_id) w.heap h
Run-push_room o es w req fuel t enough =
    push_room-Implements w.next_channel w.bucket w.heap (hall_after es) req fuel
      (Run-Implements o es w t) enough
