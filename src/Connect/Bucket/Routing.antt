-- ===== src/Connect/Bucket/Routing.antt =====
-- The routines of a bucket (connect/bucket.go).
use yoyichat.Base.{
  length-replicate, zero, ◌<◌, ◌≤◌, get_elem?, set, arith, Bool-cases, inl, inr, ℕ, suc, ◌+◌, ◌%◌,
  ◌^◌, ◌≡◌, refl, some, List, [], ◌∷◌, ◌++◌, ltb, length, get_elem?-lt, length-set, ◌∙◌,
}
use yoyichat.Base.Assoc.{int_key}
use yoyichat.Messages.{PushRoomMsgRequest}
use yoyichat.Connect.Bucket.{
  BucketOptions, new_bucket, Bucket, Sending, sent, blocked, enqueue, broadcast_room, broadcast_at,
}

-- every routine that the index can choose exists
abbrev pub IsRouted : Bucket → Type 0
IsRouted b = length b.routines ≡ b.options.routine_amount

-- A new bucket has all its routines.
pub new_bucket-IsRouted : (o : BucketOptions) → IsRouted (new_bucket o)
unfolding new_bucket
new_bucket-IsRouted o = length-replicate o.routine_amount []

-- `routinesNum`, one higher, modulo the number of routines
abbrev next_routine : Bucket → ℕ
next_routine b = (b.routines_num + 1) % 2 ^ 64 % b.options.routine_amount

-- A send waits for a routine that is full, or puts the request behind what one routine has and changes
-- nothing else. The routine is the next one in turn.
pub data Sends (b : Bucket) (req : PushRoomMsgRequest) : Sending → Type 0 where
  waits :
      {queue : List PushRoomMsgRequest}
      → get_elem? b.routines (next_routine b) ≡ some queue
      → b.options.routine_size ≤ length queue
      → Sends b req blocked
  queues :
      {b' : Bucket} (num : ℕ) {queue : List PushRoomMsgRequest}
      → num ≡ next_routine b
      → get_elem? b.routines num ≡ some queue
      → length queue < b.options.routine_size
      → b'.routines ≡ set b.routines num (queue ++ req ∷ [])
      → b'.chs ≡ b.chs
      → b'.rooms ≡ b.rooms
      → IsRouted b'
      → Sends b req (sent b')

enqueue-Sends :
    (b : Bucket) (req : PushRoomMsgRequest) (count num : ℕ) (queue : List PushRoomMsgRequest)
    → IsRouted b
    → num ≡ next_routine b
    → get_elem? b.routines num ≡ some queue
    → Sends b req (enqueue (record b { routines_num = count }) num (some queue) req)
unfolding enqueue
enqueue-Sends b req count num queue h turn found =
    elim (Bool-cases (ltb (length queue) b.options.routine_size)) [
      | inl e ↦ rw (e) (
          queues num turn found (ground arith) refl refl refl
            (length-set b.routines num (queue ++ req ∷ []) ∙ h))
      | inr e ↦ rw (e) (waits {queue = queue} (rw (← turn) found) (ground arith))
    ]

broadcast_at-Sends :
    (amount : ℕ) (b : Bucket) (req : PushRoomMsgRequest)
    → IsRouted b
    → b.options.routine_amount ≡ amount
    → 0 < amount
    → Sends b req (broadcast_at amount b req)
unfolding broadcast_at
broadcast_at-Sends zero b req h e some_routine = absurd (omega arith)
broadcast_at-Sends (suc n) b req h e some_routine =
    let count = (b.routines_num + 1) % 2 ^ 64 in
    let (queue, found) = get_elem?-lt b.routines (count % suc n) (ground (arith, h, e)) in
    rw (found) (enqueue-Sends b req count (count % suc n) queue h (rw (e) refl) found)

-- A room message never panics in a bucket that has as many routines as its options say, at least
-- one: it is put behind what the next routine has, and the bucket keeps its users, its rooms and the
-- number of its routines, or it waits since that routine is full.
pub broadcast_room-Sends :
    (b : Bucket) (req : PushRoomMsgRequest)
    → IsRouted b
    → 0 < b.options.routine_amount
    → Sends b req (broadcast_room b req)
unfolding broadcast_room
broadcast_room-Sends b req h some_routine =
    broadcast_at-Sends b.options.routine_amount b req h refl some_routine
