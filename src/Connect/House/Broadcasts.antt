-- ===== src/Connect/House/Broadcasts.antt =====
-- Messages for a room of a connect server: the sends to all buckets (PushRoomMsg of connect/rpc.go) and
-- the routines that hand them on (PushRoom of connect/bucket.go), in every run.
use yoyichat.Base.{ℕ, suc, ◌<◌, ◌≤◌, ◌≡◌, refl, some, List, [], ◌∷◌, length, get_elem?, set}
use yoyichat.Base.Bytes.{Bytes}
use yoyichat.Messages.{PushRoomMsgRequest}
use yoyichat.Connect.Heap.{Heap}
use yoyichat.Connect.Bucket.{
  Bucket, BucketOptions, Sending, sent, blocked, routine, receive, push_received, broadcast_room,
}
use yoyichat.Connect.Bucket.Routing.{Sends, waits, queues, broadcast_room-Sends}
use yoyichat.Connect.Room.Delivery.{Delivered}
use yoyichat.Connect.Server.{
  World, Operator, put_bucket, push_room_msg, Broadcast, done, after_bucket, broadcast_all,
}
use yoyichat.Connect.Hall.Steps.{push_room-Implements}
use yoyichat.Connect.House.Floors.{Implements-maps}
use yoyichat.Connect.House.Runs.{Run-Stands}
use yoyichat.Connect.House.Stands.{IsReady}
use yoyichat.Connect.House.Steps.{Event, house_after, own_bucket, Run, routes}

-- What a send to all buckets comes to: each has queued it, or those before some bucket have, and there it
-- waits for a routine that is full. It has no case for a panic.
pub data SendsAll : List Bucket → PushRoomMsgRequest → Broadcast → Type 0 where
  end : {req : PushRoomMsgRequest} → SendsAll [] req (done [])
  stops :
      {b : Bucket} {bs : List Bucket} {req : PushRoomMsgRequest}
      → Sends b req blocked
      → SendsAll (b ∷ bs) req Broadcast.waits
  later :
      {b b' : Bucket} {bs : List Bucket} {req : PushRoomMsgRequest}
      → Sends b req (sent b')
      → SendsAll bs req Broadcast.waits
      → SendsAll (b ∷ bs) req Broadcast.waits
  each :
      {b b' : Bucket} {bs bs' : List Bucket} {req : PushRoomMsgRequest}
      → Sends b req (sent b')
      → SendsAll bs req (done bs')
      → SendsAll (b ∷ bs) req (done (b' ∷ bs'))

after_bucket-SendsAll :
    (b : Bucket) (bs : List Bucket) (req : PushRoomMsgRequest) (s : Sending) (rest : Broadcast)
    → Sends b req s
    → SendsAll bs req rest
    → SendsAll (b ∷ bs) req (after_bucket s rest)
unfolding after_bucket
after_bucket-SendsAll b bs req s rest (waits q full) r = stops (waits q full)
after_bucket-SendsAll b bs req s rest (queues {b' = b₁} num x q l f c m g) end =
    each (queues {b' = b₁} num x q l f c m g) end
after_bucket-SendsAll b bs req s rest (queues {b' = b₁} num x q l f c m g) (stops y) =
    later (queues {b' = b₁} num x q l f c m g) (stops y)
after_bucket-SendsAll b bs req s rest (queues {b' = b₁} num x q l f c m g) (later y z) =
    later (queues {b' = b₁} num x q l f c m g) (later y z)
after_bucket-SendsAll b bs req s rest (queues {b' = b₁} num x q l f c m g) (each y z) =
    each (queues {b' = b₁} num x q l f c m g) (each y z)

broadcast_all-SendsAll :
    (o : BucketOptions) (bs : List Bucket) (req : PushRoomMsgRequest)
    → 0 < o.routine_amount
    → ((i : ℕ) (b : Bucket) → get_elem? bs i ≡ some b → IsReady o b)
    → SendsAll bs req (broadcast_all bs req)
unfolding broadcast_all
broadcast_all-SendsAll o [] req some_routine ready = end
broadcast_all-SendsAll o (b ∷ bs) req some_routine ready =
    let v = ready 0 b refl in
    after_bucket-SendsAll b bs req (broadcast_room b req) (broadcast_all bs req)
      (broadcast_room-Sends b req v.routed (rw (v.options) some_routine))
      (broadcast_all-SendsAll o bs req some_routine λ i b' e. ready (suc i) b' e)

module _ (hash : Bytes → ℕ) (O : Operator) (server_id : Bytes) (more : ℕ) (o : BucketOptions)
    (es : List Event) (n : ℕ) (w : World hash O server_id) where
  -- In every run of a server whose buckets have at least one routine, a message for a room never panics:
  -- every bucket puts it behind what the next of its routines has and keeps its users and rooms, or it
  -- waits at the first bucket where that routine is full.
  pub Run-push_room_msg :
      (req : PushRoomMsgRequest)
      → Run hash O server_id more o es n w
      → 0 < o.routine_amount
      → SendsAll w.server.buckets req (push_room_msg w.server req).1
  unfolding push_room_msg
  Run-push_room_msg req t some_routine =
      broadcast_all-SendsAll o w.server.buckets req some_routine
        (Run-Stands hash O server_id more o es n w t).ready

  -- In every run, a routine of a bucket that has requests handles the first of them: its message is
  -- offered once to each member of the room in the bucket's hall and to no other channel, with fuel for
  -- the members, and the run goes on with that heap and without the request.
  pub Run-routine :
      (fuel i num : ℕ) (b : Bucket) (req : PushRoomMsgRequest) (rest : List PushRoomMsgRequest)
      → Run hash O server_id more o es n w
      → get_elem? w.server.buckets i ≡ some b
      → get_elem? b.routines num ≡ some (req ∷ rest)
      → length (((house_after (own_bucket hash more) es).halls i).members req.room_id) ≤ fuel
      → (b' : Bucket) × (h : Heap) × (b' ≡ record b { routines = set b.routines num rest })
        × (routine fuel num b w.heap ≡ some (b', h))
        × Delivered req.msg
            (((house_after (own_bucket hash more) es).halls i).members req.room_id)
            w.heap
            h
        × Run hash O server_id more o es n
            (record w { server = put_bucket i b' w.server; heap = h })
  unfolding routine receive push_received
  Run-routine fuel i num b req rest t at queued enough =
      let v = Run-Stands hash O server_id more o es n w t in
      let b' = record b { routines = set b.routines num rest } in
      let f = Implements-maps {b' = b'} refl refl (v.floors.floor i b at) in
      let (h, runs, delivered) = push_room-Implements n b' w.heap _ req fuel f enough in
      let runs' : routine fuel num b w.heap ≡ some (b', h) =
        rw (queued, runs, push_received) refl in
      (b', h, refl, runs', delivered, routes fuel i num b b' h at runs' t)
