-- ===== src/Connect/House/Service.antt =====
-- What the users of a connect server get of it, in every run: connections and their ends
-- (connect/server.go, server_tcp.go), pushes to users and to rooms (connect/rpc.go, connect/bucket.go).
use yoyichat.Base.{
  ap, Option, ℕ, suc, ◌<◌, ◌≡◌, refl, Bool, true, false, none, some, List, ◌∷◌, arith, ◌∙◌,
}
use yoyichat.Base.Bytes.{Bytes}
use yoyichat.Base.Int.{ℤ, pos, ◌==ℤ◌}
use yoyichat.Messages.{Msg}
use yoyichat.Connect.Heap.{Heap, no_room, push_channel}
use yoyichat.Connect.Bucket.{Bucket, BucketOptions, channel}
use yoyichat.Connect.Server
use yoyichat.Connect.Server.{
  World, Operator, bucket, again, put_bucket, connect_channel, stop_reading, push_single_msg,
  push_in_bucket, push_to_user, empty_reply, success_reply, close, push_room_msg, Broadcast, done,
  waits, fails,
}
use yoyichat.Connect.Hall.Buffers.{SameBuffers}
use yoyichat.Connect.House.Calls.{tells, stop_reading-Ends}
use yoyichat.Connect.House.Floors.{Floors}
use yoyichat.Connect.House.Runs.{Run-Stands, dial-Stands, dialed}
use yoyichat.Connect.House.Calls.{connect_after}
use yoyichat.Connect.House.Arrival.{IsIn, arrive-IsIn}
use yoyichat.Connect.House.Stands.{own}
use yoyichat.Connect.House.Steps.{
  Event, came, ended, house_after, own_bucket, dial, Run, connects, ends,
}

stop_roomless :
    (hash : Bytes → ℕ) (O : Operator) (server_id : Bytes) (c : ℕ) (w : World hash O server_id)
    → (w.heap.channel c).room ≡ none
    → stop_reading hash O server_id c w ≡ some (record w { heap = close c w.heap })
unfolding stop_reading Server.leave
stop_roomless hash O server_id c w bare = rw (bare, Server.leave) refl

push_to_user_cases :
    (p : Option ℕ) (msg : Msg) (h : Heap)
    → push_to_user p msg h
      ≡ elim p [ none ↦ (success_reply, h) | some c ↦ (empty_reply, push_channel msg c h) ]
unfolding push_to_user
push_to_user_cases none msg h = refl
push_to_user_cases (some c) msg h = refl

module _ (hash : Bytes → ℕ) (O : Operator) (server_id : Bytes) (more : ℕ) (o : BucketOptions)
    (es : List Event) (n : ℕ) (w : World hash O server_id) where
  -- In every run of a server, each bucket is the representation of its own hall, which the connections
  -- of its users and their ends alone determine, and no two buckets have a room object or a member of a
  -- room in common.
  pub Run-Floors :
      Run hash O server_id more o es n w
      → Floors n w.server.buckets w.heap (house_after (own_bucket hash more) es).halls
  Run-Floors t = (Run-Stands hash O server_id more o es n w t).floors

  -- In every run, a connect request of a new connection that the logic layer grants, with a user id other
  -- than 0, is served without panic or error, as one step, and the run goes on. The channel is then in the
  -- own bucket of the user: it is mapped to the user, it knows the user and its room, and it heads the room
  -- that the bucket has for the id asked for, or has no room where that id is -1. What waits in the buffers
  -- of the channels stays.
  pub Run-connect_channel :
      (tcp : Bool) (token : Bytes) (u k : ℤ) (size : ℕ) (s : O.State)
      → Run hash O server_id more o es n w
      → O.connect (record { auth_token = token; room_id = k; server_id = server_id }) w.logic
        ≡ ((u, none), s)
      → (u ==ℤ pos 0) ≡ false
      → (w' : World hash O server_id) × (b : Bucket) × (connect_channel hash O server_id tcp token k
            n
            (dial n size w)
          ≡ again w')
        × (bucket hash w'.server u ≡ some (own_bucket hash more u, b))
        × IsIn u k n b w'.heap
        × SameBuffers (dial n size w).heap w'.heap
        × Run hash O server_id more o (came u k n ∷ es) (suc n) w'
  unfolding connect_channel
  Run-connect_channel tcp token u k size s t reply real =
      let v = Run-Stands hash O server_id more o es n w t in
      let d = dial n size w in
      let (w', runs, same, buffers, stands) =
        connect_after d (dial-Stands hash O server_id more o w size v) tcp u k s
          (dialed hash O server_id more o n size w) real in
      let runs' : connect_channel hash O server_id tcp token k n d ≡ again w' = rw (reply) runs in
      let (b, at, found) = own stands hash u in
      (
        w',
        b,
        runs',
        found,
        arrive-IsIn (own_bucket hash more) (house_after (own_bucket hash more) es) u k stands b at,
        buffers,
        connects tcp token u k size s w' reply real runs' t,
      )

  -- In every run, the end of a connection, as one step, does not panic. The logic layer is told of the user
  -- and the room id that the channel came with, unless it was never connected or came with the room id -1:
  -- of such a channel it is told nothing. What waits in the buffers of the channels stays.
  pub Run-stop_reading :
      (c : ℕ)
      → Run hash O server_id more o es n w
      → c < n
      → (w' : World hash O server_id) × (stop_reading hash O server_id c w ≡ some w')
        × (w'.logic ≡ tells O ((house_after (own_bucket hash more) es).tickets c) w.logic)
        × SameBuffers w.heap w'.heap
        × Run hash O server_id more o (ended c ∷ es) n w'
  Run-stop_reading c t low =
      let e = stop_reading-Ends w (Run-Stands hash O server_id more o es n w t) c low in
      (e.after, e.runs, e.told, e.buffers, ends c e.after low e.runs t)

  -- In every run, a message for a user is offered to the channel that the user has in the hall of the
  -- user's own bucket, with an empty reply, and where the user has none there, the reply alone says
  -- success.
  pub Run-push_single_msg :
      (u : ℤ) (msg : Msg)
      → Run hash O server_id more o es n w
      → push_single_msg hash w.server (record { user_id = u; msg = msg }) w.heap
        ≡ some
            (elim (((house_after (own_bucket hash more) es).halls (own_bucket hash more u)).users
              u) [
                | none ↦ (success_reply, w.heap)
                | some c ↦ (empty_reply, push_channel msg c w.heap)
              ])
  unfolding push_single_msg push_in_bucket channel
  Run-push_single_msg u msg t =
      let v = Run-Stands hash O server_id more o es n w t in
      let (b, at, found) = own v hash u in
      rw (found, (v.floors.floor (own_bucket hash more u) b at).users u)
        (ap (λ r. some r)
          (push_to_user_cases
            (((house_after (own_bucket hash more) es).halls (own_bucket hash more u)).users u) msg
            w.heap))

  -- In every run, a connection that came with the room id -1 leaves its channel in the bucket when it
  -- ends: the connection is closed, and a message for the user is still offered to its channel, with
  -- the empty reply of a push that was made.
  pub Run-roomless_stays :
      (c : ℕ) (u : ℤ) (msg : Msg)
      → Run hash O server_id more o es n w
      → (house_after (own_bucket hash more) es).tickets c ≡ some (u, no_room)
      → ((house_after (own_bucket hash more) es).halls (own_bucket hash more u)).users u ≡ some c
      → (w' : World hash O server_id) × (stop_reading hash O server_id c w ≡ some w')
        × ((w'.heap.channel c).closed ≡ true)
        × (push_single_msg hash w'.server (record { user_id = u; msg = msg }) w'.heap
            ≡ some (empty_reply, push_channel msg c w'.heap))
  unfolding close push_single_msg push_in_bucket push_to_user channel
  Run-roomless_stays c u msg t ticket mapped =
      let v = Run-Stands hash O server_id more o es n w t in
      let (b, at, found) = own v hash u in
      let f = v.floors.floor (own_bucket hash more u) b at in
      (
        record w { heap = close c w.heap },
        stop_roomless hash O server_id c w ((v.ticket c u no_room ticket).bare refl),
        ground arith,
        rw (found, f.users u ∙ mapped) refl,
      )
