-- ===== src/Connect/House/Steps.antt =====
-- The life of a connect server (connect/server.go, server_tcp.go, rpc.go, bucket.go): connections
-- come, are refused and end, messages are pushed to users and to rooms, the routines of the buckets and
-- the write loops take them, all in any order. The other layers may change at any time.
use yoyichat.Base.{
  ℕ, suc, ◌<◌, ◌%◌, ◌≡◌, Bool, false, none, some, List, [], ◌∷◌, get_elem?, replicate,
}
use yoyichat.Base.Bytes.{Bytes}
use yoyichat.Base.Bytes.Decimal.{itoa}
use yoyichat.Base.Int.{ℤ, pos, ◌==ℤ◌}
use yoyichat.Messages.{Msg, PushMsgRequest, PushRoomMsgRequest, SuccessReply}
use yoyichat.Connect.Heap.{Heap, update, new_channel, take_message}
use yoyichat.Connect.Bucket.{Bucket, BucketOptions, new_bucket, routine}
use yoyichat.Connect.Server.{
  World, Operator, new_server, put_bucket, push_single_msg, push_room_msg, done, again, returns,
  connect_channel, stop_reading,
}
use yoyichat.Connect.House.{House, empty_house, arrive, depart}

-- a user came to a room id with a channel, or the connection of a channel ended
pub data Event : Type 0 where
  came : (u k : ℤ) (c : ℕ) → Event
  ended : ℕ → Event

-- the house after the events, the last of which is the first of the list
abbrev pub house_after : (ℤ → ℕ) → List Event → House
house_after idx [] = empty_house
house_after idx (came u k c ∷ es) = arrive idx u k c (house_after idx es)
house_after idx (ended c ∷ es) = depart idx c (house_after idx es)

-- the bucket index of a user, where there are `suc more` buckets
abbrev pub own_bucket : (Bytes → ℕ) → ℕ → ℤ → ℕ
own_bucket hash more u = hash (itoa u) % suc more

-- `NewChannel` for a connection
abbrev pub dial :
    {hash : Bytes → ℕ} {O : Operator} {server_id : Bytes}
    → ℕ
    → ℕ
    → World hash O server_id
    → World hash O server_id
dial c size w = record w {
  heap = record w.heap { channel = update w.heap.channel c (new_channel size) };
}

module _ (hash : Bytes → ℕ) (O : Operator) (server_id : Bytes) (more : ℕ) (o : BucketOptions) where
  abbrev Layer : Type 0
  Layer = World hash O server_id

  -- A run of a server of `suc more` buckets, with its events and the number of its channels. A connection
  -- asks once to be connected. That is when its channel is made here; no one else has it before.
  pub data Run : List Event → ℕ → Layer → Type 0 where
    opens :
        (h : Heap) (s : O.State)
        → Run [] 0 (record {
          server = new_server (replicate (suc more) (new_bucket o));
          heap = h;
          logic = s;
        })
    connects :
        {es : List Event} {n : ℕ} {w : Layer} (tcp : Bool) (token : Bytes) (u k : ℤ) (size : ℕ)
        (s : O.State) (w' : Layer)
        → O.connect (record { auth_token = token; room_id = k; server_id = server_id }) w.logic
          ≡ ((u, none), s)
        → (u ==ℤ pos 0) ≡ false
        → connect_channel hash O server_id tcp token k n (dial n size w) ≡ again w'
        → Run es n w
        → Run (came u k n ∷ es) (suc n) w'
    refused :
        {es : List Event} {n : ℕ} {w : Layer} (tcp : Bool) (token : Bytes) (k : ℤ) (size : ℕ)
        (w' : Layer)
        → connect_channel hash O server_id tcp token k n (dial n size w) ≡ returns w'
        → Run es n w
        → Run es (suc n) w'
    ends :
        {es : List Event} {n : ℕ} {w : Layer} (c : ℕ) (w' : Layer)
        → c < n
        → stop_reading hash O server_id c w ≡ some w'
        → Run es n w
        → Run (ended c ∷ es) n w'
    pushes :
        {es : List Event} {n : ℕ} {w : Layer} (req : PushMsgRequest) (reply : SuccessReply)
        (h : Heap)
        → push_single_msg hash w.server req w.heap ≡ some (reply, h)
        → Run es n w
        → Run es n (record w { heap = h })
    broadcasts :
        {es : List Event} {n : ℕ} {w : Layer} (req : PushRoomMsgRequest) (bs : List Bucket)
        → (push_room_msg w.server req).1 ≡ done bs
        → Run es n w
        → Run es n (record w { server = record w.server { buckets = bs } })
    routes :
        {es : List Event} {n : ℕ} {w : Layer} (fuel i num : ℕ) (b b' : Bucket) (h : Heap)
        → get_elem? w.server.buckets i ≡ some b
        → routine fuel num b w.heap ≡ some (b', h)
        → Run es n w
        → Run es n (record w { server = put_bucket i b' w.server; heap = h })
    writes :
        {es : List Event} {n : ℕ} {w : Layer} (c : ℕ) (msg : Msg) (h : Heap)
        → take_message c w.heap ≡ some (msg, h)
        → Run es n w
        → Run es n (record w { heap = h })
    others :
        {es : List Event} {n : ℕ} {w : Layer} (s : O.State)
        → Run es n w
        → Run es n (record w { logic = s })
