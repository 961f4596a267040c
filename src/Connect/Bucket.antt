-- ===== src/Connect/Bucket.antt =====
-- connect/bucket.go: a bucket maps users to channels and room ids to rooms, and hands the messages
-- for rooms to its routines in turn. Each call is one step here. The locks do not ensure that: Put lets
-- the lock of the bucket go before it takes that of the room, and DeleteChannel takes the read lock alone.
-- Connect/Races is about what may come between.
pub mod Routing
use yoyichat.Base.{
  ℕ, zero, suc, ◌+◌, ◌%◌, ◌^◌, Bool, true, false, ◌&&◌, Option, none, some, List, [], ◌∷◌, ◌++◌,
  if◌then◌else◌, ltb, length, get_elem?, set, replicate,
}
use yoyichat.Base.Bytes.{Bytes}
use yoyichat.Base.Int.{ℤ, ◌==ℤ◌}
use yoyichat.Base.Assoc.{Assoc, lookup, insert, delete, int_key}
use yoyichat.Messages.{Msg, PushRoomMsgRequest}
use yoyichat.Connect.Heap.{Heap, Channel, no_room, new_room, put_room, set_room, set_user}
use yoyichat.Connect.Room

pub record BucketOptions : Type 0 where
  pub channel_size : ℕ
  pub room_size : ℕ
  pub routine_amount : ℕ
  pub routine_size : ℕ

-- `routines` holds what waits in each routine's Go channel.
pub record Bucket : Type 0 where
  pub chs : Assoc ℤ ℕ
  pub options : BucketOptions
  pub rooms : Assoc ℤ ℕ
  pub routines : List (List PushRoomMsgRequest)
  pub routines_num : ℕ

unfoldable pub new_bucket : BucketOptions → Bucket
new_bucket o = record {
  chs = [];
  options = o;
  rooms = [];
  routines = replicate o.routine_amount [];
  routines_num = 0;
}

-- `Bucket.Room` and `Bucket.Channel`: nil on a missing key
unfoldable pub room : Bucket → ℤ → Option ℕ
room b rid = lookup rid b.rooms

unfoldable pub channel : Bucket → ℤ → Option ℕ
channel b user_id = lookup user_id b.chs

-- the room of the id, a new one where there is none
unfoldable pub find_room : ℤ → Bucket → Heap → ℕ × Bucket × Heap
unfolding put_room
find_room room_id b h = elim (lookup room_id b.rooms) [
  | some r ↦ (r, b, h)
  | none ↦ (
    h.next_room,
    record b { rooms = insert room_id h.next_room b.rooms },
    record (put_room h.next_room (new_room room_id) h) { next_room = suc h.next_room },
  )
]

unfoldable pub register : ℤ → ℕ → Bucket → Heap → Bucket × Heap
register user_id c b h = (record b { chs = insert user_id c b.chs }, set_user c user_id h)

unfoldable pub put : Bucket → ℤ → ℤ → ℕ → Heap → Option Bytes × Bucket × Heap
put b user_id room_id c h =
    if room_id ==ℤ no_room
    then (let (b', h') = register user_id c b h in (none, b', h'))
    else (let (r, b₁, h₁) = find_room room_id b h in
        let (b₂, h₂) = register user_id c b₁ (set_room c (some r) h₁) in
        let (err, h₃) = Room.put r c h₂ in (err, b₂, h₃))

-- the room part of `DeleteChannel`: an emptied room leaves the map
unfoldable pub leave_room : Option ℕ → ℕ → Bucket → Heap → Bucket × Heap
leave_room none c b h = (b, h)
leave_room (some r) c b h =
    let (empty, h') = Room.delete_channel r c h in
    if empty && (h'.room r).drop
    then (record b { rooms = delete (h'.room r).id b.rooms }, h')
    else (b, h')

-- `ch` is what the map holds for the user, not the argument. `none` is the panic of
-- `b.chs[ch.userId].Room` where the map has no such key.
unfoldable pub delete_found : Bucket → ℕ → Heap → Option (Bucket × Heap)
delete_found b c h = elim (lookup (h.channel c).user_id b.chs) [
  | none ↦ none
  | some d ↦
      some
        (leave_room (h.channel d).room c (record b { chs = delete (h.channel c).user_id b.chs }) h)
]

unfoldable pub delete_channel : Bucket → ℕ → Heap → Option (Bucket × Heap)
delete_channel b c h = elim (lookup (h.channel c).user_id b.chs) [
  | none ↦ some (b, h)
  | some d ↦ delete_found b d h
]

-- What becomes of a send: `blocked` waits for the routine, `panics` is a division by zero or an
-- index out of range.
pub data Sending : Type 0 where
  sent : Bucket → Sending
  blocked : Sending
  panics : Sending

unfoldable pub enqueue :
    Bucket → ℕ → Option (List PushRoomMsgRequest) → PushRoomMsgRequest → Sending
enqueue b num none req = panics
enqueue b num (some queue) req =
    if ltb (length queue) b.options.routine_size
    then sent (record b { routines = set b.routines num (queue ++ req ∷ []) })
    else blocked

-- the send, for the number of routines
unfoldable pub broadcast_at : ℕ → Bucket → PushRoomMsgRequest → Sending
broadcast_at zero b req = panics
broadcast_at (suc n) b req =
    let count = (b.routines_num + 1) % 2 ^ 64 in
    let num = count % suc n in
    enqueue (record b { routines_num = count }) num (get_elem? b.routines num) req

-- `atomic.AddUint64` wraps around
unfoldable pub broadcast_room : Bucket → PushRoomMsgRequest → Sending
broadcast_room b req = broadcast_at b.options.routine_amount b req

-- One round of `PushRoom`, for the request that it received; `none` is a push that has not ended.
unfoldable pub push_room : ℕ → Bucket → PushRoomMsgRequest → Heap → Option Heap
push_room fuel b req h = elim (room b req.room_id) [
  | none ↦ some h
  | some r ↦ Room.push fuel r req.msg h
]

-- `arg = <-ch` in routine `num`: `none` where the routine waits, since its Go channel is empty, or where
-- there is no such routine.
unfoldable pub receive :
    Bucket → ℕ → Option (List PushRoomMsgRequest) → Option (PushRoomMsgRequest × Bucket)
receive b num none = none
receive b num (some []) = none
receive b num (some (req ∷ rest)) = some (req, record b { routines = set b.routines num rest })

unfoldable pub push_received :
    ℕ → Option (PushRoomMsgRequest × Bucket) → Heap → Option (Bucket × Heap)
push_received fuel none h = none
push_received fuel (some (req, b)) h = elim (push_room fuel b req h) [
  | none ↦ none
  | some h' ↦ some (b, h')
]

-- a whole round of `PushRoom` in routine `num`
unfoldable pub routine : ℕ → ℕ → Bucket → Heap → Option (Bucket × Heap)
routine fuel num b h = push_received fuel (receive b num (get_elem? b.routines num)) h
