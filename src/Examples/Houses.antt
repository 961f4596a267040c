-- ===== src/Examples/Houses.antt =====
-- A server with two buckets: users 1 and 2 come to room 7, each in a bucket of its own, and user 3 comes
-- to no room.
use yoyichat.Base.{
  ℕ, suc, ◌≡◌, refl, true, false, Option, none, some, List, [], ◌∷◌, arith, replicate, length,
  get_elem?, set,
}
use yoyichat.Base.Bytes.{Bytes, codes}
use yoyichat.Base.Bytes.Decimal.{itoa}
use yoyichat.Base.Int.{ℤ, pos}
use yoyichat.Base.Assoc.{lookup, insert, int_key}
use yoyichat.Messages.{Msg, PushRoomMsgRequest, ConnectRequest}
use yoyichat.Connect.Heap.{
  Heap, new_channel, new_room, no_room, set_room, set_user, set_prev?, set_next, set_prev, put_room,
  push_channel,
}
use yoyichat.Connect.Bucket.{
  Bucket, BucketOptions, new_bucket, find_room, register, routine, broadcast_room, broadcast_at,
  enqueue,
}
use yoyichat.Connect.Bucket
use yoyichat.Connect.Room.{link}
use yoyichat.Connect.Room
use yoyichat.Connect.Server.{
  World, Operator, Round, again, returns, rescans, crashes, new_server, put_bucket, connect_channel,
  after_connect, insert_channel, after_put, bucket, bucket_at, with_bucket, index_of, stop_reading,
  push_single_msg, empty_reply, Broadcast, done, push_room_msg, broadcast_all, after_bucket,
}
use yoyichat.Connect.House.Floors.{Floors}
use yoyichat.Connect.Hall.Buffers.{SameBuffers}
use yoyichat.Connect.House.Arrival.{IsIn}
use yoyichat.Connect.House.Presence.{Run-member}
use yoyichat.Connect.House.Service.{
  Run-Floors, Run-connect_channel, Run-stop_reading, Run-push_single_msg, Run-roomless_stays,
}
use yoyichat.Connect.House.Broadcasts.{SendsAll, Run-push_room_msg, Run-routine}
use yoyichat.Connect.Room.Delivery.{Delivered}
use yoyichat.Connect.House.Steps.{
  Event, came, ended, house_after, own_bucket, dial, Run, opens, connects, broadcasts,
}

abbrev hash : Bytes → ℕ
hash [] = 0
hash (b ∷ s) = b

-- the token's length is the user
abbrev by_token : ConnectRequest → ℕ → (ℤ × Option Bytes) × ℕ
by_token req s = ((pos (length req.auth_token), none), suc s)

abbrev operator : Operator
operator = record {
  State = ℕ;
  connect = by_token;
  disconnect = λ req s. (none, suc s);
  push_room = λ req s. s;
}

abbrev sid : Bytes
sid = codes "ws-1"

abbrev options : BucketOptions
options = record { channel_size = 4; room_size = 4; routine_amount = 1; routine_size = 4 }

abbrev dark : Heap
dark = record { channel = λ c. new_channel 2; room = λ r. new_room (pos 0); next_room = 0 }

abbrev Layer : Type 0
Layer = World hash operator sid

abbrev opened : Layer
opened = record { server = new_server (replicate 2 (new_bucket options)); heap = dark; logic = 0 }

abbrev outcome : Layer → Round hash operator sid → Layer
outcome w (again w') = w'
outcome w (rescans w') = w'
outcome w (returns w') = w'
outcome w crashes = w

abbrev connected : Bytes → ℤ → ℕ → Layer → Layer
connected token k n w = outcome w (connect_channel hash operator sid false token k n (dial n 2 w))

abbrev one : Layer
one = connected (codes "a") (pos 7) 0 opened

abbrev two : Layer
two = connected (codes "bb") (pos 7) 1 one

abbrev three : Layer
three = connected (codes "ccc") no_room 2 two

granted_one :
    connect_channel hash operator sid false (codes "a") (pos 7) 0 (dial 0 2 opened) ≡ again one
unfolding connect_channel after_connect insert_channel after_put bucket bucket_at with_bucket
    index_of new_server new_bucket put_bucket itoa Bucket.put find_room register Room.put link
    set_user set_room set_next set_prev set_prev? put_room lookup insert new_room new_channel
granted_one = refl

granted_two :
    connect_channel hash operator sid false (codes "bb") (pos 7) 1 (dial 1 2 one) ≡ again two
unfolding connect_channel after_connect insert_channel after_put bucket bucket_at with_bucket
    index_of new_server new_bucket put_bucket itoa Bucket.put find_room register Room.put link
    set_user set_room set_next set_prev set_prev? put_room lookup insert new_room new_channel
granted_two = refl

granted_three :
    connect_channel hash operator sid false (codes "ccc") no_room 2 (dial 2 2 two) ≡ again three
unfolding connect_channel after_connect insert_channel after_put bucket bucket_at with_bucket
    index_of new_server new_bucket put_bucket itoa Bucket.put find_room register Room.put link
    set_user set_room set_next set_prev set_prev? put_room lookup insert new_room new_channel
granted_three = refl

abbrev comings : List Event
comings = came (pos 2) (pos 7) 1 ∷ came (pos 1) (pos 7) 0 ∷ []

two-Run : Run hash operator sid 1 options comings 2 two
two-Run =
    connects {w = one} false (codes "bb") (pos 2) (pos 7) 2 (suc one.logic) two refl refl
      granted_two
      (connects {w = opened} false (codes "a") (pos 1) (pos 7) 2 1 one refl refl granted_one
        (opens dark 0))

abbrev events : List Event
events = came (pos 3) no_room 2 ∷ comings

three-Run : Run hash operator sid 1 options events 3 three
three-Run =
    connects {w = two} false (codes "ccc") (pos 3) no_room 2 (suc two.logic) three refl refl
      granted_three two-Run

abbrev idx : ℤ → ℕ
idx = own_bucket hash 1

Run-Floors_example : Floors 3 three.server.buckets three.heap (house_after idx events).halls
Run-Floors_example = Run-Floors hash operator sid 1 options events 3 three three-Run

-- user 3 comes to room 7
Run-connect_channel_example :
    (w' : Layer) × (b : Bucket) × (connect_channel hash operator sid false
        (codes "ccc")
        (pos 7)
        2
        (dial 2 2 two)
      ≡ again w')
    × (bucket hash w'.server (pos 3) ≡ some (idx (pos 3), b))
    × IsIn (pos 3) (pos 7) 2 b w'.heap
    × SameBuffers (dial 2 2 two).heap w'.heap
    × Run hash operator sid 1 options (came (pos 3) (pos 7) 2 ∷ comings) 3 w'
Run-connect_channel_example =
    Run-connect_channel hash operator sid 1 options comings 2 two false (codes "ccc") (pos 3)
      (pos 7) 2 (suc two.logic) two-Run refl refl

Run-stop_reading_example :
    (w' : Layer) × (stop_reading hash operator sid 0 three ≡ some w')
    × (w'.logic ≡ suc three.logic)
    × SameBuffers three.heap w'.heap
    × Run hash operator sid 1 options (ended 0 ∷ events) 3 w'
Run-stop_reading_example =
    Run-stop_reading hash operator sid 1 options events 3 three 0 three-Run (omega arith)

abbrev hello : Msg
hello = record { ver = pos 1; op = pos 3; seq = []; body = codes "hello" }

Run-push_single_msg_example :
    push_single_msg hash three.server (record { user_id = pos 2; msg = hello }) three.heap
    ≡ some (empty_reply, push_channel hello 1 three.heap)
unfolding itoa
Run-push_single_msg_example =
    Run-push_single_msg hash operator sid 1 options events 3 three (pos 2) hello three-Run

Run-roomless_stays_example :
    (w' : Layer) × (stop_reading hash operator sid 2 three ≡ some w')
    × ((w'.heap.channel 2).closed ≡ true)
    × (push_single_msg hash w'.server (record { user_id = pos 3; msg = hello }) w'.heap
        ≡ some (empty_reply, push_channel hello 2 w'.heap))
unfolding itoa
Run-roomless_stays_example =
    Run-roomless_stays hash operator sid 1 options events 3 three 2 (pos 3) hello three-Run refl
      refl

-- the bucket of user 1
abbrev bucket_at_one : Layer → Bucket
bucket_at_one w = elim (get_elem? w.server.buckets 1) [ none ↦ new_bucket options | some b ↦ b ]

held : get_elem? three.server.buckets 1 ≡ some (bucket_at_one three)
unfolding connect_channel after_connect insert_channel after_put bucket bucket_at with_bucket
    index_of new_server new_bucket put_bucket itoa Bucket.put find_room register Room.put link
    set_user set_room set_next set_prev set_prev? put_room lookup insert new_room new_channel
held = refl

Run-member_example :
    (u : ℤ) × (r : ℕ) × ((house_after idx events).tickets 0 ≡ some (u, pos 7))
    × (1 ≡ idx u)
    × ((three.heap.channel 0).user_id ≡ u)
    × ((three.heap.channel 0).room ≡ some r)
    × (lookup (pos 7) (bucket_at_one three).rooms ≡ some r)
unfolding itoa
Run-member_example =
    Run-member hash operator sid 1 options events 3 three 1 0 (pos 7) (bucket_at_one three)
      three-Run held refl

abbrev to_room : PushRoomMsgRequest
to_room = record { room_id = pos 7; msg = hello }

Run-push_room_msg_example :
    SendsAll three.server.buckets to_room (push_room_msg three.server to_room).1
Run-push_room_msg_example =
    Run-push_room_msg hash operator sid 1 options events 3 three to_room three-Run (omega arith)

-- the server with the message in its buckets' routines
abbrev sent_buckets : Broadcast → List Bucket
sent_buckets (done bs) = bs
sent_buckets Broadcast.waits = []
sent_buckets Broadcast.fails = []

abbrev queued : Layer
queued = record three {
  server = record three.server { buckets = sent_buckets (push_room_msg three.server to_room).1 };
}

all_sent :
    (push_room_msg three.server to_room).1
    ≡ done (sent_buckets (push_room_msg three.server to_room).1)
unfolding connect_channel after_connect insert_channel after_put bucket bucket_at with_bucket
    index_of new_server new_bucket put_bucket itoa Bucket.put find_room register Room.put link
    set_user set_room set_next set_prev set_prev? put_room lookup insert new_room new_channel
    push_room_msg broadcast_all broadcast_room broadcast_at enqueue after_bucket
all_sent = refl

queued-Run : Run hash operator sid 1 options events 3 queued
queued-Run = broadcasts {w = three} to_room queued.server.buckets all_sent three-Run

held_queued : get_elem? queued.server.buckets 1 ≡ some (bucket_at_one queued)
unfolding connect_channel after_connect insert_channel after_put bucket bucket_at with_bucket
    index_of new_server new_bucket put_bucket itoa Bucket.put find_room register Room.put link
    set_user set_room set_next set_prev set_prev? put_room lookup insert new_room new_channel
    push_room_msg broadcast_all broadcast_room broadcast_at enqueue after_bucket
held_queued = refl

one_waits : get_elem? (bucket_at_one queued).routines 0 ≡ some (to_room ∷ [])
unfolding connect_channel after_connect insert_channel after_put bucket bucket_at with_bucket
    index_of new_server new_bucket put_bucket itoa Bucket.put find_room register Room.put link
    set_user set_room set_next set_prev set_prev? put_room lookup insert new_room new_channel
    push_room_msg broadcast_all broadcast_room broadcast_at enqueue after_bucket
one_waits = refl

Run-routine_example :
    (b' : Bucket) × (h : Heap) × (b'
      ≡ record (bucket_at_one queued) { routines = set (bucket_at_one queued).routines 0 [] })
    × (routine 1 0 (bucket_at_one queued) queued.heap ≡ some (b', h))
    × Delivered hello (0 ∷ []) queued.heap h
    × Run hash operator sid 1 options events 3
        (record queued { server = put_bucket 1 b' queued.server; heap = h })
unfolding itoa
Run-routine_example =
    Run-routine hash operator sid 1 options events 3 queued 1 1 0 (bucket_at_one queued) to_room []
      queued-Run held_queued one_waits (omega arith)
