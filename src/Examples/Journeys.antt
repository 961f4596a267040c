-- ===== src/Examples/Journeys.antt =====
-- A message for user 9, who is on the connect instance s2.
use yoyichat.Base.{ℕ, ◌≡◌, refl, none, some, [], ◌∷◌, arith, ok}
use yoyichat.Base.Bytes.{Bytes, codes, same}
use yoyichat.Base.Int.{pos, int32}
use yoyichat.Base.Assoc.{lookup, bytes_key}
use yoyichat.Messages.{
  SendMsg, ConnectRequest, PushMsgRequest, empty_send, queue_name, success_reply_code,
}
use yoyichat.Logic.Redis.{plain, plain-IsUp, Db, absent, list_value}
use yoyichat.Logic.Publish
use yoyichat.Logic.Publish.{publish, single_send}
use yoyichat.Logic.Rooms
use yoyichat.Logic.Rooms.{connect_user}
use yoyichat.Task.Push
use yoyichat.Task.Push.{Codec, TaskBase, TaskState, done, push_single_msg, process_single_push}
use yoyichat.Task.Push.Routing.{Serves, IsClientOf}
use yoyichat.Task.Registry.{RpcConnectClient}
use yoyichat.Task.Queue.{consume_queue}
use yoyichat.Task.Queue.Order.{Queue, publish-Queue, consume_queue-Queue}
use yoyichat.Connect.Heap.{Heap, new_channel, new_room, push_channel}
use yoyichat.Connect.Bucket.{Bucket}
use yoyichat.Connect.Server
use yoyichat.Connect.Server.{Server, bucket, bucket_at, with_bucket, index_of, empty_reply}
use yoyichat.Connect.Server.Delivery.{joined, joined_heap}
use yoyichat.Base.{◌≢◌, err, if◌then◌else◌, false}
use yoyichat.Base.Bytes.{same_refl}
use yoyichat.Base.Int.{not_positive}
use yoyichat.Base.Bytes.Decimal.{atoi, itoa, atoi_value, unsigned_value, int_value, scan_uint64}
use yoyichat.Tools.{no_data, success_with_msg}
use yoyichat.Logic.Redis.{table_value, text_value}
use yoyichat.Logic.Users.{UserDb}
use yoyichat.Logic.Keys.{get_session_name, get_user_key}
use yoyichat.Logic.Session.{user_data}
use yoyichat.Api.Handler.{FormPush, single_req, to_user_id_int}
use yoyichat.Api.Routes.{Binder, answer, serve}
use yoyichat.Journey.Calls.{logic_client}
use yoyichat.Journey.Post.{message_of, post_push, serve-Queue}
use yoyichat.Journey.Whole.{request_for, connect_user-push}

abbrev s2 : Bytes
s2 = codes "s2"

abbrev hi : Bytes
hi = codes "hi"

-- codecs for one message
abbrev logic : Publish.Codec
logic = record { marshal_redis_msg = λ m. ok (codes "m"); marshal_send_msg = λ m. ok hi }

abbrev task : Codec
task = record {
  unmarshal = λ bytes. single_send s2 (pos 9) hi;
  marshal_count = λ m. none;
  marshal_info = λ m. none;
}

abbrev one_waits : Db
one_waits k = list_value (codes "a" ∷ [])

publish-Queue_example :
    ((publish plain logic (single_send s2 (pos 9) hi) one_waits).0 ≡ none)
    × Queue
        ((publish plain logic (single_send s2 (pos 9) hi) one_waits).1 queue_name)
        (codes "a" ∷ codes "m" ∷ [])
publish-Queue_example =
    publish-Queue plain plain-IsUp logic (single_send s2 (pos 9) hi) (codes "m") (codes "a" ∷ [])
      one_waits refl refl

abbrev only_s2 : RpcConnectClient
only_s2 = record {
  server_ins_map = (s2, record { server_type = codes "ws"; server_id = s2; client = 20 } ∷ []) ∷ [];
  index_map = [];
}

abbrev base : TaskBase
base = record { push_chan = 2; push_chan_size = 50 }

abbrev idle : TaskState
idle = record { clients = only_s2; push_channel = [] ∷ [] ∷ []; calls = [] }

-- two messages, of which "a" came first
abbrev two_wait : Db
two_wait k = list_value (codes "z" ∷ codes "a" ∷ [])

consume_queue-Queue_example :
    ((consume_queue plain task base 3 [] [] idle two_wait).0
      ≡ Push.push task base 3 [] [] (codes "a") idle)
    × Queue ((consume_queue plain task base 3 [] [] idle two_wait).1 queue_name) (codes "z" ∷ [])
consume_queue-Queue_example =
    consume_queue-Queue plain plain-IsUp task base 3 [] [] idle (codes "a") (codes "z" ∷ [])
      two_wait refl

abbrev coming : ConnectRequest
coming = record { auth_token = codes "t"; room_id = pos 7; server_id = s2 }

abbrev nothing_stored : Db
nothing_stored k = absent

abbrev connected : Db
connected = (connect_user plain logic (pos 9) (codes "ann") coming nothing_stored).1

abbrev for_nine : SendMsg
for_nine = record empty_send { msg = hi; to_user_id = pos 9 }

abbrev no_rooms : Heap
no_rooms = record { channel = λ c. new_channel 2; room = λ r. new_room (pos 0); next_room = 0 }

abbrev no_users : Bucket
no_users = record {
  chs = [];
  options = record { channel_size = 8; room_size = 8; routine_amount = 1; routine_size = 4 };
  rooms = [];
  routines = [] ∷ [];
  routines_num = 0;
}

abbrev instance_two : Server
instance_two = record { buckets = no_users ∷ []; bucket_idx = 1 }

abbrev hash : Bytes → ℕ
hash s = 6

bucket_of_nine : bucket hash instance_two (pos 9) ≡ some (0, no_users)
unfolding bucket bucket_at with_bucket index_of
bucket_of_nine = refl

nine_fits : int32 (pos 9) ≡ pos 9
unfolding int32
nine_fits = refl

s2_listed :
    lookup s2 only_s2.server_ins_map
    ≡ some (record { server_type = codes "ws"; server_id = s2; client = 20 } ∷ [])
unfolding lookup same
s2_listed = refl

s2-Serves : Serves only_s2.server_ins_map s2
s2-Serves = record {
  first = record { server_type = codes "ws"; server_id = s2; client = 20 };
  others = [];
  at = s2_listed;
}

abbrev the_call : PushMsgRequest
the_call = request_for (pos 9) [] hi

connect_user-push_example :
    ((Rooms.push plain logic for_nine connected).0 ≡ (success_reply_code, none))
    × (t₁ t₂ : TaskState) × (client : ℕ) × ((consume_queue plain task base 3 [] [] idle
          (Rooms.push plain logic for_nine connected).1).0
        ≡ done t₁)
    × (process_single_push 1 [] t₁ ≡ done t₂)
    × (t₂.calls ≡ push_single_msg client the_call ∷ [])
    × IsClientOf only_s2.server_ins_map s2 client
    × (Server.push_single_msg hash
          (joined hash instance_two (pos 9) (pos 7) 0 0 no_users no_rooms)
          the_call
          (joined_heap hash instance_two (pos 9) (pos 7) 0 0 no_users no_rooms)
        ≡ some (
          empty_reply,
          push_channel the_call.msg 0
              (joined_heap hash instance_two (pos 9) (pos 7) 0 0 no_users no_rooms),
        ))
connect_user-push_example =
    connect_user-push plain plain-IsUp logic task base hash 3 1 [] [] (codes "ann") hi (codes "m")
      coming for_nine nothing_stored idle instance_two 0 0 no_users no_rooms refl nine_fits
      bucket_of_nine refl refl refl refl refl (omega arith) refl s2-Serves

abbrev posted : FormPush
posted = record { msg = hi; to_user_id = codes "9"; room_id = pos 7; auth_token = codes "t" }

abbrev nobody : UserDb
nobody = record {
  State = Unit;
  take_by_name = λ name s. none;
  take_by_id = λ id s. none;
  create = λ u s. (err (codes "closed"), s);
}

-- every body is this form
abbrev one_form : Binder
one_form = record {
  session = λ body. some (codes "t");
  credentials = λ body. err (codes "EOF");
  token = λ body. err (codes "EOF");
  push = λ body. ok posted;
  room = λ body. err (codes "EOF");
  room_id = λ body. err (codes "EOF");
}

-- the session of user 3, an empty queue, and s2 under every other key
abbrev ann_online : Db
ann_online k =
    if same k (get_session_name (codes "t"))
    then table_value (user_data (pos 3) (codes "ann"))
    else if same k queue_name
    then absent
    else text_value s2

ann_live : ann_online (get_session_name (codes "t")) ≡ table_value (user_data (pos 3) (codes "ann"))
ann_live = rw (same_refl (get_session_name (codes "t"))) refl

nothing_waits : Queue (ann_online queue_name) []
unfolding same get_session_name
nothing_waits = refl

three_positive : not_positive (int32 (pos 3)) ≡ false
unfolding int32
three_positive = refl

nine_on_s2 :
    ann_online (
      get_user_key (
        itoa
          (message_of plain plain-IsUp nobody logic [] [] posted
            (codes "ann")
            (pos 3)
            tt).to_user_id))
    ≡ text_value s2
unfolding same get_session_name get_user_key itoa atoi int32 single_req to_user_id_int atoi_value
    unsigned_value int_value scan_uint64
nine_on_s2 = refl

ann_named : codes "ann" ≢ []
ann_named = ground arith

serve-Queue_example :
    ((serve
        (logic_client plain nobody logic [] [])
        one_form
        (λ s. s)
        (post_push [])
        (record { users = tt; redis = ann_online })).0
      ≡ answer (success_with_msg (codes "ok") no_data) ∷ [])
    × Queue
        ((serve
            (logic_client plain nobody logic [] [])
            one_form
            (λ s. s)
            (post_push [])
            (record { users = tt; redis = ann_online })).1.redis
          queue_name)
        (codes "m" ∷ [])
serve-Queue_example =
    serve-Queue plain plain-IsUp nobody logic [] [] posted (codes "ann") (pos 3) tt one_form
      (λ s. s) [] ann_online s2 hi (codes "m") [] refl refl ann_live three_positive ann_named
      nine_on_s2 refl refl nothing_waits
