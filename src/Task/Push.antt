-- ===== src/Task/Push.antt =====
-- task/push.go and the pushes of task/rpc.go: a queued message becomes a call of the connect layer,
-- at once for a room and through the push channels for a single user.
pub mod Routing
use yoyichat.Base.{
  ℕ, zero, suc, ◌+◌, ◌%◌, Bool, true, false, Option, none, some, List, [], ◌∷◌, ◌++◌, map, ltb,
  if◌then◌else◌, length, get_elem?, set,
}
use yoyichat.Base.Bytes.{Bytes, codes}
use yoyichat.Base.Int.{ℤ, pos, int32, ◌==ℤ◌}
use yoyichat.Messages.{
  Msg, PushMsgRequest, PushRoomMsgRequest, RedisMsg, Table, msg_version, op_single_send,
  op_room_send, op_room_count_send, op_room_info_send,
}
use yoyichat.Task.Registry.{
  RpcConnectClient, Found, found, no_server, out_of_range, get_rpc_client_by_server_id,
  get_all_connect_type_rpc_client,
}

pub record PushParams : Type 0 where
  pub server_id : Bytes
  pub user_id : ℤ
  pub msg : Bytes

-- A call of a client: the method, and what it is given.
pub data Call : Type 0 where
  push_single_msg : ℕ → PushMsgRequest → Call
  push_room_msg push_room_count push_room_info : ℕ → PushRoomMsgRequest → Call

pub record TaskState : Type 0 where
  pub clients : RpcConnectClient
  pub push_channel : List (List PushParams)
  pub calls : List Call

-- What a step ends in: it returns, it waits for room in a push channel, or it panics.
pub data Outcome : Type 0 where
  done : TaskState → Outcome
  blocked : Outcome
  panics : Outcome

pub record RedisRoomCountMsg : Type 0 where
  pub count : ℤ
  pub op : ℤ

pub record RedisRoomInfo : Type 0 where
  pub op : ℤ
  pub room_id : ℤ
  pub count : ℤ
  pub room_user_info : Table

-- Protocol Buffers: `none` is an error of Marshal. Unmarshal gives what it leaves in the message.
pub record Codec : Type 0 where
  pub unmarshal : Bytes → RedisMsg
  pub marshal_count : RedisRoomCountMsg → Option Bytes
  pub marshal_info : RedisRoomInfo → Option Bytes

-- what `seq` stands for is the text that GetSnowflakeId returns
unfoldable pub message : ℤ → Bytes → Bytes → Msg
message op seq body = record { ver = msg_version; op = op; seq = seq; body = body }

unfoldable pub call_found : Found → PushMsgRequest → TaskState → Outcome
call_found (found c) req t = done (record t { calls = t.calls ++ push_single_msg c req ∷ [] })
call_found (no_server e) req t = panics
call_found out_of_range req t = panics

-- An error of the lookup is only logged: the call that follows is made on a nil client.
unfoldable pub push_single_to_connect : Bytes → Bytes → ℤ → Bytes → TaskState → Outcome
push_single_to_connect seq server_id user_id msg t =
    let req : PushMsgRequest = record {
      user_id = int32 user_id;
      msg = message op_single_send seq msg;
    } in
    let (f, rc) = get_rpc_client_by_server_id server_id t.clients in
    call_found f req (record t { clients = rc })

-- the loop over the clients of all servers, in the order `ids` of Go's `range`
unfoldable pub call_all : (ℕ → Call) → List Bytes → TaskState → TaskState
call_all call ids t =
    let (cs, rc) = get_all_connect_type_rpc_client ids t.clients in
    record t { clients = rc; calls = t.calls ++ map call cs }

unfoldable pub broadcast_room_to_connect : Bytes → List Bytes → ℤ → Bytes → TaskState → TaskState
broadcast_room_to_connect seq ids room_id msg =
    let req : PushRoomMsgRequest = record {
      room_id = int32 room_id;
      msg = message op_room_send seq msg;
    } in
    call_all (λ c. push_room_msg c req) ids

module _ (codec : Codec) where
  unfoldable pub broadcast_room_count_to_connect :
      Bytes → List Bytes → ℤ → ℤ → TaskState → TaskState
  broadcast_room_count_to_connect seq ids room_id count t =
      elim (codec.marshal_count (record { count = int32 count; op = op_room_count_send })) [
        | none ↦ t
        | some body ↦
            (let req : PushRoomMsgRequest = record {
              room_id = int32 room_id;
              msg = message op_room_count_send seq body;
            } in
              call_all (λ c. push_room_count c req) ids t)
      ]

  unfoldable pub broadcast_room_info_to_connect :
      Bytes → List Bytes → ℤ → Table → TaskState → TaskState
  broadcast_room_info_to_connect seq ids room_id info t =
      elim (codec.marshal_info (record {
        op = op_room_info_send;
        room_id = int32 room_id;
        count = int32 (pos (length info));
        room_user_info = info;
      })) [
        | none ↦ t
        | some body ↦
            (let req : PushRoomMsgRequest = record {
              room_id = int32 room_id;
              msg = message op_room_info_send seq body;
            } in
              call_all (λ c. push_room_info c req) ids t)
      ]

-- a send into push channel `num`, of the capacity `size`
unfoldable pub send_params : ℕ → Option (List PushParams) → ℕ → PushParams → TaskState → Outcome
send_params num none size p t = panics
send_params num (some queue) size p t =
    if ltb (length queue) size
    then done (record t { push_channel = set t.push_channel num (queue ++ p ∷ []) })
    else blocked

-- `PushChan` and `PushChanSize` of the configuration
pub record TaskBase : Type 0 where
  pub push_chan : ℕ
  pub push_chan_size : ℕ

module _ (codec : Codec) (conf : TaskBase) where
  -- the switch on the operation of a message; `rand` is what rand.Int() returns
  unfoldable pub push_redis_msg : ℕ → Bytes → List Bytes → RedisMsg → TaskState → Outcome
  push_redis_msg rand seq ids m t =
      if m.op ==ℤ op_single_send
      then (elim conf.push_chan [
        | zero ↦ panics
        | suc n ↦
            send_params (rand % suc n) (get_elem? t.push_channel (rand % suc n)) conf.push_chan_size
              (record { server_id = m.server_id; user_id = m.user_id; msg = m.msg }) t
      ])
      else if m.op ==ℤ op_room_send
      then done (broadcast_room_to_connect seq ids m.room_id m.msg t)
      else if m.op ==ℤ op_room_count_send
      then done (broadcast_room_count_to_connect codec seq ids m.room_id m.count t)
      else if m.op ==ℤ op_room_info_send
      then done (broadcast_room_info_to_connect codec seq ids m.room_id m.room_user_info t)
      else done t

  -- `Task.Push`
  unfoldable pub push : ℕ → Bytes → List Bytes → Bytes → TaskState → Outcome
  push rand seq ids msg = push_redis_msg rand seq ids (codec.unmarshal msg)

  -- One round of the consumer: BRPop answers with the key and a value, or with nothing.
  unfoldable pub consume : ℕ → Bytes → List Bytes → List Bytes → TaskState → Outcome
  consume rand seq ids (key ∷ value ∷ rest) t = push rand seq ids value t
  consume rand seq ids _ t = done t

-- One round of `processSinglePush` over push channel `num`; an empty channel lets it wait.
unfoldable pub process_head : ℕ → Bytes → Option (List PushParams) → TaskState → Outcome
process_head num seq (some (p ∷ queue)) t =
    push_single_to_connect seq p.server_id p.user_id p.msg
      (record t { push_channel = set t.push_channel num queue })
process_head num seq _ t = blocked

unfoldable pub process_single_push : ℕ → Bytes → TaskState → Outcome
process_single_push num seq t = process_head num seq (get_elem? t.push_channel num) t
