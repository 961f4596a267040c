-- ===== src/Messages.antt =====
-- The messages that the layers exchange: the structs of pb/connect_pb, pb/logic_pb and pb/task_pb,
-- and the codes of config/config.go. An int32 field is the integer that it holds.
use yoyichat.Base.{ℕ, List}
use yoyichat.Base.{[]}
use yoyichat.Base.Int.{ℤ, pos}
use yoyichat.Base.Bytes.{Bytes, codes}

abbrev pub success_reply_code : ℤ
success_reply_code = pos 0

abbrev pub fail_reply_code : ℤ
fail_reply_code = pos 1

abbrev pub success_reply_msg : Bytes
success_reply_msg = codes "success"

abbrev pub queue_name : Bytes
queue_name = codes "yoyichat_queue"

abbrev pub redis_base_valid_time : ℕ
redis_base_valid_time = 86400

abbrev pub redis_prefix : Bytes
redis_prefix = codes "yoyichat_"

abbrev pub redis_room_prefix : Bytes
redis_room_prefix = codes "yoyichat_room_"

abbrev pub redis_room_online_prefix : Bytes
redis_room_online_prefix = codes "yoyichat_room_online_count_"

abbrev pub msg_version : ℤ
msg_version = pos 1

abbrev pub op_single_send : ℤ
op_single_send = pos 2

abbrev pub op_room_send : ℤ
op_room_send = pos 3

abbrev pub op_room_count_send : ℤ
op_room_count_send = pos 4

abbrev pub op_room_info_send : ℤ
op_room_info_send = pos 5

abbrev pub op_build_tcp_conn : ℤ
op_build_tcp_conn = pos 6

pub record Msg : Type 0 where
  pub ver : ℤ
  pub op : ℤ
  pub seq : Bytes
  pub body : Bytes

pub record PushMsgRequest : Type 0 where
  pub user_id : ℤ
  pub msg : Msg

pub record PushRoomMsgRequest : Type 0 where
  pub room_id : ℤ
  pub msg : Msg

pub record ConnectRequest : Type 0 where
  pub auth_token : Bytes
  pub room_id : ℤ
  pub server_id : Bytes

pub record DisConnectRequest : Type 0 where
  pub room_id : ℤ
  pub user_id : ℤ

-- `SendMsg`, the request of the four push calls of the logic layer
pub record SendMsg : Type 0 where
  pub msg : Bytes
  pub from_user_id : ℤ
  pub from_user_name : Bytes
  pub to_user_id : ℤ
  pub to_user_name : Bytes
  pub room_id : ℤ
  pub op : ℤ
  pub create_time : Bytes

abbrev pub empty_send : SendMsg
empty_send = record {
  msg = [];
  from_user_id = pos 0;
  from_user_name = [];
  to_user_id = pos 0;
  to_user_name = [];
  room_id = pos 0;
  op = pos 0;
  create_time = [];
}

pub record SendTcpMsg : Type 0 where
  pub msg : Bytes
  pub from_user_id : ℤ
  pub from_user_name : Bytes
  pub room_id : ℤ
  pub op : ℤ
  pub auth_token : Bytes

-- the fields of a Redis hash, `map[string]string`
abbrev pub Table : Type 0
Table = List (Bytes × Bytes)

-- what the logic layer queues for the task layer
pub record RedisMsg : Type 0 where
  pub op : ℤ
  pub server_id : Bytes
  pub room_id : ℤ
  pub user_id : ℤ
  pub msg : Bytes
  pub count : ℤ
  pub room_user_info : Table

abbrev pub empty_redis_msg : RedisMsg
empty_redis_msg = record {
  op = pos 0;
  server_id = [];
  room_id = pos 0;
  user_id = pos 0;
  msg = [];
  count = pos 0;
  room_user_info = [];
}

pub record SuccessReply : Type 0 where
  pub code : ℤ
  pub msg : Bytes
