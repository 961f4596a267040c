-- ===== src/Logic/Publish.antt =====
-- The four publish functions of logic/publish.go: each marshals one message and pushes it on the left
-- of the queue.
use yoyichat.Base.{Option, some, Result, ok, err, length}
use yoyichat.Base.Bytes.{Bytes}
use yoyichat.Base.Int.{ℤ, pos, int32}
use yoyichat.Messages.{
  RedisMsg, SendMsg, Table, empty_redis_msg, queue_name, op_single_send, op_room_send,
  op_room_count_send, op_room_info_send,
}
use yoyichat.Logic.Redis.{Redis, lpush, err_of}

-- Protocol Buffers
pub record Codec : Type 0 where
  pub marshal_redis_msg : RedisMsg → Result Bytes
  pub marshal_send_msg : SendMsg → Result Bytes

-- the four messages
unfoldable pub single_send : Bytes → ℤ → Bytes → RedisMsg
single_send server_id to_user_id msg = record empty_redis_msg {
  op = op_single_send;
  server_id = server_id;
  msg = msg;
  user_id = int32 to_user_id;
}

unfoldable pub room_send : ℤ → Table → Bytes → RedisMsg
room_send room_id info msg = record empty_redis_msg {
  op = op_room_send;
  room_id = int32 room_id;
  count = int32 (pos (length info));
  msg = msg;
  room_user_info = info;
}

unfoldable pub room_count : ℤ → ℤ → RedisMsg
room_count room_id count = record empty_redis_msg {
  op = op_room_count_send;
  room_id = int32 room_id;
  count = int32 count;
}

unfoldable pub room_info : ℤ → Table → RedisMsg
room_info room_id info = record empty_redis_msg {
  op = op_room_info_send;
  room_id = int32 room_id;
  count = int32 (pos (length info));
  room_user_info = info;
}

module _ (R : Redis) (codec : Codec) where
  open R use {State, run}

  unfoldable pub push_marshalled : Result Bytes → State → Option Bytes × State
  push_marshalled (err e) s = (some e, s)
  push_marshalled (ok bytes) s = let (a, s') = run (lpush queue_name bytes) s in (err_of a, s')

  -- the error, if any, and the server's state
  unfoldable pub publish : RedisMsg → State → Option Bytes × State
  unfolding push_marshalled
  publish msg = push_marshalled (codec.marshal_redis_msg msg)

  unfoldable pub redis_publish_single_send : Bytes → ℤ → Bytes → State → Option Bytes × State
  redis_publish_single_send server_id to_user_id msg =
      publish (single_send server_id to_user_id msg)

  -- every caller passes the size of the table as the count
  unfoldable pub redis_publish_room_send : ℤ → Table → Bytes → State → Option Bytes × State
  redis_publish_room_send room_id info msg = publish (room_send room_id info msg)

  unfoldable pub redis_publish_room_count : ℤ → ℤ → State → Option Bytes × State
  redis_publish_room_count room_id count = publish (room_count room_id count)

  unfoldable pub redis_publish_room_info : ℤ → Table → State → Option Bytes × State
  redis_publish_room_info room_id info = publish (room_info room_id info)
