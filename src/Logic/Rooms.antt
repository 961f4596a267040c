-- ===== src/Logic/Rooms.antt =====
-- The message and room calls of logic/rpc.go. A call returns the code of its reply, its error and the
-- server's state.
pub mod Counts
pub mod Names
pub mod Guests
pub mod Servers
use yoyichat.Base.{
  ℕ, ◌≡◌, Bool, true, false, not, Option, none, some, List, [], ◌∷◌, if◌then◌else◌, Result, ok, err,
  is_empty,
}
use yoyichat.Base.Bytes.{Bytes, codes, same}
use yoyichat.Base.Bytes.Decimal.{itoa, atoi}
use yoyichat.Base.Int.{ℤ, pos, int32, not_positive, ◌==ℤ◌}
use yoyichat.Messages.{
  Table, SendMsg, ConnectRequest, DisConnectRequest, success_reply_code, fail_reply_code,
  redis_base_valid_time, op_room_send,
}
use yoyichat.Logic.Redis.{
  Redis, Command, Answer, get, hget, hset, hdel, hgetall, set, incr_key, decr_key, err_of, text_of,
  table_of,
}
use yoyichat.Logic.Keys.{
  get_room_user_key, get_room_online_count_key, get_user_key, get_session_name,
}
use yoyichat.Logic.Publish.{
  Codec, redis_publish_single_send, redis_publish_room_send, redis_publish_room_count,
  redis_publish_room_info,
}
use yoyichat.Logic.Session.{field, int_or_zero}

-- the keys of a room and the field of a user
abbrev pub users_of : ℤ → Bytes
users_of room_id = get_room_user_key (itoa room_id)

abbrev pub count_of : ℤ → Bytes
count_of room_id = get_room_online_count_key (itoa room_id)

-- the end of a call that publishes: an error leaves the failure code
abbrev pub finish_publish {ℓ} : {S : Type ℓ} → Option Bytes × S → (ℤ × Option Bytes) × S
finish_publish (some e, s) = ((fail_reply_code, some e), s)
finish_publish (none, s) = ((success_reply_code, none), s)

-- what `PushRoom` marshals
unfoldable pub room_message : Bytes → SendMsg → SendMsg
room_message now req = record req { op = op_room_send; create_time = now }

module _ (R : Redis) (codec : Codec) where
  open R use {State, run}

  unfoldable pub push_marshalled_to : ℤ → Result Bytes → State → (ℤ × Option Bytes) × State
  push_marshalled_to to (err e) s = ((fail_reply_code, some e), s)
  push_marshalled_to to (ok body) s =
      let (a, s1) = run (get (get_user_key (itoa to))) s in
      finish_publish (redis_publish_single_send R codec (text_of a) to body s1)

  unfoldable pub push : SendMsg → State → (ℤ × Option Bytes) × State
  push req = push_marshalled_to req.to_user_id (codec.marshal_send_msg req)

  unfoldable pub publish_marshalled_room :
      ℤ → Table → Result Bytes → State → (ℤ × Option Bytes) × State
  publish_marshalled_room room_id info (err e) s = ((fail_reply_code, some e), s)
  publish_marshalled_room room_id info (ok body) s =
      finish_publish (redis_publish_room_send R codec room_id info body s)

  unfoldable pub push_room : Bytes → SendMsg → State → (ℤ × Option Bytes) × State
  push_room now req s =
      let (a, s1) = run (hgetall (users_of req.room_id)) s in
      elim (err_of a) [
        | some e ↦ ((fail_reply_code, some e), s1)
        | none ↦
            publish_marshalled_room req.room_id (table_of a)
              (codec.marshal_send_msg (room_message now req)) s1
      ]

  -- `Get(…).Int()`: 0 where the key is missing or holds no number; its error is overwritten
  unfoldable pub room_count : ℤ → State → ℤ × State
  room_count room_id s =
      let (a, s1) = run (get (count_of room_id)) s in (int_or_zero (atoi (text_of a)), s1)

  unfoldable pub count : SendMsg → State → (ℤ × Option Bytes) × State
  count req s =
      let (n, s1) = room_count req.room_id s in
      finish_publish (redis_publish_room_count R codec req.room_id n s1)

  unfoldable pub get_room_info : SendMsg → State → (ℤ × Option Bytes) × State
  get_room_info req s =
      let (a, s1) = run (hgetall (users_of req.room_id)) s in
      if is_empty (table_of a)
      then ((fail_reply_code, some (codes "getRoomInfo no this user")), s1)
      else finish_publish (redis_publish_room_info R codec req.room_id (table_of a) s1)

  -- `Connect` on a room: a user that the table does not name, or names by the empty text, is written
  -- there and counted.
  unfoldable pub enter_if_new : Bool → ℤ → Bytes → Bytes → State → State
  enter_if_new true room_id user name s =
      let (_, s1) = run (hset (users_of room_id) user name) s in
      let (_, s2) = run (incr_key (count_of room_id)) s1 in s2
  enter_if_new false room_id user name s = s

  unfoldable pub enter_room : ℤ → Bytes → Bytes → State → State
  enter_room room_id user name s =
      let (a, s1) = run (hget (users_of room_id) user) s in
      enter_if_new (same (text_of a) []) room_id user name s1

  -- the error of the write of the server's name stays in the result
  unfoldable pub connect_user : ℤ → Bytes → ConnectRequest → State → (ℤ × Option Bytes) × State
  connect_user user_id name args s =
      if user_id ==ℤ pos 0
      then ((pos 0, none), s)
      else (let (a, s1) =
            run (set (get_user_key (itoa user_id)) args.server_id redis_base_valid_time) s in
          ((user_id, err_of a), enter_room args.room_id (itoa user_id) name s1))

  unfoldable pub connect_session : ConnectRequest → Table → State → (ℤ × Option Bytes) × State
  connect_session args [] s = ((pos 0, none), s)
  connect_session args (fv ∷ rest) s =
      connect_user (int32 (int_or_zero (atoi (field (codes "userId") (fv ∷ rest)))))
        (field (codes "userName") (fv ∷ rest)) args s

  -- the id in the reply, and the error
  unfoldable pub connect : ConnectRequest → State → (ℤ × Option Bytes) × State
  connect args s =
      let (a, s1) = run (hgetall (get_session_name args.auth_token)) s in
      elim (err_of a) [
        | some e ↦ ((pos 0, some e), s1)
        | none ↦ connect_session args (table_of a) s1
      ]

  -- `DisConnect`: the count, the table, and the message to the room
  unfoldable pub decrease_positive : Bool → ℤ → State → State
  decrease_positive true room_id s = s
  decrease_positive false room_id s = (run (decr_key (count_of room_id)) s).1

  unfoldable pub decrease_count : ℤ → State → State
  decrease_count room_id s =
      if not_positive room_id
      then s
      else let (n, s1) = room_count room_id s in decrease_positive (not_positive n) room_id s1

  unfoldable pub remove_user : ℤ → ℤ → State → State
  remove_user room_id user_id s =
      if user_id ==ℤ pos 0 then s else (run (hdel (users_of room_id) (itoa user_id)) s).1

  unfoldable pub disconnect : DisConnectRequest → State → Option Bytes × State
  disconnect args s =
      let s1 = remove_user args.room_id args.user_id (decrease_count args.room_id s) in
      let (a, s2) = run (hgetall (users_of args.room_id)) s1 in
      redis_publish_room_send R codec args.room_id (table_of a) [] s2
