-- ===== src/Api/Handler.antt =====
-- The handlers of api/handler/user.go and api/handler/push.go. A form is what gin's binder gives: the
-- error, or the fields. `Sha1` is an argument.
use yoyichat.Base.{◌||◌, if◌then◌else◌, is_empty, Result, ok, err}
use yoyichat.Base.Bytes.{Bytes, codes}
use yoyichat.Base.Bytes.Decimal.{atoi_value}
use yoyichat.Base.Int.{ℤ, int32, ◌==ℤ◌}
use yoyichat.Messages.{
  SendMsg, SuccessReply, empty_send, op_single_send, op_room_send, op_room_count_send,
  op_room_info_send,
}
use yoyichat.Tools.{Response, no_data, text, user, success_with_msg, fail_with_msg, code_fail}
use yoyichat.Api
use yoyichat.Api.{AuthReply, UserReply, Credentials, LogicClient}

pub record FormPush : Type 0 where
  pub msg : Bytes
  pub to_user_id : Bytes
  pub room_id : ℤ
  pub auth_token : Bytes

pub record FormRoom : Type 0 where
  pub auth_token : Bytes
  pub msg : Bytes
  pub room_id : ℤ

-- `toUserIdInt, _ := strconv.Atoi(toUserId)`
unfoldable pub to_user_id_int : FormPush → ℤ
to_user_id_int f = atoi_value f.to_user_id

-- `SendMsg{…}` of the single push, of the push to a room and of the two queries
unfoldable pub single_req : FormPush → UserReply → UserReply → SendMsg
single_req f to from = record empty_send {
  msg = f.msg;
  from_user_id = int32 from.user_id;
  from_user_name = from.user_name;
  to_user_id = int32 (to_user_id_int f);
  to_user_name = to.user_name;
  room_id = int32 f.room_id;
  op = op_single_send;
}

unfoldable pub room_req : FormRoom → UserReply → SendMsg
room_req f from = record empty_send {
  msg = f.msg;
  from_user_id = int32 from.user_id;
  from_user_name = from.user_name;
  room_id = int32 f.room_id;
  op = op_room_send;
}

unfoldable pub query_req : ℤ → ℤ → SendMsg
query_req op room_id = record empty_send { room_id = int32 room_id; op = op }

-- the answer to a reply of the logic layer
unfoldable pub auth_response : Bytes → AuthReply × Bytes → Response
auth_response msg (r, e) =
    if r.code ==ℤ code_fail || is_empty r.auth_token
    then fail_with_msg e
    else success_with_msg msg (text r.auth_token)

unfoldable pub reply_response : Bytes → SuccessReply → Response
reply_response failure r =
    if r.code ==ℤ code_fail
    then fail_with_msg failure
    else success_with_msg (codes "ok") (text r.msg)

module _ (L : LogicClient) where
  -- A handler fails with the binder's error.
  abbrev pub bound :
      {F : Type 0} → Result F → (F → L.State → Response × L.State) → L.State → Response × L.State
  bound (err e) k s = (fail_with_msg e, s)
  bound (ok f) k s = k f s

  unfoldable pub login : (Bytes → Bytes) → Result Credentials → L.State → Response × L.State
  login sha1 form = bound form λ f s.
      let (r, s') = Api.login L (record { name = f.name; password = sha1 f.password }) s in
      (auth_response (codes "login success") r, s')

  unfoldable pub register : (Bytes → Bytes) → Result Credentials → L.State → Response × L.State
  register sha1 form = bound form λ f s.
      let (r, s') = Api.register L (record { name = f.name; password = sha1 f.password }) s in
      (auth_response (codes "register success") r, s')

  unfoldable pub check_auth : Result Bytes → L.State → Response × L.State
  check_auth form = bound form λ token s.
      let (r, s') = Api.check_auth L token s in
      if r.code ==ℤ code_fail
      then (fail_with_msg (codes "auth fail"), s')
      else (success_with_msg (codes "auth success") (user r.user_id r.user_name), s')

  unfoldable pub logout : Result Bytes → L.State → Response × L.State
  logout form = bound form λ token s.
      let (code, s') = Api.logout L token s in
      if code ==ℤ code_fail
      then (fail_with_msg (codes "logout fail!"), s')
      else (success_with_msg (codes "logout ok!") no_data, s')

  -- the two last steps of `Push`: who sends, and the push
  unfoldable pub push_from : FormPush → UserReply → UserReply → L.State → Response × L.State
  push_from f to from s =
      let (r, s') = Api.push L (single_req f to from) s in
      if r.code ==ℤ code_fail
      then (fail_with_msg r.msg, s')
      else (success_with_msg (codes "ok") no_data, s')

  unfoldable pub push_to : FormPush → UserReply → L.State → Response × L.State
  push_to f to s =
      let (from, s') = Api.check_auth L f.auth_token s in
      if from.code ==ℤ code_fail
      then (fail_with_msg (codes "rpc fail get self info"), s')
      else push_from f to from s'

  unfoldable pub push : Result FormPush → L.State → Response × L.State
  push form = bound form λ f s.
      let (to, s') = Api.get_user_name_by_user_id L (int32 (to_user_id_int f)) s in
      if to.code ==ℤ code_fail
      then (fail_with_msg (codes "rpc fail get friend userName"), s')
      else push_to f to s'

  unfoldable pub push_room_from : FormRoom → UserReply → L.State → Response × L.State
  push_room_from f from s =
      let (r, s') = Api.push_room L (room_req f from) s in
      (reply_response (codes "rpc push room msg fail!") r, s')

  unfoldable pub push_room : Result FormRoom → L.State → Response × L.State
  push_room form = bound form λ f s.
      let (from, s') = Api.check_auth L f.auth_token s in
      if from.code ==ℤ code_fail
      then (fail_with_msg (codes "rpc fail get self info"), s')
      else push_room_from f from s'

  unfoldable pub count : Result ℤ → L.State → Response × L.State
  count form = bound form λ room_id s.
      let (r, s') = Api.count L (query_req op_room_count_send room_id) s in
      (reply_response (codes "rpc get room count fail!") r, s')

  unfoldable pub get_room_info : Result ℤ → L.State → Response × L.State
  get_room_info form = bound form λ room_id s.
      let (r, s') = Api.get_room_info L (query_req op_room_info_send room_id) s in
      (reply_response (codes "rpc get room info fail!") r, s')
