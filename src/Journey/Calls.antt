-- ===== src/Journey/Calls.antt =====
-- The logic layer as the API layer calls it: what LogicRpcClient.Call of api/rpc/rpc.go reaches are the
-- methods of logic/rpc.go, and rpcx hands their reply and their error back. `token` stands for the random
-- token of a call, and `now` for its time.
use yoyichat.Base.{Option, none, []}
use yoyichat.Base.Bytes.{Bytes}
use yoyichat.Base.Int.{ℤ}
use yoyichat.Messages.{SuccessReply}
use yoyichat.Logic.Redis.{Redis}
use yoyichat.Logic.Users.{UserDb}
use yoyichat.Logic.Publish.{Codec}
use yoyichat.Logic.Session
use yoyichat.Logic.Session.{CheckAuthReply}
use yoyichat.Logic.Rooms
use yoyichat.Api.{AuthReply, UserReply, LogicClient}

module _ (R : Redis) (D : UserDb) where
  -- the state behind the logic layer
  pub record Behind : Type 0 where
    pub users : D.State
    pub redis : R.State

  abbrev pub auth_reply : Session.AuthReply → AuthReply
  auth_reply r = record { code = r.code; auth_token = r.auth_token }

  abbrev pub user_reply : CheckAuthReply → UserReply
  user_reply r = record { code = r.code; user_id = r.user_id; user_name = r.user_name }

  -- nothing writes the reply's message
  abbrev pub success_reply : ℤ → SuccessReply
  success_reply code = record { code = code; msg = [] }

  abbrev pub pushed :
      D.State → (ℤ × Option Bytes) × R.State → (SuccessReply × Option Bytes) × Behind
  pushed users ((code, e), s) = ((success_reply code, e), record { users = users; redis = s })

  abbrev pub logic_client : Codec → (token now : Bytes) → LogicClient
  logic_client codec token now = record {
    State = Behind;
    login = λ c s.
        let ((r, e), redis) = Session.login R D c.name c.password token s.users s.redis in
        ((auth_reply r, e), record s { redis = redis });
    register = λ c s.
        let ((r, e), users, redis) = Session.register R D c.name c.password token s.users s.redis in
        ((auth_reply r, e), record { users = users; redis = redis });
    get_user_info_by_user_id =
        λ id s. ((user_reply (Session.get_user_info_by_user_id R D id s.users), none), s);
    check_auth = λ t s.
        let ((r, e), redis) = Session.check_auth R t s.redis in
        ((user_reply r, e), record s { redis = redis });
    logout = λ t s.
        let ((code, e), redis) = Session.logout R t s.redis in
        ((code, e), record s { redis = redis });
    push = λ m s. pushed s.users (Rooms.push R codec m s.redis);
    push_room = λ m s. pushed s.users (Rooms.push_room R codec now m s.redis);
    count = λ m s. pushed s.users (Rooms.count R codec m s.redis);
    get_room_info = λ m s. pushed s.users (Rooms.get_room_info R codec m s.redis);
  }
