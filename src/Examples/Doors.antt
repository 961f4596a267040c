-- ===== src/Examples/Doors.antt =====
-- The session check in front of a handler, and the table of Redis clients.
use yoyichat.Base.{err, ℕ, ◌≡◌, refl, false, none, some, []}
use yoyichat.Base.Bytes.{codes}
use yoyichat.Base.Int.{pos}
use yoyichat.Base.Assoc.{lookup, bytes_key}
use yoyichat.Messages.{SuccessReply}
use yoyichat.Tools.{Clients, client, waits, get_redis_instance, Response, no_data, success_with_msg}
use yoyichat.Tools.Lock.{made, held, get_redis_instance-third_waits}
use yoyichat.Api.{LogicClient, check_auth}
use yoyichat.Api.Routes.{Binder, Request}

abbrev no_clients : Clients
no_clients = record { redis_client_map = []; next_client = 0; locked = false }

no_client_known : lookup (codes "a:1") no_clients.redis_client_map ≡ none
unfolding lookup
no_client_known = refl

get_redis_instance-third_waits_example :
    (get_redis_instance (codes "a:1") no_clients ≡ client 0 (made (codes "a:1") no_clients))
    × (get_redis_instance (codes "a:1") (made (codes "a:1") no_clients)
        ≡ client 0 (held (made (codes "a:1") no_clients)))
    × (get_redis_instance (codes "b:1") (held (made (codes "a:1") no_clients)) ≡ waits)
get_redis_instance-third_waits_example =
    get_redis_instance-third_waits (codes "a:1") (codes "b:1") no_clients refl no_client_known

-- a logic layer whose sessions all have the id 4 and the name of the token
abbrev answered : SuccessReply
answered = record { code = pos 0; msg = [] }

abbrev logic : LogicClient
logic = record {
  State = ℕ;
  login = λ c n. ((record { code = pos 0; auth_token = codes "t" }, none), n);
  register = λ c n. ((record { code = pos 0; auth_token = codes "t" }, none), n);
  get_user_info_by_user_id =
      λ id n. ((record { code = pos 0; user_id = id; user_name = [] }, none), n);
  check_auth = λ token n. ((record { code = pos 0; user_id = pos 4; user_name = token }, none), n);
  logout = λ token n. ((pos 0, none), n);
  push = λ m n. ((answered, none), n);
  push_room = λ m n. ((answered, none), n);
  count = λ m n. ((answered, none), n);
  get_room_info = λ m n. ((answered, none), n);
}

abbrev handler : ℕ → Response × ℕ
handler n = (success_with_msg (codes "ok") no_data, 5)

-- every body has the empty token, and no other form
abbrev empty_token : Binder
empty_token = record {
  session = λ body. some [];
  credentials = λ body. err (codes "EOF");
  token = λ body. err (codes "EOF");
  push = λ body. err (codes "EOF");
  room = λ body. err (codes "EOF");
  room_id = λ body. err (codes "EOF");
}

abbrev to_push : Request
to_push = record { method = codes "POST"; path = codes "/push/push"; body = [] }
