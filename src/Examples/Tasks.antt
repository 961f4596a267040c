-- ===== src/Examples/Tasks.antt =====
-- A registry with two instances of one server and one of another, and messages for them.
use mathlib.Core.Logic.{◌≢◌}
use yoyichat.Base.{
  ℕ, ◌+◌, ◌%◌, ◌≡◌, refl, Option, none, some, List, [], ◌∷◌, map, arith, length, get_elem?,
}
use yoyichat.Base.Bytes.{Bytes, codes, same, same_iff}
use yoyichat.Base.Int.{pos, int32}
use yoyichat.Base.Assoc.{lookup, bytes_key}
use yoyichat.Messages.{RedisMsg, empty_redis_msg, op_single_send, op_room_send}
use yoyichat.Task.Params.{get_param_by_key, registration, get_param_by_key-registration}
use yoyichat.Task.Registry.{
  Instance, RpcConnectClient, client_at, call_times, get_rpc_client_by_server_id,
  watch_services_change,
}
use yoyichat.Task.Registry.Turns.{turn, call_times-round_robin, first_call_forgets}
use yoyichat.Task.Registry.Discovery.{listed, announced, watch_services_change-announced}
use yoyichat.Task.Push.{
  Codec, TaskState, TaskBase, PushParams, done, panics, push_redis_msg, push_room_msg,
  push_single_msg, message, process_single_push,
}
use yoyichat.Task.Push.Routing.{
  Serves, OneEach, IsClientOf, room_send-OneEach, single_send-push_single, unknown_server_panics,
}

abbrev s1 : Bytes
s1 = codes "s1"

abbrev s2 : Bytes
s2 = codes "s2"

abbrev ws : Bytes
ws = codes "ws"

get_param_by_key-registration_example :
    (get_param_by_key (registration s1 ws) (codes "serverId") ≡ s1)
    × (get_param_by_key (registration s1 ws) (codes "serverType") ≡ ws)
get_param_by_key-registration_example =
    get_param_by_key-registration s1 ws (omega arith) (omega arith) (omega arith) (omega arith)

abbrev one : Instance
one = record { server_type = ws; server_id = s1; client = 10 }

abbrev other_one : Instance
other_one = record { server_type = ws; server_id = s1; client = 11 }

abbrev two : Instance
two = record { server_type = ws; server_id = s2; client = 20 }

abbrev registry : RpcConnectClient
registry = record {
  server_ins_map = (s1, one ∷ other_one ∷ []) ∷ (s2, two ∷ []) ∷ [];
  index_map = (s2, 0) ∷ [];
}

s1_listed : lookup s1 registry.server_ins_map ≡ some (one ∷ other_one ∷ [])
unfolding lookup same
s1_listed = refl

s2_listed : lookup s2 registry.server_ins_map ≡ some (two ∷ [])
unfolding lookup same
s2_listed = refl

s1_has_no_index : lookup s1 registry.index_map ≡ none
unfolding lookup same
s1_has_no_index = refl

s1_not_s2 : s1 ≢ s2
unfolding same
s1_not_s2 = ground (arith, same_iff s1 s2)

call_times-round_robin_example :
    get_elem? (call_times 3 s1 registry) 2
    ≡ some (client_at (get_elem? (one ∷ other_one ∷ []) ((turn s1 registry + 2) % 2)))
call_times-round_robin_example =
    call_times-round_robin s1 one (other_one ∷ []) 3 2 registry s1_listed (omega arith)

first_call_forgets_example : lookup s2 (get_rpc_client_by_server_id s1 registry).1.index_map ≡ none
first_call_forgets_example =
    first_call_forgets s1 s2 one (other_one ∷ []) registry s1_listed s1_has_no_index s1_not_s2

-- one service for each of two servers, at peers that are reached
abbrev services : List (Bytes × Bytes)
services =
    (codes "tcp@a:1", codes "serverId=s1&serverType=ws")
    ∷ (codes "tcp@b:1", codes "serverId=s2&serverType=tcp")
    ∷ []

abbrev peers : Bytes → Option ℕ
peers key = some (length key)

watch_services_change-announced_example :
    listed (lookup s1 (watch_services_change peers services registry).server_ins_map)
    ≡ announced peers s1 services
watch_services_change-announced_example = watch_services_change-announced peers s1 services registry

abbrev plain_codec : Codec
plain_codec = record {
  unmarshal = λ bytes. empty_redis_msg;
  marshal_count = λ m. none;
  marshal_info = λ m. none;
}

abbrev base : TaskBase
base = record { push_chan = 2; push_chan_size = 50 }

abbrev idle : TaskState
idle = record { clients = registry; push_channel = [] ∷ [] ∷ []; calls = [] }

s1-Serves : Serves registry.server_ins_map s1
s1-Serves = record { first = one; others = other_one ∷ []; at = s1_listed }

s2-Serves : Serves registry.server_ins_map s2
s2-Serves = record { first = two; others = []; at = s2_listed }

abbrev for_room : RedisMsg
for_room = record empty_redis_msg { op = op_room_send; room_id = pos 7; msg = codes "hi" }

room_send-OneEach_example :
    (cs : List ℕ) × (t' : TaskState) × (push_redis_msg plain_codec base 3 []
        (s1 ∷ s2 ∷ [])
        for_room
        idle
      ≡ done t')
    × (t'.calls
        ≡ map
            (λ c.
              push_room_msg c
                (record { room_id = int32 (pos 7); msg = message op_room_send [] (codes "hi") }))
            cs)
    × OneEach registry.server_ins_map (s1 ∷ s2 ∷ []) cs
room_send-OneEach_example =
    room_send-OneEach plain_codec base 3 [] (s1 ∷ s2 ∷ []) for_room idle refl
      (s1-Serves, (s2-Serves, tt))

abbrev for_user : RedisMsg
for_user = record empty_redis_msg {
  op = op_single_send;
  server_id = s2;
  user_id = pos 9;
  msg = codes "hi";
}

single_send-push_single_example :
    (t₁ t₂ : TaskState) × (c : ℕ) × (push_redis_msg plain_codec base 3 [] [] for_user idle
      ≡ done t₁)
    × (process_single_push 1 [] t₁ ≡ done t₂)
    × (t₂.calls
        ≡ push_single_msg c
            (record { user_id = int32 (pos 9); msg = message op_single_send [] (codes "hi") })
          ∷ [])
    × IsClientOf registry.server_ins_map s2 c
single_send-push_single_example =
    single_send-push_single plain_codec base 3 1 [] [] for_user idle refl (omega arith) refl refl
      s2-Serves

-- a message for a server that is gone
abbrev lost : PushParams
lost = record { server_id = codes "s3"; user_id = pos 9; msg = codes "hi" }

abbrev waiting : TaskState
waiting = record idle { push_channel = (lost ∷ []) ∷ [] }

s3_unknown : lookup (codes "s3") registry.server_ins_map ≡ none
unfolding lookup same
s3_unknown = refl

unknown_server_panics_example : process_single_push 0 [] waiting ≡ panics
unknown_server_panics_example = unknown_server_panics [] 0 lost [] waiting refl s3_unknown
