-- ===== src/Start/Services.antt =====
-- The start of the logic layer (logic/logic.go, logic/publish.go) and of the task layer (task/task.go,
-- task/queue.go, task/push.go), as far as it decides something. The pings, the UUID and etcd's answer are
-- arguments.
use yoyichat.Base.{ℕ, Bool, true, false, Option, none, some, List, [], ◌∷◌, ◌++◌, replicate, Result}
use yoyichat.Base.Bytes.{Bytes, codes, split}
use yoyichat.Tools.{Clients, Got, client, waits, get_redis_instance, parse_network}

-- The error of the ping is one of an inner scope: it is logged, and the function returns no error.
pub data Initialised : Type 0 where
  initialised : Option Bytes → ℕ → Clients → Initialised
  hangs : Initialised

unfoldable pub after_ping : Result Bytes → Got → Initialised
after_ping ping (client c s) = initialised none c s
after_ping ping waits = hangs

unfoldable pub init_publish_redis_client : Bytes → Result Bytes → Clients → Initialised
init_publish_redis_client address ping s = after_ping ping (get_redis_instance address s)

-- `InitRpcServer`: each address is parsed before the service is started there, and a bad one panics.
unfoldable pub start_logic_at :
    Option (Bytes × Bytes) → List (Bytes × Bytes) × Bool → List (Bytes × Bytes) × Bool
start_logic_at none rest = ([], false)
start_logic_at (some address) (started, all) = (address ∷ started, all)

unfoldable pub start_logic : List Bytes → List (Bytes × Bytes) × Bool
start_logic [] = ([], true)
start_logic (bind ∷ binds) = start_logic_at (parse_network bind) (start_logic binds)

unfoldable pub init_rpc_server : Bytes → List (Bytes × Bytes) × Bool
init_rpc_server addresses = start_logic (split b',' addresses)

unfoldable pub logic_server_id : Bytes → Bytes
logic_server_id uuid = codes "logic-" ++ uuid

-- what `Run` of the logic layer leaves: the client of Redis, the id and the services
pub data LogicRun : Type 0 where
  serves : (redis : ℕ) (id : Bytes) (services : List (Bytes × Bytes)) → LogicRun
  panics : LogicRun
  waits_for_ever : LogicRun

unfoldable pub logic_services : ℕ → Bytes → List (Bytes × Bytes) × Bool → LogicRun
logic_services redis id (services, true) = serves redis id services
logic_services redis id (services, false) = panics

unfoldable pub logic_run_with : Initialised → Bytes → Bytes → LogicRun
logic_run_with hangs uuid addresses = waits_for_ever
logic_run_with (initialised (some e) redis s) uuid addresses = panics
logic_run_with (initialised none redis s) uuid addresses =
    logic_services redis (logic_server_id uuid) (init_rpc_server addresses)

unfoldable pub logic_run : Bytes → Result Bytes → Clients → Bytes → Bytes → LogicRun
logic_run redis_address ping s uuid addresses =
    logic_run_with (init_publish_redis_client redis_address ping s) uuid addresses

-- the push channels of the task layer: the `make` of `init`, and `OnlyCusumeSingleMsgPush`, which gives
-- each its capacity
unfoldable pub make_push_channel : ℕ → List (Option ℕ)
make_push_channel push_chan = replicate push_chan none

unfoldable pub only_cusume_single_msg_push : ℕ → List (Option ℕ) → List (Option ℕ)
only_cusume_single_msg_push size [] = []
only_cusume_single_msg_push size (c ∷ cs) = some size ∷ only_cusume_single_msg_push size cs
