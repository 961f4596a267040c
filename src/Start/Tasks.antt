-- ===== src/Start/Tasks.antt =====
-- The run of the task layer (Run of task/task.go, the start of InitQueueRedisClient in task/queue.go and
-- of InitConnectRpcClient in task/rpc.go). The ping, the discovery and the clients that can be made are
-- arguments.
use yoyichat.Base.{
  ℕ, zero, suc, ◌≡◌, Option, none, some, List, [], ◌∷◌, Result, ok, err, ltb, if◌then◌else◌,
  get_elem?, arith, ◌∙◌,
}
use yoyichat.Base.Bytes.{Bytes}
use yoyichat.Tools.{Clients, get_redis_instance}
use yoyichat.Task.Registry.{RpcConnectClient, init_connect_rpc_client}
use yoyichat.Start.Services.{
  Initialised, initialised, hangs, after_ping, make_push_channel, only_cusume_single_msg_push,
}

-- `InitQueueRedisClient` until it starts the consumer: here too the error of the ping is only logged
unfoldable pub init_queue_redis_client : Bytes → Result Bytes → Clients → Initialised
init_queue_redis_client address ping s = after_ping ping (get_redis_instance address s)

-- What `Run` leaves: the registry and the push channels, with the capacity of each. `exits` is
-- `logrus.Fatalf`.
pub data TaskRun : Type 0 where
  runs : (redis : ℕ) (clients : RpcConnectClient) (push_channel : List (Option ℕ)) → TaskRun
  exits : TaskRun
  panics : TaskRun
  waits_for_ever : TaskRun

module _ (peer : Bytes → Option ℕ) where
  -- `InitConnectRpcClient`, and then the push channels
  unfoldable pub run_discovered :
      ℕ → ℕ → List (Option ℕ) → Result (List (Bytes × Bytes)) → RpcConnectClient → TaskRun
  run_discovered redis size push_channel (err e) rc = exits
  run_discovered redis size push_channel (ok []) rc = panics
  run_discovered redis size push_channel (ok (kv ∷ kvs)) rc =
      runs redis (init_connect_rpc_client peer (kv ∷ kvs) rc)
        (only_cusume_single_msg_push size push_channel)

  unfoldable pub task_run_with :
      Initialised → ℕ → List (Option ℕ) → Result (List (Bytes × Bytes)) → RpcConnectClient → TaskRun
  task_run_with hangs size push_channel discovery rc = waits_for_ever
  task_run_with (initialised (some e) redis s) size push_channel discovery rc = panics
  task_run_with (initialised none redis s) size push_channel discovery rc =
      run_discovered redis size push_channel discovery rc

  unfoldable pub task_run :
      Bytes
      → Result Bytes
      → Clients
      → (push_chan size : ℕ) → Result (List (Bytes × Bytes))
      → RpcConnectClient
      → TaskRun
  task_run redis_address ping s push_chan size discovery rc =
      task_run_with (init_queue_redis_client redis_address ping s) size
        (make_push_channel push_chan) discovery rc

made_at :
    (n size i : ℕ)
    → get_elem? (only_cusume_single_msg_push size (make_push_channel n)) i
      ≡ (if ltb i n then some (some size) else none)
unfolding only_cusume_single_msg_push make_push_channel
made_at zero size i = ground arith
made_at (suc n) size zero = ground arith
made_at (suc n) size (suc i) = made_at n size i ∙ ground arith

-- The channels of a task layer whose run has come to its end all have their capacity. Until then, while
-- the consumer already runs, they are nil, and a send to one waits for ever.
task_run-made :
    (peer : Bytes → Option ℕ) (redis_address : Bytes) (ping : Result Bytes) (s : Clients)
    (push_chan size i redis : ℕ) (discovery : Result (List (Bytes × Bytes)))
    (rc clients : RpcConnectClient) (push_channel : List (Option ℕ))
    → task_run peer redis_address ping s push_chan size discovery rc
      ≡ runs redis clients push_channel
    → get_elem? push_channel i ≡ (if ltb i push_chan then some (some size) else none)
unfolding task_run task_run_with run_discovered
task_run-made peer redis_address ping s push_chan size i redis discovery rc clients push_channel e =
    started (init_queue_redis_client redis_address ping s) discovery e
  where
    started :
        (begun : Initialised) (d : Result (List (Bytes × Bytes)))
        → task_run_with peer begun size (make_push_channel push_chan) d rc
          ≡ runs redis clients push_channel
        → get_elem? push_channel i ≡ (if ltb i push_chan then some (some size) else none)
    started hangs d e = absurd (cc e)
    started (initialised (some x) r t) d e = absurd (cc e)
    started (initialised none r t) (err x) e = absurd (cc e)
    started (initialised none r t) (ok []) e = absurd (cc e)
    started (initialised none r t) (ok (kv ∷ kvs)) e =
        let e' : runs r (init_connect_rpc_client peer (kv ∷ kvs) rc)
              (only_cusume_single_msg_push size (make_push_channel push_chan))
            ≡ runs redis clients push_channel =
          e in
        let same : only_cusume_single_msg_push size (make_push_channel push_chan) ≡ push_channel =
          cc e' in
        rw (← same) (made_at push_chan size i)
