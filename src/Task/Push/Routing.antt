-- ===== src/Task/Push/Routing.antt =====
-- Where the messages of the queue go.
use yoyichat.Base.{
  ℕ, suc, ◌%◌, ◌<◌, ◌≡◌, refl, none, some, List, [], ◌∷◌, ◌++◌, map, length, get_elem?, set,
  get_elem?-set_self, get_elem?-bound, set-set, ◌∙◌, ap, lt→ltb,
}
use yoyichat.Base.Bytes.{Bytes, codes}
use yoyichat.Base.Int.{int32}
use yoyichat.Base.Assoc.{Assoc, lookup, bytes_key}
use yoyichat.Messages.{RedisMsg, op_single_send, op_room_send}
use yoyichat.Task.Registry.{
  Instance, RpcConnectClient, found, no_server, take_turn, get_rpc_client_by_server_id,
  get_all_connect_type_rpc_client,
}
use yoyichat.Task.Registry.Turns.{turn, get_rpc_client-take_turn, get_rpc_client-found}
use yoyichat.Task.Push.{
  PushParams, push_single_msg, push_room_msg, TaskState, done, panics, Codec, TaskBase, message,
  call_found, push_single_to_connect, call_all, broadcast_room_to_connect, send_params,
  push_redis_msg, process_head, process_single_push,
}

-- the server has at least one instance
pub record Serves (m : Assoc Bytes (List Instance)) (id : Bytes) : Type 0 where
  pub first : Instance
  pub others : List Instance
  pub at : lookup id m ≡ some (first ∷ others)

-- `c` is the client of one of the server's instances
pub record IsClientOf (m : Assoc Bytes (List Instance)) (id : Bytes) (c : ℕ) : Type 0 where
  pub all : List Instance
  pub index : ℕ
  pub instance_of : Instance
  pub at : lookup id m ≡ some all
  pub nth : get_elem? all index ≡ some instance_of
  pub client : instance_of.client ≡ c

abbrev pub AllServe : Assoc Bytes (List Instance) → List Bytes → Type 0
AllServe m [] = Unit
AllServe m (id ∷ ids) = Serves m id × AllServe m ids

-- one client for each server, in the same order
abbrev pub OneEach : Assoc Bytes (List Instance) → List Bytes → List ℕ → Type 0
OneEach m [] [] = Unit
OneEach m [] (c ∷ cs) = ⊥
OneEach m (id ∷ ids) [] = ⊥
OneEach m (id ∷ ids) (c ∷ cs) = IsClientOf m id c × OneEach m ids cs

module _ (m : Assoc Bytes (List Instance)) where
  get_one :
      (id : Bytes) (rc : RpcConnectClient)
      → rc.server_ins_map ≡ m
      → Serves m id
      → (c : ℕ) × ((get_rpc_client_by_server_id id rc).0 ≡ found c)
        × IsClientOf m id c
        × ((get_rpc_client_by_server_id id rc).1.server_ins_map ≡ m)
  unfolding take_turn
  get_one id rc e s =
      let at = ap (λ n. lookup id n) e ∙ s.at in
      let (i, nth, got) = get_rpc_client-found id s.first s.others rc at in
      (
        i.client,
        got,
        record {
          all = s.first ∷ s.others;
          index = turn id rc % length (s.first ∷ s.others);
          instance_of = i;
          at = s.at;
          nth = nth;
          client = refl;
        },
        rw (get_rpc_client-take_turn id s.first s.others rc at) e,
      )

  get_all :
      (ids : List Bytes) (rc : RpcConnectClient)
      → rc.server_ins_map ≡ m
      → AllServe m ids
      → OneEach m ids (get_all_connect_type_rpc_client ids rc).0
  unfolding get_all_connect_type_rpc_client
  get_all [] rc e s = tt
  get_all (id ∷ ids) rc e s =
      let (c, got, is, same_map) = get_one id rc e s.0 in
      rw got (is, get_all ids (get_rpc_client_by_server_id id rc).1 same_map s.1)

-- If each server has an instance, a room message is sent to exactly one instance of each: the
-- calls are `PushRoomMsg` with the room and the body of the message.
pub room_send-OneEach :
    (codec : Codec) (conf : TaskBase) (rand : ℕ) (seq : Bytes) (ids : List Bytes) (m : RedisMsg)
    (t : TaskState)
    → m.op ≡ op_room_send
    → AllServe t.clients.server_ins_map ids
    → (cs : List ℕ) × (t' : TaskState) × (push_redis_msg codec conf rand seq ids m t ≡ done t')
      × (t'.calls
          ≡ t.calls
            ++ map
                (λ c.
                  push_room_msg c
                    (record { room_id = int32 m.room_id; msg = message op_room_send seq m.msg }))
                cs)
      × OneEach t.clients.server_ins_map ids cs
unfolding push_redis_msg broadcast_room_to_connect call_all
room_send-OneEach codec conf rand seq ids m t is_room s = (
  (get_all_connect_type_rpc_client ids t.clients).0,
  broadcast_room_to_connect seq ids m.room_id m.msg t,
  rw is_room refl,
  refl,
  get_all t.clients.server_ins_map ids t.clients refl s,
)

module _ (codec : Codec) (conf : TaskBase) (rand n : ℕ) (seq : Bytes) (ids : List Bytes)
    (m : RedisMsg) (t : TaskState) (chans : conf.push_chan ≡ suc n) (room : 0 < conf.push_chan_size)
    (single : m.op ≡ op_single_send)
    (idle : get_elem? t.push_channel (rand % suc n) ≡ some []) where
  queued : TaskState
  queued = record t {
    push_channel =
        set t.push_channel (rand % suc n)
          (record { server_id = m.server_id; user_id = m.user_id; msg = m.msg } ∷ []);
  }

  push_queues : push_redis_msg codec conf rand seq ids m t ≡ done queued
  unfolding push_redis_msg send_params queued
  push_queues = rw (single, chans, idle, lt→ltb 0 conf.push_chan_size room) refl

  consumed : TaskState
  consumed = record t {
    push_channel = set t.push_channel (rand % suc n) [];
    clients = (get_rpc_client_by_server_id m.server_id t.clients).1;
  }

  -- A message for one user, put into an idle push channel that has room for a message, comes out
  -- of it as exactly one call, if the server that the message names has an instance: of
  -- `PushSingleMsg` on an instance of that server, with the user and the body of the message.
  pub single_send-push_single :
      Serves t.clients.server_ins_map m.server_id
      → (t₁ t₂ : TaskState) × (c : ℕ) × (push_redis_msg codec conf rand seq ids m t ≡ done t₁)
        × (process_single_push (rand % suc n) seq t₁ ≡ done t₂)
        × (t₂.calls
            ≡ t.calls
              ++ push_single_msg c
                  (record { user_id = int32 m.user_id; msg = message op_single_send seq m.msg })
                ∷ [])
        × IsClientOf t.clients.server_ins_map m.server_id c
  unfolding queued consumed process_single_push process_head push_single_to_connect call_found
  single_send-push_single s =
      let (c, got, is, same_map) = get_one t.clients.server_ins_map m.server_id t.clients refl s in
      (
        queued,
        record consumed {
          calls =
              t.calls
              ++ push_single_msg c
                  (record { user_id = int32 m.user_id; msg = message op_single_send seq m.msg })
                ∷ [];
        },
        c,
        push_queues,
        rw
            (
              get_elem?-set_self t.push_channel (rand % suc n)
                  (record { server_id = m.server_id; user_id = m.user_id; msg = m.msg } ∷ [])
                  (get_elem?-bound t.push_channel (rand % suc n) idle),
              process_head,
              got,
              set-set t.push_channel (rand % suc n)
                  (record { server_id = m.server_id; user_id = m.user_id; msg = m.msg } ∷ []) [],
            )
            refl,
        refl,
        is,
      )

unknown_lem :
    (id : Bytes) (rc : RpcConnectClient)
    → lookup id rc.server_ins_map ≡ none
    → (get_rpc_client_by_server_id id rc).0 ≡ no_server (codes "no connect layer ip:" ++ id)
unfolding get_rpc_client_by_server_id
unknown_lem id rc e = rw (e, get_rpc_client_by_server_id) refl

-- A message for one user that names a server without an entry in the registry makes the consumer of
-- its push channel panic: the error of the lookup does not stop the call.
pub unknown_server_panics :
    (seq : Bytes) (num : ℕ) (p : PushParams) (queue : List PushParams) (t : TaskState)
    → get_elem? t.push_channel num ≡ some (p ∷ queue)
    → lookup p.server_id t.clients.server_ins_map ≡ none
    → process_single_push num seq t ≡ panics
unfolding process_single_push process_head push_single_to_connect call_found
unknown_server_panics seq num p queue t waits unknown =
    rw (waits, process_head, push_single_to_connect, unknown_lem p.server_id t.clients unknown) refl
