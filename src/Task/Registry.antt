-- ===== src/Task/Registry.antt =====
-- `RpcConnectClient` of task/rpc.go: the connect instances of each server id, and whose turn it is.
-- A client is a handle; `peer` stands for client.NewPeer2PeerDiscovery with client.NewXClient.
pub mod Turns
pub mod Discovery
use yoyichat.Base.{
  ℕ, zero, suc, ◌+◌, ◌%◌, Bool, true, false, ◌||◌, Option, none, some, List, [], ◌∷◌, ◌++◌,
  if◌then◌else◌, length, get_elem?, Result, ok, err,
}
use yoyichat.Base.Bytes.{Bytes, codes, same}
use yoyichat.Base.Assoc.{Assoc, lookup, insert, bytes_key}
use yoyichat.Task.Params.{get_param_by_key}

pub record Instance : Type 0 where
  pub server_type : Bytes
  pub server_id : Bytes
  pub client : ℕ

pub record RpcConnectClient : Type 0 where
  pub server_ins_map : Assoc Bytes (List Instance)
  pub index_map : Assoc Bytes ℕ

-- A client, the error of an unknown server, or an index out of range.
pub data Found : Type 0 where
  found : ℕ → Found
  no_server : Bytes → Found
  out_of_range : Found

-- Go reads a missing key of a `map[string]int` as 0.
abbrev pub or_zero : Option ℕ → ℕ
or_zero none = 0
or_zero (some n) = n

-- A server without an index gets a map of its own, that holds nothing else.
unfoldable pub with_index : Bytes → Assoc Bytes ℕ → Assoc Bytes ℕ
with_index server_id m = elim (lookup server_id m) [ none ↦ insert server_id 0 [] | some _ ↦ m ]

unfoldable pub client_at : Option Instance → Found
client_at none = out_of_range
client_at (some i) = found i.client

unfoldable pub take_turn : RpcConnectClient → Bytes → List Instance → Found × RpcConnectClient
take_turn rc server_id ins =
    let index_map = with_index server_id rc.index_map in
    let turn = or_zero (lookup server_id index_map) in
    let idx = turn % length ins in
    (
      client_at (get_elem? ins idx),
      record rc { index_map = insert server_id ((turn + 1) % length ins) index_map },
    )

unfoldable pub get_rpc_client_by_server_id : Bytes → RpcConnectClient → Found × RpcConnectClient
get_rpc_client_by_server_id server_id rc = elim (lookup server_id rc.server_ins_map) [
  | none ↦ (no_server (codes "no connect layer ip:" ++ server_id), rc)
  | some [] ↦ (no_server (codes "no connect layer ip:" ++ server_id), rc)
  | some (i ∷ is) ↦ take_turn rc server_id (i ∷ is)
]

keep_found : Found → List ℕ → List ℕ
keep_found (found c) cs = c ∷ cs
keep_found (no_server e) cs = cs
keep_found out_of_range cs = cs

-- The loop over the keys of `ServerInsMap`, in the order in which Go's `range` gives them.
unfoldable pub get_all_connect_type_rpc_client :
    List Bytes → RpcConnectClient → List ℕ × RpcConnectClient
unfolding keep_found
get_all_connect_type_rpc_client [] rc = ([], rc)
get_all_connect_type_rpc_client (server_id ∷ ids) rc =
    let (f, rc₁) = get_rpc_client_by_server_id server_id rc in
    let (cs, rc₂) = get_all_connect_type_rpc_client ids rc₁ in (keep_found f cs, rc₂)

unfoldable pub append_instance :
    Instance → Assoc Bytes (List Instance) → Assoc Bytes (List Instance)
append_instance ins m = elim (lookup ins.server_id m) [
  | none ↦ insert ins.server_id (ins ∷ []) m
  | some is ↦ insert ins.server_id (is ++ ins ∷ []) m
]

-- `k` calls for one server, one after the other
unfoldable pub call_times : ℕ → Bytes → RpcConnectClient → List Found
call_times zero server_id rc = []
call_times (suc k) server_id rc =
    let (f, rc') = get_rpc_client_by_server_id server_id rc in f ∷ call_times k server_id rc'

module _ (peer : Bytes → Option ℕ) where
  add_peer : Bytes → Bytes → Option ℕ → Assoc Bytes (List Instance) → Assoc Bytes (List Instance)
  add_peer server_type server_id none m = m
  add_peer server_type server_id (some c) m =
      append_instance (record { server_type = server_type; server_id = server_id; client = c }) m

  -- one entry of the discovery: its key, and its metadata
  unfoldable pub add_service :
      Bytes × Bytes → Assoc Bytes (List Instance) → Assoc Bytes (List Instance)
  unfolding add_peer
  add_service (key, value) m =
      let server_type = get_param_by_key value (codes "serverType") in
      let server_id = get_param_by_key value (codes "serverId") in
      if same server_type [] || same server_id []
      then m
      else add_peer server_type server_id (peer key) m

  -- the loop of `InitConnectRpcClient` and of each round of `watchServicesChange`
  unfoldable pub add_services :
      List (Bytes × Bytes) → Assoc Bytes (List Instance) → Assoc Bytes (List Instance)
  add_services [] m = m
  add_services (kv ∷ kvs) m = add_services kvs (add_service kv m)

  unfoldable pub init_connect_rpc_client :
      List (Bytes × Bytes) → RpcConnectClient → RpcConnectClient
  init_connect_rpc_client kvs rc = record rc { server_ins_map = add_services kvs rc.server_ins_map }

  -- one change of the services: a new map takes the old one's place
  unfoldable pub watch_services_change : List (Bytes × Bytes) → RpcConnectClient → RpcConnectClient
  watch_services_change kvs rc = record rc { server_ins_map = add_services kvs [] }
