-- ===== src/Task/Registry/Turns.antt =====
-- Which instance GetRpcClientByServerId of task/rpc.go gives at each call.
use mathlib.Core.Logic.{◌≢◌}
use native.Mathlib.Nat.{add-zero, mod-add-mod}
use yoyichat.Base.{
  ℕ, zero, suc, ◌+◌, ◌%◌, ◌<◌, ◌≡◌, refl, none, some, List, [], ◌∷◌, arith, length, get_elem?,
  get_elem?-lt, Option-cases, inl, inr, ◌∙◌, ap, false, sym,
}
use yoyichat.Base.Bytes.{Bytes, same, same_iff}
use yoyichat.Base.Assoc.{Assoc, lookup, insert, lookup-insert, lookup-insert_self, bytes_key}
use yoyichat.Task.Registry.{
  Instance, RpcConnectClient, found, or_zero, with_index, client_at, take_turn, call_times,
  get_rpc_client_by_server_id,
}

-- the index at which the next call for the server reads
abbrev pub turn : Bytes → RpcConnectClient → ℕ
turn server_id rc = or_zero (lookup server_id rc.index_map)

with_index-turn :
    (server_id : Bytes) (m : Assoc Bytes ℕ)
    → or_zero (lookup server_id (with_index server_id m)) ≡ or_zero (lookup server_id m)
unfolding with_index
with_index-turn server_id m = elim (Option-cases (lookup server_id m)) [
  | inl e ↦ rw (e, with_index, lookup-insert_self {V = ℕ} server_id 0 []) refl
  | inr (n, e) ↦ rw (e, with_index, e) refl
]

module _ (server_id : Bytes) (i : Instance) (is : List Instance) where
  abbrev count : ℕ
  count = length (i ∷ is)

  turn_client :
      (rc : RpcConnectClient)
      → (take_turn rc server_id (i ∷ is)).0
        ≡ client_at (get_elem? (i ∷ is) (turn server_id rc % count))
  unfolding take_turn
  turn_client rc = rw (with_index-turn server_id rc.index_map) refl

  turn_next :
      (rc : RpcConnectClient)
      → turn server_id (take_turn rc server_id (i ∷ is)).1 ≡ (turn server_id rc + 1) % count
  unfolding take_turn
  turn_next rc =
      rw
        (
          lookup-insert_self {V = ℕ} server_id
              ((or_zero (lookup server_id (with_index server_id rc.index_map)) + 1) % count)
              (with_index server_id rc.index_map),
          with_index-turn server_id rc.index_map,
        )
        refl

  turn_same :
      (rc : RpcConnectClient)
      → (take_turn rc server_id (i ∷ is)).1.server_ins_map ≡ rc.server_ins_map
  unfolding take_turn
  turn_same rc = refl

  pub get_rpc_client-take_turn :
      (rc : RpcConnectClient)
      → lookup server_id rc.server_ins_map ≡ some (i ∷ is)
      → get_rpc_client_by_server_id server_id rc ≡ take_turn rc server_id (i ∷ is)
  unfolding get_rpc_client_by_server_id
  get_rpc_client-take_turn rc e = rw (e, get_rpc_client_by_server_id) refl

  mod_step : (t j : ℕ) → ((t + 1) % count + j) % count ≡ (t + suc j) % count
  mod_step t j =
      mod-add-mod (t + 1) count j
      ∙ ap (λ n. n % count) (let e : t + 1 + j ≡ t + suc j = omega arith in e)

  same_turn : (t : ℕ) → t % count ≡ (t + 0) % count
  same_turn t = ap (λ n. n % count) (sym (add-zero t))

  -- The j-th of the calls for a server gets the instance that is j places behind the server's turn,
  -- round the ring of its instances, if only this server is asked for in between.
  pub call_times-round_robin :
      (k j : ℕ) (rc : RpcConnectClient)
      → lookup server_id rc.server_ins_map ≡ some (i ∷ is)
      → j < k
      → get_elem? (call_times k server_id rc) j
        ≡ some (client_at (get_elem? (i ∷ is) ((turn server_id rc + j) % count)))
  unfolding call_times
  call_times-round_robin zero j rc e h = absurd (omega arith)
  call_times-round_robin (suc k) zero rc e h =
      rw (get_rpc_client-take_turn rc e, turn_client rc)
        (ap (λ n. some (client_at (get_elem? (i ∷ is) n))) (same_turn (turn server_id rc)))
  call_times-round_robin (suc k) (suc j) rc e h = rw (get_rpc_client-take_turn rc e) (
      call_times-round_robin k j (take_turn rc server_id (i ∷ is)).1
        (ap (λ m. lookup server_id m) (turn_same rc) ∙ e) (omega arith)
      ∙ ap (λ n. some (client_at (get_elem? (i ∷ is) n)))
          (ap (λ t. (t + j) % count) (turn_next rc) ∙ mod_step (turn server_id rc) j))

  -- A call for a server that has instances gets one of them: no index is out of range.
  pub get_rpc_client-found :
      (rc : RpcConnectClient)
      → lookup server_id rc.server_ins_map ≡ some (i ∷ is)
      → (ins : Instance) × (get_elem? (i ∷ is) (turn server_id rc % count) ≡ some ins)
        × ((get_rpc_client_by_server_id server_id rc).0 ≡ found ins.client)
  unfolding client_at
  get_rpc_client-found rc e =
      let (ins, at) = get_elem?-lt (i ∷ is) (turn server_id rc % count) (omega arith) in
      (ins, at, rw (get_rpc_client-take_turn rc e, turn_client rc, at) refl)

not_same : (a b : Bytes) → a ≢ b → same a b ≡ false
not_same a b ne = ground (arith, same_iff a b)

new_index :
    (server_id : Bytes) (m : Assoc Bytes ℕ)
    → lookup server_id m ≡ none
    → with_index server_id m ≡ insert server_id 0 []
unfolding with_index
new_index server_id m e = rw (e, with_index) refl

-- The first call for a server that has no index yet drops the index of every other server.
pub first_call_forgets :
    (server_id other : Bytes) (i : Instance) (is : List Instance) (rc : RpcConnectClient)
    → lookup server_id rc.server_ins_map ≡ some (i ∷ is)
    → lookup server_id rc.index_map ≡ none
    → server_id ≢ other
    → lookup other (get_rpc_client_by_server_id server_id rc).1.index_map ≡ none
unfolding take_turn lookup insert
first_call_forgets server_id other i is rc e new ne =
    rw (get_rpc_client-take_turn server_id i is rc e, new_index server_id rc.index_map new)
      (rw (lookup-insert, lookup-insert, not_same server_id other ne) refl)
