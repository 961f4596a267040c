-- ===== src/Task/Registry/Discovery.antt =====
-- What a round of the discovery leaves in the registry.
use yoyichat.Base.{
  ℕ, ◌≡◌, refl, Bool, true, false, ◌||◌, Option, none, some, List, [], ◌∷◌, ◌++◌, if◌then◌else◌,
  append_assoc, append-nil, ◌∙◌, Option-cases, Bool-cases, inl, inr, sym,
}
use yoyichat.Base.Bytes.{Bytes, codes, same, same_iff}
use yoyichat.Base.Assoc.{Assoc, lookup, lookup-insert, bytes_key}
use yoyichat.Task.Params.{get_param_by_key}
use yoyichat.Task.Registry.{
  Instance, RpcConnectClient, append_instance, add_peer, add_service, add_services,
  watch_services_change,
}

-- the instances of a server, none where the map has no entry
abbrev pub listed : Option (List Instance) → List Instance
listed none = []
listed (some is) = is

-- the instances that a list of services announces for one server, in the order of the list
module _ (peer : Bytes → Option ℕ) where
  abbrev made : Bytes → Bytes → Option ℕ → List Instance
  made server_type server_id none = []
  made server_type server_id (some c) =
      record { server_type = server_type; server_id = server_id; client = c } ∷ []

  abbrev announced_by : Bytes → Bytes × Bytes → List Instance
  announced_by id (key, value) =
      let server_type = get_param_by_key value (codes "serverType") in
      let server_id = get_param_by_key value (codes "serverId") in
      if same server_type [] || same server_id []
      then []
      else if same server_id id
      then made server_type server_id (peer key)
      else []

  abbrev pub announced : Bytes → List (Bytes × Bytes) → List Instance
  announced id [] = []
  announced id (kv ∷ kvs) = announced_by id kv ++ announced id kvs

listed-append_instance :
    (id : Bytes) (ins : Instance) (m : Assoc Bytes (List Instance))
    → listed (lookup id (append_instance ins m))
      ≡ listed (lookup id m) ++ (if same ins.server_id id then ins ∷ [] else [])
unfolding append_instance
listed-append_instance id ins m = elim (Option-cases (lookup ins.server_id m)) [
  | inl e ↦
      rw (e, append_instance, lookup-insert)
        (elim (Bool-cases (same ins.server_id id)) [
          | inl same_id ↦ rw (same_id, ← (same_iff ins.server_id id).0 same_id, e) refl
          | inr other ↦ rw other (sym (append-nil (listed (lookup id m))))
        ])
  | inr (is, e) ↦
      rw (e, append_instance, lookup-insert)
        (elim (Bool-cases (same ins.server_id id)) [
          | inl same_id ↦ rw (same_id, ← (same_iff ins.server_id id).0 same_id, e) refl
          | inr other ↦ rw other (sym (append-nil (listed (lookup id m))))
        ])
]

module _ (peer : Bytes → Option ℕ) (id : Bytes) where
  listed-add_peer :
      (server_type server_id : Bytes) (c : Option ℕ) (m : Assoc Bytes (List Instance))
      → listed (lookup id (add_peer peer server_type server_id c m))
        ≡ listed (lookup id m)
          ++ (if same server_id id then made peer server_type server_id c else [])
  unfolding add_peer
  listed-add_peer server_type server_id none m = elim (Bool-cases (same server_id id)) [
    | inl e ↦ rw e (sym (append-nil (listed (lookup id m))))
    | inr e ↦ rw e (sym (append-nil (listed (lookup id m))))
  ]
  listed-add_peer server_type server_id (some c) m =
      listed-append_instance id
        (record { server_type = server_type; server_id = server_id; client = c }) m

  skipped_or_added :
      (skip : Bool) (m m' : Assoc Bytes (List Instance)) (is : List Instance)
      → listed (lookup id m') ≡ listed (lookup id m) ++ is
      → listed (lookup id (if skip then m else m'))
        ≡ listed (lookup id m) ++ (if skip then [] else is)
  skipped_or_added true m m' is e = sym (append-nil (listed (lookup id m)))
  skipped_or_added false m m' is e = e

  listed-add_service :
      (kv : Bytes × Bytes) (m : Assoc Bytes (List Instance))
      → listed (lookup id (add_service peer kv m)) ≡ listed (lookup id m) ++ announced_by peer id kv
  unfolding add_service
  listed-add_service (key, value) m =
      let server_type = get_param_by_key value (codes "serverType") in
      let server_id = get_param_by_key value (codes "serverId") in
      skipped_or_added (same server_type [] || same server_id []) m
        (add_peer peer server_type server_id (peer key) m)
        (if same server_id id then made peer server_type server_id (peer key) else [])
        (listed-add_peer server_type server_id (peer key) m)

  listed-add_services :
      (kvs : List (Bytes × Bytes)) (m : Assoc Bytes (List Instance))
      → listed (lookup id (add_services peer kvs m)) ≡ listed (lookup id m) ++ announced peer id kvs
  unfolding add_services
  listed-add_services [] m = sym (append-nil (listed (lookup id m)))
  listed-add_services (kv ∷ kvs) m =
      listed-add_services kvs (add_service peer kv m)
      ∙ (rw (listed-add_service kv m)
          (append_assoc (listed (lookup id m)) (announced_by peer id kv) (announced peer id kvs)))

  -- After a change of the services the registry holds for each server exactly the instances that the
  -- new list announces, in its order: a service without a server id, without a type or without a
  -- reachable peer is left out, and nothing of the old registry stays.
  pub watch_services_change-announced :
      (kvs : List (Bytes × Bytes)) (rc : RpcConnectClient)
      → listed (lookup id (watch_services_change peer kvs rc).server_ins_map)
        ≡ announced peer id kvs
  unfolding watch_services_change lookup
  watch_services_change-announced kvs rc = listed-add_services kvs []
