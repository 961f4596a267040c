-- ===== src/Connect/Operator.antt =====
-- DefaultOperator of connect/operator.go and the calls of the logic layer in connect/rpc.go. etcd and the
-- rpc client are arguments.
use yoyichat.Base.{
  ℕ, ◌≡◌, refl, sym, if◌then◌else◌, Bool, true, false, Option, none, some, Result, ok, err,
}
use yoyichat.Base.Bytes.{Bytes, codes}
use yoyichat.Base.Int.{ℤ}
use yoyichat.Messages.{ConnectRequest, DisConnectRequest}

-- A call returns, or `logrus.Fatalf` ends the whole process.
pub data Called {ℓ} (A : Type ℓ) : Type ℓ where
  replies : A → Called A
  exits : Called A

-- `logicRpcClient.Call` for the two methods: the reply's user id, or the error
pub record LogicRpc : Type 1 where
  pub State : Type 0
  pub connect : ConnectRequest → State → Result ℤ × State
  pub disconnect : DisConnectRequest → State → Option Bytes × State

unfoldable pub connect_result : Result ℤ → Called (ℤ × Option Bytes)
connect_result (err e) = exits
connect_result (ok user_id) = replies (user_id, none)

unfoldable pub disconnect_result : Option Bytes → Called (Option Bytes)
disconnect_result (some e) = exits
disconnect_result none = replies none

module _ (L : LogicRpc) where
  unfoldable pub connect : ConnectRequest → L.State → Called (ℤ × Option Bytes) × L.State
  connect req s = let (r, s') = L.connect req s in (connect_result r, s')

  unfoldable pub disconnect : DisConnectRequest → L.State → Called (Option Bytes) × L.State
  disconnect req s = let (e, s') = L.disconnect req s in (disconnect_result e, s')

-- `InitLogicRpcClient`: `done` is the `sync.Once`, and `logic_rpc_client` the client that it made
pub record Singleton : Type 0 where
  pub done : Bool
  pub logic_rpc_client : Option ℕ

unfoldable pub made : Result ℕ → Called Singleton
made (err e) = exits
made (ok client) = replies (record { done = true; logic_rpc_client = some client })

-- The first call makes the client, and a failure of the discovery ends the process.
unfoldable pub once_do : Result ℕ → Singleton → Called Singleton
once_do discovery s = if s.done then replies s else made discovery

unfoldable pub client_error : Singleton → Option Bytes
client_error s = elim s.logic_rpc_client [
  | none ↦ some (codes "get rpc client nil")
  | some client ↦ none
]

unfoldable pub checked : Called Singleton → Called (Option Bytes × Singleton)
checked exits = exits
checked (replies s) = replies (client_error s, s)

unfoldable pub init_logic_rpc_client : Result ℕ → Singleton → Called (Option Bytes × Singleton)
init_logic_rpc_client discovery s = checked (once_do discovery s)

abbrev pub fresh : Singleton
fresh = record { done = false; logic_rpc_client = none }

abbrev pub with_client : ℕ → Singleton
with_client client = record { done = true; logic_rpc_client = some client }

-- From a new process on, a call that returns has made a client, with no error, and every later call
-- leaves that client, whatever the discovery says then.
init_logic_rpc_client-once :
    (client : ℕ) (later : Result ℕ)
    → (init_logic_rpc_client (ok client) fresh ≡ replies (none, with_client client))
      × (init_logic_rpc_client later (with_client client) ≡ replies (none, with_client client))
unfolding init_logic_rpc_client once_do made checked client_error
init_logic_rpc_client-once client later = (refl, refl)

connect_result_replies :
    (r : Result ℤ) (user_id : ℤ) (e : Option Bytes)
    → connect_result r ≡ replies (user_id, e)
    → (r ≡ ok user_id) × (e ≡ none)
unfolding connect_result
connect_result_replies (err x) user_id e f = absurd (cc f)
connect_result_replies (ok u) user_id e f =
    let mine : Called (ℤ × Option Bytes) = replies (u, none) in
    let f' : mine ≡ replies (user_id, e) = f in
    let same_user : u ≡ user_id = cc f' in
    let same_error : none ≡ e = cc f' in (rw (same_user) refl, sym same_error)

-- The read loops never see an error of `Connect`: the operator gives none, and where the logic layer
-- answers with one the process has ended.
connect_replies :
    (L : LogicRpc) (req : ConnectRequest) (s : L.State) (user_id : ℤ) (e : Option Bytes)
    → (connect L req s).0 ≡ replies (user_id, e)
    → ((L.connect req s).0 ≡ ok user_id) × (e ≡ none)
unfolding connect
connect_replies L req s user_id e f = connect_result_replies (L.connect req s).0 user_id e f
