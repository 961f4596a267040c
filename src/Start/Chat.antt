-- ===== src/Start/Chat.antt =====
-- The run of the API layer (Run of api/chat.go, InitLogicRpcClient of api/rpc/rpc.go). etcd, the
-- environment and the signals are arguments.
use yoyichat.Base.{ℕ, ◌≡◌, refl, Bool, true, false, sym, none, some, ◌∷◌, Result, ok, err}
use yoyichat.Base.Bytes.{Bytes}
use yoyichat.Base.Bytes.Decimal.{itoa}
use yoyichat.Base.Int.{ℤ}
use yoyichat.Connect.Operator
use yoyichat.Connect.Operator.{Called, replies, exits, Singleton, once_do, fresh}
use yoyichat.Start.{get_gin_run_mode}

-- `InitLogicRpcClient`: a client that is nil after all ends the process as well
unfoldable pub client_made : Called Singleton → Called Singleton
client_made exits = exits
client_made (replies s) = elim s.logic_rpc_client [ none ↦ exits | some client ↦ replies s ]

unfoldable pub init_logic_rpc_client : Result ℕ → Singleton → Called Singleton
init_logic_rpc_client discovery s = client_made (once_do discovery s)

-- the server with its gin mode and address, until a signal ends the process, with the code 0
pub data ChatRun : Type 0 where
  serves : Singleton → (mode addr : Bytes) → ChatRun
  exits_with : ℕ → ChatRun

unfoldable pub listen_until : (quit : Bool) → Singleton → (mode addr : Bytes) → ChatRun
listen_until true s mode addr = exits_with 0
listen_until false s mode addr = serves s mode addr

unfoldable pub chat_run_with :
    Called Singleton → (env : Bytes) → (listen_port : ℤ) → (quit : Bool) → ChatRun
chat_run_with exits env listen_port quit = exits_with 1
chat_run_with (replies s) env listen_port quit =
    listen_until quit s (get_gin_run_mode env) (b':' ∷ itoa listen_port)

unfoldable pub chat_run :
    Result ℕ → Singleton → (env : Bytes) → (listen_port : ℤ) → (quit : Bool) → ChatRun
chat_run discovery s env listen_port quit =
    chat_run_with (init_logic_rpc_client discovery s) env listen_port quit

-- A new process of the API layer serves only with a client of the logic layer, and in the
-- mode that the environment names.
chat_run-fresh :
    (discovery : Result ℕ) (env : Bytes) (listen_port : ℤ) (s : Singleton) (mode addr : Bytes)
    → chat_run discovery fresh env listen_port false ≡ serves s mode addr
    → (client : ℕ) × (discovery ≡ ok client)
      × (s.logic_rpc_client ≡ some client)
      × (mode ≡ get_gin_run_mode env)
unfolding chat_run chat_run_with init_logic_rpc_client client_made once_do Operator.made
    listen_until
chat_run-fresh (err e) env listen_port s mode addr e' = absurd (cc e')
chat_run-fresh (ok client) env listen_port s mode addr e =
    let s₀ : Singleton = record { done = true; logic_rpc_client = some client } in
    let mine : serves s₀ (get_gin_run_mode env) (b':' ∷ itoa listen_port) ≡ serves s mode addr =
      e in
    let same : s₀ ≡ s = cc mine in (client, refl, rw (← same) refl, sym (cc mine))
