-- ===== src/Start.antt =====
-- The start of the services, as far as it decides something: the modules of main.go, the run modes of
-- config/config.go, the server that connect/connect.go makes, the channels of new connections, and the
-- addresses that connect/rpc.go and logic/publish.go listen at.
pub mod Chat
pub mod Config
pub mod Services
pub mod Tasks
use yoyichat.Base.{
  ℕ, Bool, true, false, Option, none, some, List, [], ◌∷◌, ◌++◌, if◌then◌else◌, replicate,
}
use yoyichat.Base.Bytes.{Bytes, codes, same, split}
use yoyichat.Tools.{parse_network}
use yoyichat.Connect.Heap.{Channel, new_channel}
use yoyichat.Connect.Bucket.{BucketOptions, new_bucket}
use yoyichat.Connect.Server.{Server, new_server}

-- the names that the flag `module` may have; another one starts nothing
pub data Module : Type 0 where
  logic connect_websocket connect_tcp task api client : Module

abbrev pub modules : List (Bytes × Module)
modules =
    (codes "logic", logic)
    ∷ (codes "connect_websocket", connect_websocket)
    ∷ (codes "connect_tcp", connect_tcp)
    ∷ (codes "task", task)
    ∷ (codes "api", api)
    ∷ (codes "client", client)
    ∷ []

unfoldable pub find_module : Bytes → List (Bytes × Module) → Option Module
find_module name [] = none
find_module name ((n, m) ∷ ms) = if same name n then some m else find_module name ms

unfoldable pub main : Bytes → Option Module
main name = find_module name modules

-- `GetMode` of the environment's RUN_MODE, and `GetGinRunMode`
unfoldable pub get_mode : Bytes → Bytes
get_mode env = if same env [] then codes "dev" else env

unfoldable pub get_gin_run_mode : Bytes → Bytes
get_gin_run_mode env =
    if same (get_mode env) (codes "dev")
    then codes "debug"
    else if same (get_mode env) (codes "test")
    then codes "debug"
    else if same (get_mode env) (codes "prod")
    then codes "release"
    else codes "release"

-- the part of the configuration that the buckets are made of
pub record ConnectBucket : Type 0 where
  pub cpu_num : ℕ
  pub channel : ℕ
  pub room : ℕ
  pub routine_amount : ℕ
  pub routine_size : ℕ

-- the times in seconds
pub record ServerOptions : Type 0 where
  pub write_wait : ℕ
  pub pong_wait : ℕ
  pub ping_period : ℕ
  pub max_message_size : ℕ
  pub read_buffer_size : ℕ
  pub write_buffer_size : ℕ
  pub broadcast_size : ℕ

abbrev pub server_options : ServerOptions
server_options = record {
  write_wait = 10;
  pong_wait = 60;
  ping_period = 54;
  max_message_size = 512;
  read_buffer_size = 1024;
  write_buffer_size = 1024;
  broadcast_size = 512;
}

unfoldable pub bucket_options : ConnectBucket → BucketOptions
bucket_options conf = record {
  channel_size = conf.channel;
  room_size = conf.room;
  routine_amount = conf.routine_amount;
  routine_size = conf.routine_size;
}

-- `DefaultServer`, which `Run` and `RunTcp` make alike
unfoldable pub default_server : ConnectBucket → Server
default_server conf = new_server (replicate conf.cpu_num (new_bucket (bucket_options conf)))

-- what `serveWs` and `ServeTcp` make of a connection
unfoldable pub serve : ServerOptions → Channel
serve options = new_channel options.broadcast_size

-- `ServerId`: the kind of the server, and a UUID
unfoldable pub server_id : (kind uuid : Bytes) → Bytes
server_id kind uuid = kind ++ (codes "-" ++ uuid)

-- The loop over the addresses: each is parsed before the service is started there, and a bad one panics.
-- The result is the services that were started, and whether the loop got through.
unfoldable pub start_all : List Bytes → List (Bytes × Bytes) × Bool
start_all [] = ([], true)
start_all (bind ∷ binds) =
    let (started, all) = start_all binds in
    elim (parse_network bind) [ none ↦ ([], false) | some address ↦ (address ∷ started, all) ]

unfoldable pub init_rpc_server : Bytes → List (Bytes × Bytes) × Bool
init_rpc_server addresses = start_all (split b',' addresses)

-- the address that is registered with etcd
unfoldable pub service_address : Bytes × Bytes → Bytes
service_address (network, addr) = network ++ (codes "@" ++ addr)

-- What the connect layer has when it begins to listen: the services are those of its rpc server, and
-- `all` is false where a bad address ended it with a panic.
pub record Started : Type 0 where
  pub server : Server
  pub id : Bytes
  pub services : List (Bytes × Bytes)
  pub all : Bool

-- `Run` and `RunTcp`, once the client of the logic layer is there; the addresses are those of the
-- configuration
unfoldable pub run : ConnectBucket → (uuid addresses : Bytes) → Started
run conf uuid addresses =
    let (services, all) = init_rpc_server addresses in
    record {
      server = default_server conf;
      id = server_id (codes "ws") uuid;
      services = services;
      all = all;
    }

unfoldable pub run_tcp : ConnectBucket → (uuid addresses : Bytes) → Started
run_tcp conf uuid addresses =
    let (services, all) = init_rpc_server addresses in
    record {
      server = default_server conf;
      id = server_id (codes "tcp") uuid;
      services = services;
      all = all;
    }
