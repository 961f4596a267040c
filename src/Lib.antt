-- ===== src/Lib.antt =====
-- yoyichat is a chat server in four layers. The API layer (api/) answers HTTP requests and calls the
-- logic layer (logic/) by rpc; the logic layer keeps sessions, room tables and counts in Redis and
-- pushes each message on a Redis queue; the task layer (task/) takes the messages off the queue and
-- calls the connect layer (connect/), which holds the websocket and TCP connections, sorts them into
-- buckets and rooms, and sends.
--
-- Files. Paths are from the repository's root; a function foo_bar here is FooBar or fooBar there.
--   Messages: the constants of config/config.go and the structs of pb/.
--   StickPackage: pkg/stickpackage/stickpackage.go, and the split function of
--     connect/server_tcp.go. StickPackage/Frames is about one frame, StickPackage/Stream about many,
--     StickPackage/Pieces about a stream that arrives in pieces.
--   Connect/Heap: Channel and Room of connect/channel.go and connect/room.go as objects on a heap, with
--     references, so that the shared links of the doubly linked list are there.
--   Connect/Room: Put, DeleteChannel and Push of connect/room.go. Below it Members (put), Removal
--     (delete_channel), Delivery and Cycle (push); Frame says what Put and DeleteChannel leave alone, and
--     Chain has the lemmas on linked lists.
--   Connect/Bucket: connect/bucket.go; Connect/Bucket/Routing is about its routines.
--   Connect/Hall: the abstract view of a bucket, a hall of rooms with their members, and what it means
--     that a bucket and its heap implement one. Below it Frame, Opening, Join (Put), Place, Leave
--     (DeleteChannel), Pushes, and Steps with the runs of a bucket: channels that come and go and
--     messages that are pushed, in any order; Newer is about users who came twice, Buffers about the
--     channels' buffers. Connect/Races: what may come between the parts of a call of a bucket.
--   Connect/House: the abstract view of a server, a house with a hall for each bucket and a ticket for
--     each channel. Below it Others (Put) and Leaving (DeleteChannel) as another bucket sees them, Floors
--     with the halls of all buckets, Tickets, Stands with the whole relation, Moves, Calls (the connect
--     request and the end of a connection), Routines, Pushes, Steps with the runs of a server and Runs
--     about them; Presence, Arrival, Service and Broadcasts have what follows for who is where, for
--     connections and single messages, and for room messages.
--   Connect/Server: the choice of a bucket, the push calls of connect/rpc.go and the read loops of
--     connect/server.go and connect/server_tcp.go; Connect/Server/Delivery follows a message to its user.
--   Connect/Write: the write loops of both files. Connect/Listen: the accept loops of
--     connect/server_tcp.go. Connect/Operator: the calls of the logic layer in connect/rpc.go, which
--     connect/operator.go hands on.
--   Task/Params, Task/Registry: task/rpc.go, the registry of the connect layer's instances; below it
--     Turns (the calls) and Discovery (the changes of the services).
--   Task/Push: task/push.go and the calls of task/rpc.go; Task/Push/Routing follows a message through
--     them. Task/Queue: the consumer of task/queue.go; Task/Queue/Order is about the Redis list as a
--     queue, which logic/publish.go fills.
--   Logic/Redis: what the Redis commands in use are documented to do, as an interface and a law.
--   Logic/Keys, Logic/Users, Logic/Publish, Logic/Session, Logic/Rooms: logic/rpc.go,
--     logic/publish.go, logic/dao/user.go and the keys of tools/session_token.go. Logic/Keys/Apart,
--     Logic/Session/Laws, Logic/Session/Again, Logic/Rooms/Counts, Logic/Rooms/Servers, Logic/Rooms/Names
--     and Logic/Rooms/Guests are about them.
--   Tools: tools/response.go, tools/redis.go and tools/network.go; Tools/Lock is about the mutex.
--   Api: api/rpc/rpc.go and the session check of api/router/router.go, which Api/Guard is about;
--     Api/Handler: the handlers; Api/Routes: the routes of api/router/router.go, with what a request
--     without a session gets in Api/Routes/Closed.
--   Journey: a message for one user through all layers; Journey/Single from the call of the logic layer
--     to that of PushSingleMsg, Journey/Post from the HTTP request to the queue, with the logic layer as
--     Journey/Calls gives it to the API layer, Journey/Whole from the user's connection to the user's
--     channel.
--   Client: the terminal client, client/ui.go, client/push.go and client/connect_layer.go, without its
--     drawing; Client/Keys has the keys, and Client/Loading is about its flag. Client/Login: the login
--     form of client/api_layer.go.
--   Start: what main.go, config/config.go, connect/connect.go and the addresses of connect/rpc.go decide.
--     Start/Services: the start of the logic layer in logic/logic.go and logic/publish.go, and the push
--     channels of task/push.go. Start/Config: the reading of the configuration in config/config.go.
--     Start/Tasks, Start/Chat: the runs of task/task.go and of api/chat.go.
--   Base: lists, tests, integers, bytes, decimal numbers and association lists.
--   Examples: the theorems at concrete inputs.
--
-- State. Each step takes the state and returns it: the heap and the bucket in the connect layer, the
-- registry, the push channels and the calls made so far in the task layer, and the state of the Redis
-- server and of the user database in the logic layer. A Go map is an association list; where Go ranges
-- over a map the order is an argument. A Go channel is the list of what waits in it. A call is one step,
-- and the locks that it takes are left out. An outcome may be an error, a wait or a panic, each a
-- constructor of its own. An int32 or int16 conversion or subtraction is written out; a Go int is a
-- mathematical integer.
--
-- Parameters. CityHash32, the JSON and Protocol Buffers coders, the Redis server, the user database, the
-- rpc clients, random numbers, tokens and times are arguments. Theorems about the logic layer suppose a
-- Redis server that is up and does what its documentation says (IsUp); there is one, `plain`. Keys do not
-- expire between the calls of a theorem, and a MULTI block counts as its commands in order.
--
-- Fuel. Room.Push runs on fuel, one unit for each channel it comes to, and `none` is a run without end;
-- the members' number is enough for a well-formed room. The scanner's `frames` runs on fuel, one unit
-- for each token and one for the end; one more than the number of frames is enough, and for pieces the
-- fuel of each and one.
--
-- Runs. A run of a bucket (Connect/Hall/Steps) or of a server (Connect/House/Steps) is any sequence of
-- the calls that the program makes of it: in a server the connect requests, the ends of connections, the
-- pushes, the rounds of the routines and the reads of the write loops, with any change of the logic layer
-- between them. A channel is made when its connection asks to be connected, which it does once; the
-- program may call Put again for the same channel, and Connect/Room/Cycle says what that does.
--
-- Not modelled: the styles and the drawing of the terminal client, the opening of the database, the HTTP
-- and rpc servers with their rpcx, etcd and gin set-up, deadlines and sockets (a channel only knows
-- whether its connection is closed), log lines, and tools/cityhash.go, which is a copy of another
-- project's library. The calls of the connect layer are one step each in the runs, though their locks
-- do not ensure it: DeleteChannel has only a read lock, and Put lets the lock of the bucket go before it
-- takes that of the room. Connect/Races shows what two such races come to; the others are left out.
mod Base
pub mod Messages
pub mod StickPackage
pub mod Connect
pub mod Task
pub mod Logic
pub mod Tools
pub mod Api
pub mod Journey
pub mod Client
pub mod Start
mod Examples
