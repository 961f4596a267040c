-- ===== src/Connect/Server.antt =====
-- connect/server.go, the push calls of connect/rpc.go, and the two read loops (readPump, and
-- readDataFromTcp of connect/server_tcp.go), one message at a time. CityHash32 is an argument, and so
-- are the logic layer's calls and the JSON decoder.
pub mod Delivery
use yoyichat.Base.{
  ℕ, zero, suc, ◌%◌, Bool, true, false, ◌||◌, Option, none, some, List, [], ◌∷◌, if◌then◌else◌,
  length, get_elem?, set, is_empty,
}
use yoyichat.Base.Bytes.{Bytes}
use yoyichat.Base.Bytes.Decimal.{itoa}
use yoyichat.Base.Int.{ℤ, pos, int32, not_positive, ◌==ℤ◌}
use yoyichat.Messages.{
  Msg, PushMsgRequest, PushRoomMsgRequest, ConnectRequest, DisConnectRequest, SendMsg, SendTcpMsg,
  SuccessReply, empty_send, op_build_tcp_conn, op_room_send, success_reply_code, success_reply_msg,
}
use yoyichat.StickPackage.{Unpacked, short, unpacked, unpack}
use yoyichat.Connect.Heap.{Heap, push_channel, update}
use yoyichat.Connect.Bucket
use yoyichat.Connect.Bucket.{Bucket, Sending, sent, blocked, broadcast_room}

pub record Server : Type 0 where
  pub buckets : List Bucket
  pub bucket_idx : ℕ

unfoldable pub new_server : List Bucket → Server
new_server b = record { buckets = b; bucket_idx = length b }

-- the index of the user's bucket, `none` for the division by zero of a server without buckets
unfoldable pub index_of : (Bytes → ℕ) → ℕ → ℤ → Option ℕ
index_of hash zero user_id = none
index_of hash (suc n) user_id = some (hash (itoa user_id) % suc n)

unfoldable pub with_bucket : ℕ → Option Bucket → Option (ℕ × Bucket)
with_bucket i none = none
with_bucket i (some b) = some (i, b)

unfoldable pub bucket_at : List Bucket → Option ℕ → Option (ℕ × Bucket)
bucket_at bs none = none
bucket_at bs (some i) = with_bucket i (get_elem? bs i)

unfoldable pub bucket : (Bytes → ℕ) → Server → ℤ → Option (ℕ × Bucket)
bucket hash s user_id = bucket_at s.buckets (index_of hash s.bucket_idx user_id)

unfoldable pub put_bucket : ℕ → Bucket → Server → Server
put_bucket i b s = record s { buckets = set s.buckets i b }

-- `PushSingleMsg`, with the reply: it is left empty where the user has a channel. `none` is a panic.
abbrev pub empty_reply : SuccessReply
empty_reply = record { code = pos 0; msg = [] }

abbrev pub success_reply : SuccessReply
success_reply = record { code = success_reply_code; msg = success_reply_msg }

unfoldable pub push_to_user : Option ℕ → Msg → Heap → SuccessReply × Heap
push_to_user none msg h = (success_reply, h)
push_to_user (some c) msg h = (empty_reply, push_channel msg c h)

unfoldable pub push_in_bucket :
    Option (ℕ × Bucket) → PushMsgRequest → Heap → Option (SuccessReply × Heap)
push_in_bucket none req h = none
push_in_bucket (some (i, b)) req h = some (push_to_user (Bucket.channel b req.user_id) req.msg h)

unfoldable pub push_single_msg :
    (Bytes → ℕ) → Server → PushMsgRequest → Heap → Option (SuccessReply × Heap)
push_single_msg hash s req h = push_in_bucket (bucket hash s req.user_id) req h

-- `PushRoomMsg`, `PushRoomCount` and `PushRoomInfo`: the request goes to every bucket in turn, until
-- one of them blocks or panics.
pub data Broadcast : Type 0 where
  done : List Bucket → Broadcast
  waits : Broadcast
  fails : Broadcast

unfoldable pub after_bucket : Sending → Broadcast → Broadcast
after_bucket (sent b) (done bs) = done (b ∷ bs)
after_bucket (sent b) waits = waits
after_bucket (sent b) fails = fails
after_bucket blocked rest = waits
after_bucket Sending.panics rest = fails

unfoldable pub broadcast_all : List Bucket → PushRoomMsgRequest → Broadcast
broadcast_all [] req = done []
broadcast_all (b ∷ bs) req = after_bucket (broadcast_room b req) (broadcast_all bs req)

unfoldable pub push_room_msg : Server → PushRoomMsgRequest → SuccessReply × Broadcast
push_room_msg s req = (success_reply, broadcast_all s.buckets req)

-- `type Operator interface`, and `rpc.RpcLogicObj.PushRoom`, whose answer is only logged
pub record Operator : Type 1 where
  pub State : Type 0
  pub connect : ConnectRequest → State → (ℤ × Option Bytes) × State
  pub disconnect : DisConnectRequest → State → Option Bytes × State
  pub push_room : SendMsg → State → State

unfoldable pub close : ℕ → Heap → Heap
close c h = record h { channel = update h.channel c (record (h.channel c) { closed = true }) }

module _ (hash : Bytes → ℕ) (O : Operator) (server_id : Bytes) where
  -- the connect layer and what lies behind the operator
  pub record World : Type 0 where
    pub server : Server
    pub heap : Heap
    pub logic : O.State

  -- What a round of a loop ends in: another round, a new scan of the connection (the `break` of the TCP
  -- loop), the return of the loop, or a panic.
  pub data Round : Type 0 where
    again : World → Round
    rescans : World → Round
    returns : World → Round
    crashes : Round

  -- `b.Put`: its error closes the connection; the loop of server_tcp.go returns then, the one of
  -- server.go goes on to read
  unfoldable pub after_put : Bool → ℕ → ℕ → World → Option Bytes × Bucket × Heap → Round
  after_put tcp i c w (none, b, h) = again (record w { server = put_bucket i b w.server; heap = h })
  after_put true i c w (some e, b, h) =
      returns (record w { server = put_bucket i b w.server; heap = close c h })
  after_put false i c w (some e, b, h) =
      again (record w { server = put_bucket i b w.server; heap = close c h })

  unfoldable pub insert_channel : Bool → ℤ → ℤ → ℕ → World → Round
  insert_channel tcp user_id room_id c w = elim (bucket hash w.server user_id) [
    | none ↦ crashes
    | some ib ↦ after_put tcp ib.0 c w (Bucket.put ib.1 user_id room_id c w.heap)
  ]

  unfoldable pub after_connect : Bool → ℤ → ℕ → World → (ℤ × Option Bytes) × O.State → Round
  after_connect tcp room_id c w ((user_id, some e), s) = returns (record w { logic = s })
  after_connect tcp room_id c w ((user_id, none), s) =
      if user_id ==ℤ pos 0
      then returns (record w { logic = s })
      else insert_channel tcp user_id room_id c (record w { logic = s })

  unfoldable pub connect_channel : Bool → Bytes → ℤ → ℕ → World → Round
  connect_channel tcp auth_token room_id c w = after_connect tcp room_id c w (
      O.connect (record { auth_token = auth_token; room_id = room_id; server_id = server_id })
        w.logic)

  -- `readPump` on a message: what `json.Unmarshal` leaves in `connReq`, or a nil message
  unfoldable pub read_request : Option ConnectRequest → ℕ → World → Round
  read_request none c w = returns w
  read_request (some req) c w =
      if is_empty req.auth_token
      then returns w
      else connect_channel false req.auth_token req.room_id c w

  unfoldable pub read_pump : (Bytes → Option ConnectRequest) → Option Bytes → ℕ → World → Round
  read_pump unmarshal none c w = returns w
  read_pump unmarshal (some message) c w = read_request (unmarshal message) c w

  -- the message of a TCP client for a room
  unfoldable pub room_message_of : SendTcpMsg → SendMsg
  room_message_of raw = record empty_send {
    msg = raw.msg;
    from_user_id = raw.from_user_id;
    from_user_name = raw.from_user_name;
    room_id = raw.room_id;
    op = op_room_send;
  }

  -- `readDataFromTcp` on the message of a frame, once it is decoded
  unfoldable pub read_tcp : SendTcpMsg → ℕ → World → Round
  read_tcp raw c w =
      if is_empty raw.auth_token || not_positive raw.room_id
      then returns w
      else if raw.op ==ℤ op_build_tcp_conn
      then connect_channel true raw.auth_token raw.room_id c w
      else if raw.op ==ℤ op_room_send
      then again (record w { logic = O.push_room (room_message_of raw) w.logic })
      else again w

  -- A token of the scanner: a frame that is short, or whose message is no JSON (`none`), ends the scan.
  unfoldable pub read_decoded : Option SendTcpMsg → ℕ → World → Round
  read_decoded none c w = rescans w
  read_decoded (some raw) c w = read_tcp raw c w

  unfoldable pub read_unpacked : (Bytes → Option SendTcpMsg) → Unpacked → ℕ → World → Round
  read_unpacked unmarshal Unpacked.panics c w = crashes
  read_unpacked unmarshal short c w = rescans w
  read_unpacked unmarshal (unpacked p) c w = read_decoded (unmarshal p.msg) c w

  unfoldable pub read_frame : (Bytes → Option SendTcpMsg) → Bytes → ℕ → World → Round
  read_frame unmarshal frame c w = read_unpacked unmarshal (unpack frame) c w

  -- The loop over the frames of the connection, which is scanned `scans` more times: three from the
  -- start, for `scanTimes > 3` ends it.
  unfoldable pub read_frames :
      (Bytes → Option SendTcpMsg) → (scans : ℕ) → List Bytes → ℕ → World → Round
  read_frames unmarshal zero fs c w = returns w
  read_frames unmarshal (suc scans) [] c w = returns w
  read_frames unmarshal (suc scans) (f ∷ fs) c w = elim (read_frame unmarshal f c w) [
    | again w' ↦ read_frames unmarshal (suc scans) fs c w'
    | rescans w' ↦ read_frames unmarshal scans fs c w'
    | returns w' ↦ returns w'
    | crashes ↦ crashes
  ]

  -- The deferred function of both loops: `none` is a panic.
  unfoldable pub notify_logic : ℤ → ℤ → ℕ → World → World
  notify_logic room_id user_id c w = record w {
    heap = close c w.heap;
    logic = (O.disconnect (record { room_id = int32 room_id; user_id = int32 user_id }) w.logic).1;
  }

  unfoldable pub leave_bucket : ℕ → ℕ × Bucket → ℕ → World → Option World
  leave_bucket r ib c w = elim (Bucket.delete_channel ib.1 c w.heap) [
    | none ↦ none
    | some bh ↦ some (
        notify_logic (w.heap.room r).id (w.heap.channel c).user_id c
          (record w { server = put_bucket ib.0 bh.0 w.server; heap = bh.1 }))
  ]

  unfoldable pub leave : Option ℕ → ℕ → World → Option World
  leave none c w = some (record w { heap = close c w.heap })
  leave (some r) c w =
      if (w.heap.channel c).user_id ==ℤ pos 0
      then some (record w { heap = close c w.heap })
      else elim (bucket hash w.server (w.heap.channel c).user_id) [
        | none ↦ none
        | some ib ↦ leave_bucket r ib c w
      ]

  unfoldable pub stop_reading : ℕ → World → Option World
  stop_reading c w = leave (w.heap.channel c).room c w
