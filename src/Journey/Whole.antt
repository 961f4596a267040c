-- ===== src/Journey/Whole.antt =====
-- The whole way of a message for one user: from the user's connection to the user's channel.
use yoyichat.Base.{
  ℕ, suc, ◌%◌, ◌<◌, ◌≡◌, refl, false, none, some, List, [], ◌∷◌, ◌++◌, get_elem?, ok, ◌∙◌,
}
use yoyichat.Base.Bytes.{Bytes}
use yoyichat.Base.Int.{ℤ, pos, int32, ◌==ℤ◌}
use yoyichat.Messages.{
  SendMsg, ConnectRequest, PushMsgRequest, queue_name, success_reply_code, op_single_send,
}
use yoyichat.Logic.Redis.{Redis, IsUp}
use yoyichat.Logic.Publish
use yoyichat.Logic.Publish.{single_send}
use yoyichat.Logic.Rooms
use yoyichat.Logic.Rooms.{connect_user}
use yoyichat.Logic.Rooms.Servers.{connect_user-server, connect_user-queue}
use yoyichat.Task.Push.{
  Codec, TaskBase, TaskState, done, push_single_msg, message, process_single_push,
}
use yoyichat.Task.Push.Routing.{Serves, IsClientOf}
use yoyichat.Task.Queue.{consume_queue}
use yoyichat.Task.Queue.Order.{Queue}
use yoyichat.Connect.Heap.{Heap, push_channel}
use yoyichat.Connect.Bucket.{Bucket}
use yoyichat.Connect.Server
use yoyichat.Connect.Server.{Server, bucket, empty_reply}
use yoyichat.Connect.Server.Delivery.{joined, joined_heap, push_single_msg-joined}
use yoyichat.Journey.Single.{push-arrives}

-- the request that the task layer makes for the user
abbrev pub request_for : ℤ → Bytes → Bytes → PushMsgRequest
request_for user_id seq body = record { user_id = user_id; msg = message op_single_send seq body }

module _ (R : Redis) (up : IsUp R) (logic : Publish.Codec) (task : Codec) (conf : TaskBase)
    (hash : Bytes → ℕ) (rand n : ℕ) (seq : Bytes) (ids : List Bytes) where
  -- A user, whose id is not 0 and fits 32 bits, connects to a room through a connect instance, where the
  -- user's channel is put into the user's bucket. Then a message for the user is sent, while the queue
  -- and its push channel are empty. The task layer makes one call of `PushSingleMsg` on an instance of
  -- that server, and the call, made on the connect instance, offers the marshalled message to the
  -- channel of the user. It needs an instance of the server, room in the push channel, and that both
  -- codecs give their results on these messages, the one back what the other was given.
  pub connect_user-push :
      (name body b : Bytes) (args : ConnectRequest) (req : SendMsg) (s : R.State) (t : TaskState)
      (server : Server) (c i : ℕ) (bk : Bucket) (h : Heap)
      → (req.to_user_id ==ℤ pos 0) ≡ false
      → int32 req.to_user_id ≡ req.to_user_id
      → bucket hash server req.to_user_id ≡ some (i, bk)
      → logic.marshal_send_msg req ≡ ok body
      → logic.marshal_redis_msg (single_send args.server_id req.to_user_id body) ≡ ok b
      → task.unmarshal b ≡ single_send args.server_id req.to_user_id body
      → Queue (up.view s queue_name) []
      → conf.push_chan ≡ suc n
      → 0 < conf.push_chan_size
      → get_elem? t.push_channel (rand % suc n) ≡ some []
      → Serves t.clients.server_ins_map args.server_id
      → let s₁ = (connect_user R logic req.to_user_id name args s).1 in
        let sent = Rooms.push R logic req s₁ in
        let call = request_for req.to_user_id seq body in
        (sent.0 ≡ (success_reply_code, none))
        × (t₁ t₂ : TaskState) × (client : ℕ) × ((consume_queue R task conf rand seq ids t sent.1).0
            ≡ done t₁)
        × (process_single_push (rand % suc n) seq t₁ ≡ done t₂)
        × (t₂.calls ≡ t.calls ++ push_single_msg client call ∷ [])
        × IsClientOf t.clients.server_ins_map args.server_id client
        × (Server.push_single_msg hash
              (joined hash server req.to_user_id args.room_id c i bk h)
              call
              (joined_heap hash server req.to_user_id args.room_id c i bk h)
            ≡ some (
              empty_reply,
              push_channel call.msg c
                  (joined_heap hash server req.to_user_id args.room_id c i bk h),
            ))
  connect_user-push name body b args req s t server c i bk h real fits at packed queued decoded idle
        chans room free serves =
      let s₁ = (connect_user R logic req.to_user_id name args s).1 in
      let (ok_reply, t₁, t₂, client, queues, processed, made, is) =
        push-arrives R up logic req args.server_id body b s₁
          (connect_user-server R up logic req.to_user_id name args s real) packed queued task conf
          rand n seq ids t decoded
          (rw (connect_user-queue R up logic req.to_user_id name args s real) idle) chans room free
          serves in
      (
        ok_reply,
        t₁,
        t₂,
        client,
        queues,
        processed,
        made ∙ (rw (fits, fits) refl),
        is,
        push_single_msg-joined hash server req.to_user_id args.room_id c i bk h
            (message op_single_send seq body) at,
      )
