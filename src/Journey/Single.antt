-- ===== src/Journey/Single.antt =====
-- A message for one user, from Push of logic/rpc.go to the call of PushSingleMsg.
use yoyichat.Base.{
  ℕ, suc, ◌%◌, ◌<◌, ◌≡◌, refl, Option, none, some, List, [], ◌∷◌, ◌++◌, get_elem?, ok, ◌∙◌, arith,
}
use yoyichat.Base.Bytes.{Bytes}
use yoyichat.Base.Bytes.Decimal.{itoa}
use yoyichat.Base.Int.{int32}
use yoyichat.Messages.{SendMsg, queue_name, success_reply_code, op_single_send}
use yoyichat.Logic.Redis.{Redis, IsUp, text_value, get}
use yoyichat.Logic.Keys.{get_user_key}
use yoyichat.Logic.Publish
use yoyichat.Logic.Publish.{publish, redis_publish_single_send, single_send}
use yoyichat.Logic.Rooms
use yoyichat.Logic.Rooms.{finish_publish, push_marshalled_to}
use yoyichat.Task.Push
use yoyichat.Task.Push.{
  Codec, TaskBase, TaskState, Outcome, done, push_single_msg, message, push_redis_msg,
  process_single_push,
}
use yoyichat.Task.Push.Routing.{Serves, IsClientOf, single_send-push_single}
use yoyichat.Task.Queue.{consume_queue}
use yoyichat.Task.Queue.Order.{Queue, publish-Queue, consume_queue-Queue}

finish_publish_lem :
    {S : Type 0} (p : Option Bytes × S)
    → p.0 ≡ none
    → finish_publish p ≡ ((success_reply_code, none), p.1)
finish_publish_lem (none, s) e = refl
finish_publish_lem (some x, s) e = absurd (ground arith)

-- what Push leaves behind: the user's server is read, and the message published
abbrev pub sent_by :
    (R : Redis) → Publish.Codec → SendMsg → (server_id body : Bytes) → R.State → R.State
sent_by R logic req server_id body s =
    (publish R logic (single_send server_id req.to_user_id body)
      (R.run (get (get_user_key (itoa req.to_user_id))) s).1).1

module _ (R : Redis) (up : IsUp R) (logic : Publish.Codec) (req : SendMsg)
    (server_id body b : Bytes) (s : R.State)
    (named : up.view s (get_user_key (itoa req.to_user_id)) ≡ text_value server_id)
    (packed : logic.marshal_send_msg req ≡ ok body)
    (queued : logic.marshal_redis_msg (single_send server_id req.to_user_id body) ≡ ok b) where
  module _ (p : List Bytes) (waiting : Queue (up.view s queue_name) p) where
    pub published :
        ((publish R logic
            (single_send server_id req.to_user_id body)
            (R.run (get (get_user_key (itoa req.to_user_id))) s).1).0
          ≡ none)
        × Queue (up.view (sent_by R logic req server_id body s) queue_name) (p ++ b ∷ [])
    published =
        publish-Queue R up logic (single_send server_id req.to_user_id body) b p
          (R.run (get (get_user_key (itoa req.to_user_id))) s).1 queued
          (rw (up.effects (get (get_user_key (itoa req.to_user_id))) s) waiting)

    pub push-publish :
        Rooms.push R logic req s
        ≡ ((success_reply_code, none), sent_by R logic req server_id body s)
    unfolding Rooms.push push_marshalled_to redis_publish_single_send
    push-publish =
        rw (packed, up.answers (get (get_user_key (itoa req.to_user_id))) s, named)
          (finish_publish_lem
            (publish R logic (single_send server_id req.to_user_id body)
              (R.run (get (get_user_key (itoa req.to_user_id))) s).1)
            published.0)

    -- the message of a push that succeeds stands behind those that wait
    pub push-Queue :
        ((Rooms.push R logic req s).0 ≡ (success_reply_code, none))
        × Queue (up.view (Rooms.push R logic req s).1 queue_name) (p ++ b ∷ [])
    push-Queue = rw (push-publish) (refl, published.1)

  module _ (task : Codec) (conf : TaskBase) (rand n : ℕ) (seq : Bytes) (ids : List Bytes)
      (t : TaskState) (decoded : task.unmarshal b ≡ single_send server_id req.to_user_id body)
      (idle : Queue (up.view s queue_name) []) (chans : conf.push_chan ≡ suc n)
      (room : 0 < conf.push_chan_size)
      (free : get_elem? t.push_channel (rand % suc n) ≡ some []) where
    consumed :
        (consume_queue R task conf rand seq ids t (Rooms.push R logic req s).1).0
        ≡ push_redis_msg task conf rand seq ids (single_send server_id req.to_user_id body) t
    unfolding Push.push
    consumed =
        (consume_queue-Queue R up task conf rand seq ids t b [] (Rooms.push R logic req s).1
          (push-Queue [] idle).1).0
        ∙ (rw (decoded) refl)

    -- A message for a user whose key names a server, sent while the queue and the push channel are
    -- empty: the call succeeds, the next round of the consumer takes the message from the queue, and
    -- one round of the push channel's consumer calls `PushSingleMsg` on an instance of that server, with
    -- the user and the marshalled request. It needs an instance of the server, room in the channel, and
    -- that both codecs give their results on these messages, the one back what the other was given.
    pub push-arrives :
        Serves t.clients.server_ins_map server_id
        → ((Rooms.push R logic req s).0 ≡ (success_reply_code, none))
          × (t₁ t₂ : TaskState) × (c : ℕ) × ((consume_queue R task conf rand seq ids t
                (Rooms.push R logic req s).1).0
              ≡ done t₁)
          × (process_single_push (rand % suc n) seq t₁ ≡ done t₂)
          × (t₂.calls
              ≡ t.calls
                ++ push_single_msg c (record {
                  user_id = int32 (int32 req.to_user_id);
                  msg = message op_single_send seq body;
                })
                  ∷ [])
          × IsClientOf t.clients.server_ins_map server_id c
    unfolding single_send
    push-arrives serves =
        let (t₁, t₂, c, queues, calls, made, is) =
          single_send-push_single task conf rand n seq ids
            (single_send server_id req.to_user_id body) t chans room refl free serves in
        ((push-Queue [] idle).0, t₁, t₂, c, consumed ∙ queues, calls, made, is)
