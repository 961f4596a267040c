-- ===== src/Task/Queue.antt =====
-- The consumer of task/queue.go: the queue between the logic layer and the task layer is a Redis list,
-- in which publish.go of the logic layer puts the messages on the left, and from whose right end the
-- task layer takes them.
pub mod Order
use yoyichat.Base.{ℕ, List}
use yoyichat.Base.Bytes.{Bytes}
use yoyichat.Messages.{queue_name}
use yoyichat.Logic.Redis.{Redis, brpop, items_of}
use yoyichat.Task.Push.{Codec, TaskBase, TaskState, Outcome, consume}

module _ (R : Redis) (codec : Codec) (conf : TaskBase) where
  open R use {State, run}

  -- a round of the loop in `InitQueueRedisClient`; an error is only logged
  unfoldable pub consume_queue : ℕ → Bytes → List Bytes → TaskState → State → Outcome × State
  consume_queue rand seq ids t s =
      let (a, s') = run (brpop queue_name 10) s in
      (consume codec conf rand seq ids (items_of a) t, s')
