-- ===== src/Task/Queue/Order.antt =====
-- The Redis list as a queue of messages, the oldest first.
use yoyichat.Base.{ℕ, ◌≡◌, refl, none, List, [], ◌∷◌, ◌++◌, ok, ap, sym, ◌∙◌, arith}
use yoyichat.Base.Bytes.{Bytes, same_refl}
use yoyichat.Messages.{RedisMsg, queue_name}
use yoyichat.Logic.Redis.{
  Redis, IsUp, Value, absent, text_value, table_value, list_value, last_of, front_of, lpush,
  lpush_answer, lpush_effect, brpop, Db, err_of, items_of, brpop_answer, brpop_effect,
}
use yoyichat.Logic.Publish.{publish}
use yoyichat.Logic.Publish
use yoyichat.Task.Push.{Codec, TaskBase, TaskState, push, consume}
use yoyichat.Task.Queue.{consume_queue}

abbrev reversed : List Bytes → List Bytes
reversed [] = []
reversed (x ∷ xs) = reversed xs ++ x ∷ []

-- the key holds the messages `p`, the oldest first
abbrev pub Queue : Value → List Bytes → Type 0
Queue absent p = [] ≡ p
Queue (list_value l) p = reversed l ≡ p
Queue (text_value t) p = ⊥
Queue (table_value t) p = ⊥

reversed-last :
    (x : Bytes) (xs : List Bytes) → reversed (x ∷ xs) ≡ last_of x xs ∷ reversed (front_of x xs)
reversed-last x [] = refl
reversed-last x (y ∷ ys) = ap (λ l. l ++ x ∷ []) (reversed-last y ys)

lpush-Queue :
    (db : Db) (k b : Bytes) (v : Value) (p : List Bytes)
    → Queue v p
    → (err_of (lpush_answer v) ≡ none) × Queue (lpush_effect db k b v k) (p ++ b ∷ [])
lpush-Queue db k b absent p q = (refl, rw (same_refl k) (ap (λ l. l ++ b ∷ []) q))
lpush-Queue db k b (list_value l) p q = (refl, rw (same_refl k) (ap (λ l. l ++ b ∷ []) q))
lpush-Queue db k b (text_value t) p q = absurd q
lpush-Queue db k b (table_value t) p q = absurd q

brpop-Queue :
    (db : Db) (k b : Bytes) (v : Value) (p : List Bytes)
    → db k ≡ v
    → Queue v (b ∷ p)
    → (items_of (brpop_answer k v) ≡ k ∷ b ∷ []) × Queue (brpop_effect db k v k) p
brpop-Queue db k b absent p e q = absurd (ground arith)
brpop-Queue db k b (list_value []) p e q = absurd (ground arith)
brpop-Queue db k b (list_value (x ∷ [])) p e q = (ap (λ l. k ∷ l) (cc q), rw (same_refl k) (cc q))
brpop-Queue db k b (list_value (x ∷ y ∷ ys)) p e q =
    let r : last_of x (y ∷ ys) ∷ reversed (front_of x (y ∷ ys)) ≡ b ∷ p =
      sym (reversed-last x (y ∷ ys)) ∙ q in
    (cc r, rw (same_refl k) (cc r))
brpop-Queue db k b (text_value t) p e q = absurd q
brpop-Queue db k b (table_value t) p e q = absurd q

module _ (R : Redis) (up : IsUp R) where
  open R use {State, run}

  -- A message that the logic layer publishes is put behind all that wait in the queue, with no error.
  pub publish-Queue :
      (codec : Publish.Codec) (m : RedisMsg) (b : Bytes) (p : List Bytes) (s : State)
      → codec.marshal_redis_msg m ≡ ok b
      → Queue (up.view s queue_name) p
      → ((publish R codec m s).0 ≡ none)
        × Queue (up.view (publish R codec m s).1 queue_name) (p ++ b ∷ [])
  unfolding publish
  publish-Queue codec m b p s e q =
      rw (e, up.answers (lpush queue_name b) s, up.effects (lpush queue_name b) s)
        (lpush-Queue (up.view s) queue_name b (up.view s queue_name) p q)

  -- A round of the consumer handles the message that has waited longest, and leaves the others.
  pub consume_queue-Queue :
      (codec : Codec) (conf : TaskBase) (rand : ℕ) (seq : Bytes) (ids : List Bytes) (t : TaskState)
      (b : Bytes) (p : List Bytes) (s : State)
      → Queue (up.view s queue_name) (b ∷ p)
      → ((consume_queue R codec conf rand seq ids t s).0 ≡ push codec conf rand seq ids b t)
        × Queue (up.view (consume_queue R codec conf rand seq ids t s).1 queue_name) p
  unfolding consume_queue consume
  consume_queue-Queue codec conf rand seq ids t b p s q =
      let r = brpop-Queue (up.view s) queue_name b (up.view s queue_name) p refl q in
      (
        rw (up.answers (brpop queue_name 10) s, r.0) refl,
        rw (up.effects (brpop queue_name 10) s) r.1,
      )
