-- ===== src/Connect/Server/Delivery.antt =====
-- PushSingleMsg of connect/rpc.go after a read loop has put a channel into a bucket.
use yoyichat.Base.{
  arith, ℕ, ◌≡◌, refl, Option, none, some, List, get_elem?, set, get_elem?-bound,
  get_elem?-set_self, Bool-cases, inl, inr, ap, sym, ◌∙◌,
}
use yoyichat.Base.Bytes.{Bytes}
use yoyichat.Base.Int.{ℤ, ◌==ℤ◌}
use yoyichat.Base.Assoc.{lookup-insert_self, int_key}
use yoyichat.Messages.{Msg}
use yoyichat.Connect.Heap.{Heap, no_room, push_channel}
use yoyichat.Connect.Bucket
use yoyichat.Connect.Bucket.{Bucket, channel, find_room, register}
use yoyichat.Connect.Server.{
  Server, bucket, index_of, put_bucket, push_to_user, push_single_msg, empty_reply, push_in_bucket,
  with_bucket, bucket_at,
}

-- The bucket maps a user to the channel that was put last for the user, in whatever room it is.
put-channel :
    (b : Bucket) (user_id room_id : ℤ) (c : ℕ) (h : Heap)
    → channel (Bucket.put b user_id room_id c h).1 user_id ≡ some c
unfolding Bucket.put channel register
put-channel b user_id room_id c h = elim (Bool-cases (room_id ==ℤ no_room)) [
  | inl e ↦ rw (e, lookup-insert_self) refl
  | inr e ↦ rw (e, lookup-insert_self) refl
]

with_bucket-inverse :
    (j i : ℕ) (o : Option Bucket) (b : Bucket)
    → with_bucket j o ≡ some (i, b)
    → (j ≡ i) × (o ≡ some b)
unfolding with_bucket
with_bucket-inverse j i none b e = ground (arith, e)
with_bucket-inverse j i (some b₀) b e = (cc e, cc e)

bucket_at-set :
    (bs : List Bucket) (o : Option ℕ) (i : ℕ) (b b' : Bucket)
    → bucket_at bs o ≡ some (i, b)
    → bucket_at (set bs i b') o ≡ some (i, b')
unfolding bucket_at
bucket_at-set bs none i b b' e = ground (arith, e)
bucket_at-set bs (some j) i b b' e =
    let (same_index, held) = with_bucket-inverse j i (get_elem? bs j) b e in
    let held_there : get_elem? bs i ≡ some b = ap (λ k. get_elem? bs k) (sym same_index) ∙ held in
    rw (same_index, get_elem?-set_self bs i b' (get_elem?-bound bs i held_there))
      (unfold with_bucket in refl)

module _ (hash : Bytes → ℕ) (s : Server) (user_id room_id : ℤ) (c i : ℕ) (b : Bucket)
    (h : Heap) where
  -- the server and the heap after `b.Put` in a read loop
  abbrev pub joined : Server
  joined = put_bucket i (Bucket.put b user_id room_id c h).1 s

  abbrev pub joined_heap : Heap
  joined_heap = (Bucket.put b user_id room_id c h).2

  -- A message for a user whose channel was put into the user's bucket is offered to that channel, in
  -- whatever room it is, and the reply is left empty.
  pub push_single_msg-joined :
      (msg : Msg)
      → bucket hash s user_id ≡ some (i, b)
      → push_single_msg hash joined (record { user_id = user_id; msg = msg }) joined_heap
        ≡ some (empty_reply, push_channel msg c joined_heap)
  unfolding push_single_msg push_in_bucket push_to_user bucket put_bucket
  push_single_msg-joined msg e =
      rw
        (
          bucket_at-set s.buckets (index_of hash s.bucket_idx user_id) i b
              (Bucket.put b user_id room_id c h).1 e,
          put-channel b user_id room_id c h,
        )
        refl
