-- ===== src/Connect/House/Pushes.antt =====
-- A new server of connect/server.go, and the heap after the pushes and the write loops, for a house.
use yoyichat.Base.{
  ℕ, suc, ◌≡◌, refl, Option, none, some, List, [], ◌∷◌, arith, replicate, length-replicate,
  get_elem?-replicate,
}
use yoyichat.Base.Assoc.{lookup, int_key}
use yoyichat.Messages.{Msg, PushMsgRequest, SuccessReply}
use yoyichat.Connect.Heap.{Heap, update, push_channel, take_message, taken}
use yoyichat.Connect.Bucket.{Bucket, BucketOptions, new_bucket, channel}
use yoyichat.Connect.Bucket.Routing.{new_bucket-IsRouted}
use yoyichat.Connect.Server.{new_server, push_in_bucket, push_to_user}
use yoyichat.Connect.Hall.Frame.{Alike}
use yoyichat.Connect.Hall.Pushes.{Alike-refl, push_channel-Alike}
use yoyichat.Connect.Hall.Steps.{new_bucket-Implements}
use yoyichat.Connect.House.{empty_house}
use yoyichat.Connect.House.Stands.{Stands}

pub new_server-Stands :
    (more : ℕ) (o : BucketOptions) (h : Heap)
    → Stands more o 0 (new_server (replicate (suc more) (new_bucket o))) h empty_house
unfolding new_server new_bucket lookup
new_server-Stands more o h =
    let bs = replicate (suc more) (new_bucket o) in
    record {
      size = length-replicate (suc more) (new_bucket o);
      count = length-replicate (suc more) (new_bucket o);
      ready = λ i b e.
          rw (← get_elem?-replicate (suc more) i (new_bucket o) b e)
            record { options = refl; routed = new_bucket-IsRouted o };
      floors = record {
        floor = λ i b e.
            rw (← get_elem?-replicate (suc more) i (new_bucket o) b e) (new_bucket-Implements o h);
        apart = λ i j b b' ne e e'.
            rw (← get_elem?-replicate (suc more) i (new_bucket o) b e)
              record { rooms = λ k l r q f g. absurd (cc f); homes = λ c k l f g. absurd (cc f) };
      };
      ticket = λ c u k t. absurd (cc t);
      blank = λ c low t. absurd (omega arith);
    }

taken-Alike :
    (n c : ℕ) (ms : List Msg) (h : Heap) (msg : Msg) (h' : Heap)
    → taken c ms h ≡ some (msg, h')
    → Alike n h h'
unfolding taken
taken-Alike n c [] h msg h' e = absurd (cc e)
taken-Alike n c (m ∷ rest) h msg h' e =
    let h₁ = record h {
      channel = update h.channel c (record (h.channel c) { broadcast = rest });
    } in
    let mine : Option (Msg × Heap) = some (m, h₁) in
    let e' : mine ≡ some (msg, h') = e in
    let same : h₁ ≡ h' = cc e' in
    rw (← same) record {
      rooms = refl;
      next_room = refl;
      prev = λ a low. ground arith;
      next = λ a low. ground arith;
      seat = λ a low. ground arith;
      user = λ a low. ground arith;
    }

pub take_message-Alike :
    (n c : ℕ) (h : Heap) (msg : Msg) (h' : Heap) → take_message c h ≡ some (msg, h') → Alike n h h'
unfolding take_message
take_message-Alike n c h msg h' e = taken-Alike n c (h.channel c).broadcast h msg h' e

push_to_user-Alike :
    (n : ℕ) (c : Option ℕ) (msg : Msg) (h : Heap) (reply : SuccessReply) (h' : Heap)
    → some (push_to_user c msg h) ≡ some (reply, h')
    → Alike n h h'
unfolding push_to_user
push_to_user-Alike n none msg h reply h' e = let same : h ≡ h' = cc e in rw (← same) Alike-refl
push_to_user-Alike n (some c) msg h reply h' e =
    let same : push_channel msg c h ≡ h' = cc e in rw (← same) (push_channel-Alike n msg c h)

pub push_in_bucket-Alike :
    (n : ℕ) (found : Option (ℕ × Bucket)) (req : PushMsgRequest) (h : Heap) (reply : SuccessReply)
    (h' : Heap)
    → push_in_bucket found req h ≡ some (reply, h')
    → Alike n h h'
unfolding push_in_bucket
push_in_bucket-Alike n none req h reply h' e = absurd (cc e)
push_in_bucket-Alike n (some (i, b)) req h reply h' e =
    push_to_user-Alike n (channel b req.user_id) req.msg h reply h' e
