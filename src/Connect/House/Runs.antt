-- ===== src/Connect/House/Runs.antt =====
-- What holds in every run of a connect server (connect/server.go and what it calls).
use yoyichat.Base.{ℕ, ◌≡◌, none, List, arith, ap, sym, ◌∙◌}
use yoyichat.Base.Bytes.{Bytes}
use yoyichat.Base.Assoc.{int_key}
use yoyichat.Connect.Heap.{new_channel}
use yoyichat.Connect.Bucket.{BucketOptions}
use yoyichat.Connect.Server.{
  World, Operator, again, after_connect, connect_channel, bucket, push_single_msg, push_room_msg,
}
use yoyichat.Connect.Hall.Pushes.{push_room-Alike}
use yoyichat.Connect.Hall.Steps.{new-Alike}
use yoyichat.Connect.House.{House}
use yoyichat.Connect.House.Calls.{connect_after, refused_after, stop_reading-Ends}
use yoyichat.Connect.House.Pushes.{new_server-Stands, take_message-Alike, push_in_bucket-Alike}
use yoyichat.Connect.House.Routines.{routine-Round, broadcast_all-Stands, Routed-Stands}
use yoyichat.Connect.House.Stands.{Stands, Stands-Alike, Stands-later}
use yoyichat.Connect.House.Steps.{
  Event, house_after, own_bucket, dial, Run, opens, connects, refused, ends, pushes, broadcasts,
  routes, writes, others,
}

module _ (hash : Bytes → ℕ) (O : Operator) (server_id : Bytes) (more : ℕ) (o : BucketOptions) where
  pub dial-Stands :
      {n : ℕ} {a : House} (w : World hash O server_id) (size : ℕ)
      → Stands more o n w.server w.heap a
      → Stands more o n w.server (dial n size w).heap a
  dial-Stands {n} w size v = Stands-Alike v (new-Alike size n w.heap)

  pub dialed :
      (n size : ℕ) (w : World hash O server_id) → ((dial n size w).heap.channel n).room ≡ none
  unfolding new_channel
  dialed n size w = ground arith

  -- In every run of a server, each of its buckets is the representation of the hall that the connections
  -- of its own users determine, with the ends of them; the operations on the other buckets, and the
  -- pushes, make no difference to it.
  pub Run-Stands :
      (es : List Event) (n : ℕ) (w : World hash O server_id)
      → Run hash O server_id more o es n w
      → Stands more o n w.server w.heap (house_after (own_bucket hash more) es)
  unfolding connect_channel push_room_msg push_single_msg
  Run-Stands es n w (opens h s) = new_server-Stands more o h
  Run-Stands es n w (connects {es = es₀} {n = n₀} {w = w₀} tcp token u k size s w' reply real e t) =
      let v = dial-Stands w₀ size (Run-Stands es₀ n₀ w₀ t) in
      let d = dial n₀ size w₀ in
      let (w₁, runs, same, buffers, stands) =
        connect_after d v tcp u k s (dialed n₀ size w₀) real in
      let e' : again w₁ ≡ again w' =
        sym runs ∙ sym (ap (λ r. after_connect hash O server_id tcp k n₀ d r) reply) ∙ e in
      let same_world : w₁ ≡ w' = cc e' in rw (← same_world) stands
  Run-Stands es n w (refused {es = es₀} {n = n₀} {w = w₀} tcp token k size w' e t) =
      let v = dial-Stands w₀ size (Run-Stands es₀ n₀ w₀ t) in
      let d = dial n₀ size w₀ in
      let (server, heap) = refused_after d v tcp k _ w' (dialed n₀ size w₀) e in
      rw (server, heap) (Stands-later v (dialed n₀ size w₀))
  Run-Stands es n w (ends {es = es₀} {w = w₀} c w' low e t) =
      let v = stop_reading-Ends w₀ (Run-Stands es₀ n w₀ t) c low in
      let same : v.after ≡ w' = cc (v.runs, e) in rw (← same) v.stands
  Run-Stands es n w (pushes {w = w₀} req reply h e t) =
      Stands-Alike (Run-Stands es n w₀ t)
        (push_in_bucket-Alike n (bucket hash w₀.server req.user_id) req w₀.heap reply h e)
  Run-Stands es n w (broadcasts {w = w₀} req bs e t) =
      broadcast_all-Stands (Run-Stands es n w₀ t) bs req e
  Run-Stands es n w (routes {w = w₀} fuel i num b b' h at e t) =
      let round = routine-Round fuel num b b' w₀.heap h e in
      Routed-Stands
        (Stands-Alike (Run-Stands es n w₀ t)
          (push_room-Alike n fuel b' round.request w₀.heap h round.pushed))
        i b b' at round.routed
  Run-Stands es n w (writes {w = w₀} c msg h e t) =
      Stands-Alike (Run-Stands es n w₀ t) (take_message-Alike n c w₀.heap msg h e)
  Run-Stands es n w (others {w = w₀} s t) = Run-Stands es n w₀ t
