-- ===== src/Connect/House/Calls.antt =====
-- The connect request and the end of a connection (connect/server.go, server_tcp.go) on a server that
-- stands for a house.
use yoyichat.Base.{
  ℕ, suc, ◌<◌, ◌≡◌, refl, Bool, true, false, Option, none, some, arith, if◌then◌else◌, get_elem?,
  Bool-cases, Option-cases, inl, inr, sym, ◌∙◌,
}
use yoyichat.Base.Bytes.{Bytes}
use yoyichat.Base.Int.{ℤ, pos, int32, ◌==ℤ◌}
use yoyichat.Connect.Heap.{Heap, no_room}
use yoyichat.Connect.Bucket.{Bucket, BucketOptions}
use yoyichat.Connect.Bucket
use yoyichat.Connect.Server
use yoyichat.Connect.Server.{
  World, Operator, Round, again, returns, crashes, bucket, put_bucket, after_put, insert_channel,
  after_connect, connect_channel, close, notify_logic, leave_bucket, stop_reading,
}
use yoyichat.Connect.Hall.Frame.{Alike}
use yoyichat.Connect.Hall.Buffers.{SameBuffers, and_then, put_same, delete_channel_same}
use yoyichat.Connect.House.{House, arrive, depart}
use yoyichat.Connect.House.Moves.{put-Stands, delete_channel-Stands, put_answer}
use yoyichat.Connect.House.Stands.{Stands, own, Stands-Alike}
use yoyichat.Connect.House.Steps.{own_bucket}

pub close-Alike : (n c : ℕ) (h : Heap) → Alike n h (close c h)
unfolding close
close-Alike n c h = record {
  rooms = refl;
  next_room = refl;
  prev = λ a low. ground arith;
  next = λ a low. ground arith;
  seat = λ a low. ground arith;
  user = λ a low. ground arith;
}

close_same : (c : ℕ) (h : Heap) → SameBuffers h (close c h)
unfolding close
close_same c h = record { waiting = λ a. ground arith; size = λ a. ground arith }

module _ {hash : Bytes → ℕ} {O : Operator} {server_id : Bytes} {more n : ℕ} {o : BucketOptions}
    {a : House} (w : World hash O server_id) (v : Stands more o n w.server w.heap a) where
  after_put_no_error :
      (tcp : Bool) (i c : ℕ) (p : Option Bytes × Bucket × Heap)
      → p.0 ≡ none
      → after_put hash O server_id tcp i c w p
        ≡ again (record w { server = put_bucket i p.1 w.server; heap = p.2 })
  unfolding after_put
  after_put_no_error true i c (none, b, h) e = refl
  after_put_no_error false i c (none, b, h) e = refl
  after_put_no_error tcp i c (some x, b, h) e = absurd (ground arith)

  -- `insert_channel` neither panics nor meets an error, and its channel comes to the user's hall
  pub insert_channel-Stands :
      (tcp : Bool) (u k : ℤ)
      → (w.heap.channel n).room ≡ none
      → (u ==ℤ pos 0) ≡ false
      → (w' : World hash O server_id) × (insert_channel hash O server_id tcp u k n w ≡ again w')
        × (w'.logic ≡ w.logic)
        × SameBuffers w.heap w'.heap
        × Stands more o (suc n) w'.server w'.heap (arrive (own_bucket hash more) u k n a)
  unfolding insert_channel
  insert_channel-Stands tcp u k bare real =
      let (b, at, found) = own v hash u in
      let i = own_bucket hash more u in
      let answer = put_answer v i b at u k bare real in
      (
        record w {
          server = put_bucket i (Bucket.put b u k n w.heap).1 w.server;
          heap = (Bucket.put b u k n w.heap).2;
        },
        rw (found, insert_channel) (after_put_no_error tcp i n (Bucket.put b u k n w.heap) answer),
        refl,
        put_same b u k n w.heap,
        put-Stands v i b at u k bare real,
      )

-- what the operator is told of an ended connection: nothing of one that came to no room
abbrev pub tells : (O : Operator) → Option (ℤ × ℤ) → O.State → O.State
tells O none s = s
tells O (some (u, k)) s =
    if k ==ℤ no_room
    then s
    else (O.disconnect (record { room_id = int32 k; user_id = int32 u }) s).1

-- What the end of a channel's connection leads to.
pub record Ends (hash : Bytes → ℕ) (O : Operator) (server_id : Bytes) (more n : ℕ)
    (o : BucketOptions) (a : House) (c : ℕ) (w : World hash O server_id) : Type 0 where
  pub after : World hash O server_id
  pub runs : stop_reading hash O server_id c w ≡ some after
  pub stands : Stands more o n after.server after.heap (depart (own_bucket hash more) c a)
  pub told : after.logic ≡ tells O (a.tickets c) w.logic
  pub buffers : SameBuffers w.heap after.heap

module _ {hash : Bytes → ℕ} {O : Operator} {server_id : Bytes} {more n : ℕ} {o : BucketOptions}
    {a : House} (w : World hash O server_id) (v : Stands more o n w.server w.heap a) where
  pub connect_after :
      (tcp : Bool) (u k : ℤ) (s : O.State)
      → (w.heap.channel n).room ≡ none
      → (u ==ℤ pos 0) ≡ false
      → (w' : World hash O server_id) × (after_connect hash O server_id tcp k n w ((u, none), s)
          ≡ again w')
        × (w'.logic ≡ s)
        × SameBuffers w.heap w'.heap
        × Stands more o (suc n) w'.server w'.heap (arrive (own_bucket hash more) u k n a)
  unfolding after_connect
  connect_after tcp u k s bare real =
      let (w', e, f, same, t) =
        insert_channel-Stands (record w { logic = s }) v tcp u k bare real in
      (w', rw (real) e, f, same, t)

  pub refused_after :
      (tcp : Bool) (k : ℤ) (reply : (ℤ × Option Bytes) × O.State) (w' : World hash O server_id)
      → (w.heap.channel n).room ≡ none
      → after_connect hash O server_id tcp k n w reply ≡ returns w'
      → (w'.server ≡ w.server) × (w'.heap ≡ w.heap)
  unfolding after_connect
  refused_after tcp k ((u, some x), s) w' bare e =
      let same : record w { logic = s } ≡ w' = cc e in (rw (← same) refl, rw (← same) refl)
  refused_after tcp k ((u, none), s) w' bare e = elim (Bool-cases (u ==ℤ pos 0)) [
    | inl zero_user ↦
        let e' : returns (record w { logic = s }) ≡ returns w' = sym (rw (zero_user) refl) ∙ e in
        let same : record w { logic = s } ≡ w' = cc e' in (rw (← same) refl, rw (← same) refl)
    | inr real ↦
        let (w₁, runs, f, same, t) = connect_after tcp u k s bare real in
        let never : again w₁ ≡ returns w' = sym runs ∙ e in absurd (cc never)
  ]

  -- a connection that came to no room, and one whose request was not granted
  idle :
      (c : ℕ)
      → c < n
      → (w.heap.channel c).room ≡ none
      → depart (own_bucket hash more) c a ≡ a
      → tells O (a.tickets c) w.logic ≡ w.logic
      → Ends hash O server_id more n o a c w
  unfolding stop_reading Server.leave
  idle c low empty same quiet = record {
    after = record w { heap = close c w.heap };
    runs = rw (empty, Server.leave) refl;
    stands = rw (same) (Stands-Alike v (close-Alike n c w.heap));
    told = sym quiet;
    buffers = close_same c w.heap;
  }

  -- a channel that has a room, and the user that it came with
  leave_bucket-Ends :
      (c : ℕ) (u k : ℤ) (r : ℕ)
      → a.tickets c ≡ some (u, k)
      → (w.heap.channel c).user_id ≡ u
      → (w.heap.room r).id ≡ k
      → (k ==ℤ no_room) ≡ false
      → (b : Bucket) → get_elem? w.server.buckets (own_bucket hash more u) ≡ some b
      → (w' : World hash O server_id) × (leave_bucket hash O server_id r
            (own_bucket hash more u, b)
            c
            w
          ≡ some w')
        × Stands more o n w'.server w'.heap (depart (own_bucket hash more) c a)
        × (w'.logic ≡ tells O (a.tickets c) w.logic)
        × SameBuffers w.heap w'.heap
  unfolding leave_bucket notify_logic
  leave_bucket-Ends c u k r t user id real b at =
      let i = own_bucket hash more u in
      let (left, done, after) = delete_channel-Stands v i b at c u user in
      (
        notify_logic hash O server_id (w.heap.room r).id (w.heap.channel c).user_id c
            (record w { server = put_bucket i left.0 w.server; heap = left.1 }),
        rw (done, leave_bucket) refl,
        rw (t, real) (Stands-Alike after (close-Alike n c left.1)),
        rw (t, real, user, id) refl,
        and_then (delete_channel_same b c w.heap left done) (close_same c left.1),
      )

  -- The end of a connection never panics: the house departs with its channel, and the operator is told
  -- of the room and the user that the channel came with.
  pub stop_reading-Ends : (c : ℕ) → c < n → Ends hash O server_id more n o a c w
  unfolding stop_reading Server.leave
  stop_reading-Ends c low = elim (Option-cases (a.tickets c)) [
    | inl t ↦ idle c low (v.blank c low t) (rw (t) refl) (rw (t) refl)
    | inr ((u, k), t) ↦
        let ticket = v.ticket c u k t in
        elim (Bool-cases (k ==ℤ no_room)) [
          | inl e ↦ idle c low (ticket.bare e) (rw (t, e) refl) (rw (t, e) refl)
          | inr e ↦
              let (r, seat, id, known) = ticket.seat e in
              let (b, at, found) = own v hash u in
              let (w', runs, stands, told, buffers) =
                leave_bucket-Ends c u k r t ticket.user id e b at in
              record {
                after = w';
                runs = rw (seat, ticket.user, ticket.real, found) runs;
                stands = stands;
                told = told;
                buffers = buffers;
              }
        ]
  ]
