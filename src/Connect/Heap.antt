-- ===== src/Connect/Heap.antt =====
-- The objects of connect/channel.go and connect/room.go on a heap. A reference is a number, `nil`
-- is `none`, and a non-nil reference always leads to an object, so no read of the heap fails.
use yoyichat.Base.{
  ℕ, Bool, false, Option, none, some, List, [], ◌∷◌, ◌++◌, ltb, ◌==◌, if◌then◌else◌, length,
}
use yoyichat.Base.Int.{ℤ, pos, negsuc}
use yoyichat.Messages.{Msg}

-- `broadcast` is the buffered Go channel: what waits in it, and its capacity `size`. The sockets
-- `conn` and `connTcp` are represented by `closed`.
pub record Channel : Type 0 where
  pub room : Option ℕ
  pub next : Option ℕ
  pub prev : Option ℕ
  pub broadcast : List Msg
  pub size : ℕ
  pub user_id : ℤ
  pub closed : Bool

pub record Room : Type 0 where
  pub id : ℤ
  pub online_count : ℤ
  pub drop : Bool
  pub next : Option ℕ

-- `next_room` is the first reference that `new(Room)` has not given out.
pub record Heap : Type 0 where
  pub channel : ℕ → Channel
  pub room : ℕ → Room
  pub next_room : ℕ

-- `const NoRoom = -1`
abbrev pub no_room : ℤ
no_room = negsuc 0

unfoldable pub new_channel : ℕ → Channel
new_channel size = record {
  room = none;
  next = none;
  prev = none;
  broadcast = [];
  size = size;
  user_id = pos 0;
  closed = false;
}

unfoldable pub new_room : ℤ → Room
new_room room_id = record { id = room_id; drop = false; next = none; online_count = pos 0 }

-- The select with an empty default: a full buffer drops the message, and there is no error.
unfoldable pub offer : Msg → Channel → Channel
offer msg ch =
    if ltb (length ch.broadcast) ch.size
    then record ch { broadcast = ch.broadcast ++ msg ∷ [] }
    else ch

abbrev pub update {ℓ} : {A : Type ℓ} → (ℕ → A) → ℕ → A → ℕ → A
update f p v q = if q == p then v else f q

-- Assignments to a field through a reference, `c.Next = v` and the like.
unfoldable pub set_next : ℕ → Option ℕ → Heap → Heap
set_next c v h = record h { channel = update h.channel c (record (h.channel c) { next = v }) }

unfoldable pub set_prev : ℕ → Option ℕ → Heap → Heap
set_prev c v h = record h { channel = update h.channel c (record (h.channel c) { prev = v }) }

unfoldable pub set_room : ℕ → Option ℕ → Heap → Heap
set_room c v h = record h { channel = update h.channel c (record (h.channel c) { room = v }) }

unfoldable pub set_user : ℕ → ℤ → Heap → Heap
set_user c v h = record h { channel = update h.channel c (record (h.channel c) { user_id = v }) }

-- an assignment through a pointer that has been tested for nil
unfoldable pub set_next? : Option ℕ → Option ℕ → Heap → Heap
unfolding set_next
set_next? none v h = h
set_next? (some c) v h = set_next c v h

unfoldable pub set_prev? : Option ℕ → Option ℕ → Heap → Heap
unfolding set_prev
set_prev? none v h = h
set_prev? (some c) v h = set_prev c v h

unfoldable pub put_room : ℕ → Room → Heap → Heap
put_room r v h = record h { room = update h.room r v }

-- `ch.Push(msg)`
unfoldable pub push_channel : Msg → ℕ → Heap → Heap
push_channel msg c h = record h { channel = update h.channel c (offer msg (h.channel c)) }

-- `message, ok := <-ch.broadcast` in a write loop; an empty buffer makes it wait
unfoldable pub taken : ℕ → List Msg → Heap → Option (Msg × Heap)
taken c [] h = none
taken c (msg ∷ rest) h =
    some
      (msg, record h { channel = update h.channel c (record (h.channel c) { broadcast = rest }) })

unfoldable pub take_message : ℕ → Heap → Option (Msg × Heap)
take_message c h = taken c (h.channel c).broadcast h
