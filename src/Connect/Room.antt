-- ===== src/Connect/Room.antt =====
-- connect/room.go: a room keeps its channels in a doubly linked list through the channels' own
-- `Next` and `Prev` pointers, and counts them.
pub mod Chain
pub mod Members
pub mod Removal
pub mod Delivery
pub mod Cycle
pub mod Frame
use yoyichat.Base.{ℕ, zero, suc, ◌≡◌, Bool, true, false, Option, none, some, if◌then◌else◌}
use yoyichat.Base.Bytes.{Bytes, codes}
use yoyichat.Base.Int.{ℤ, incr, decr, not_positive}
use yoyichat.Messages.{Msg}
use yoyichat.Connect.Heap.{
  Heap, Room, Channel, set_next, set_prev, set_next?, set_prev?, put_room, push_channel,
}

-- `Room.Put` where the room is not dropped: `ch` becomes the first node.
unfoldable pub link : ℕ → ℕ → Option ℕ → Heap → Heap
unfolding set_next set_prev set_prev? put_room
link r c first h =
    let h₁ = set_prev? first (some c) h in
    let h₂ = set_next c first h₁ in
    let h₃ = set_prev c none h₂ in
    put_room r (record (h₃.room r) { next = some c; online_count = incr (h₃.room r).online_count })
      h₃

-- the error, if any, and the heap
unfoldable pub put : ℕ → ℕ → Heap → Option Bytes × Heap
put r c h =
    if (h.room r).drop then (some (codes "room drop"), h) else (none, link r c (h.room r).next h)

-- `Room.DeleteChannel`: the node is unlinked from its neighbours, whatever list it stands in.
unfoldable pub unlink_prev : ℕ → (prev next : Option ℕ) → Heap → Heap
unfolding set_next put_room
unlink_prev r (some p) next h = set_next p next h
unlink_prev r none next h = put_room r (record (h.room r) { next = next }) h

unfoldable pub unlink : ℕ → ℕ → Heap → Heap
unlink r c h =
    let h₁ = set_prev? (h.channel c).next (h.channel c).prev h in
    unlink_prev r (h₁.channel c).prev (h₁.channel c).next h₁

unfoldable pub recount : ℕ → Heap → Heap
unfolding put_room
recount r h =
    let room = h.room r in
    let count = decr room.online_count in
    put_room r (record room { online_count = count; drop = not_positive count }) h

unfoldable pub delete_channel : ℕ → ℕ → Heap → Bool × Heap
delete_channel r c h = let h' = recount r (unlink r c h) in ((h'.room r).drop, h')

-- `Room.Push`: the loop over `Next`, on fuel; `none` is a run that has not come to the end.
unfoldable pub push_loop : ℕ → Option ℕ → Msg → Heap → Option Heap
push_loop fuel none msg h = some h
push_loop zero (some c) msg h = none
push_loop (suc fuel) (some c) msg h =
    let h' = push_channel msg c h in push_loop fuel (h'.channel c).next msg h'

unfoldable pub push : ℕ → ℕ → Msg → Heap → Option Heap
push fuel r msg h = push_loop fuel (h.room r).next msg h
