-- ===== src/Connect/Room/Cycle.antt =====
-- Put and Push of connect/room.go for a channel that already heads the room.
use yoyichat.Base.{ℕ, zero, suc, ◌≡◌, refl, false, none, some, arith, ◌∙◌}
use yoyichat.Messages.{Msg}
use yoyichat.Connect.Heap.{Heap, set_next, set_prev, set_prev?, put_room, push_channel}
use yoyichat.Connect.Room.{push_loop, push, put, link}
use yoyichat.Connect.Room.Delivery.{push_channel-next, push_loop_step}

push_loop_endless :
    (fuel c : ℕ) (msg : Msg) (h : Heap)
    → (h.channel c).next ≡ some c
    → push_loop fuel (some c) msg h ≡ none
unfolding push_loop
push_loop_endless zero c msg h e = refl
push_loop_endless (suc fuel) c msg h e =
    rw (push_loop_step msg fuel c h, e)
      (push_loop_endless fuel c msg (push_channel msg c h) (push_channel-next msg c c h ∙ e))

link_self : (r c : ℕ) (h : Heap) → ((link r c (some c) h).channel c).next ≡ some c
unfolding link set_next set_prev set_prev? put_room
link_self r c h = ground arith

link_first : (r c : ℕ) (h : Heap) → ((link r c (some c) h).room r).next ≡ some c
unfolding link put_room
link_first r c h = ground arith

-- Once the first channel of a live room is put into that room again, a push to the room never ends:
-- no fuel is enough.
pub push_never_ends :
    (r c : ℕ) (msg : Msg) (h : Heap)
    → (h.room r).next ≡ some c
    → (h.room r).drop ≡ false
    → (fuel : ℕ) → push fuel r msg (put r c h).1 ≡ none
unfolding push put
push_never_ends r c msg h first alive fuel =
    rw (alive, first, link_first r c h)
      (push_loop_endless fuel c msg (link r c (some c) h) (link_self r c h))
