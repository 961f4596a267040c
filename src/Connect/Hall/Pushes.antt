-- ===== src/Connect/Hall/Pushes.antt =====
-- A push of connect/channel.go or connect/room.go to any channels leaves a hall as it was.
use yoyichat.Base.{ℕ, zero, suc, ◌≡◌, refl, Option, none, some, arith, Option-cases, inl, inr, ◌∙◌}
use yoyichat.Base.Assoc.{lookup, int_key}
use yoyichat.Messages.{Msg, PushRoomMsgRequest}
use yoyichat.Connect.Heap.{Heap, offer, push_channel}
use yoyichat.Connect.Bucket.{Bucket, push_room, room}
use yoyichat.Connect.Room.{push_loop, push}
use yoyichat.Connect.Hall.Frame.{Alike}

pub Alike-refl : {n : ℕ} {h : Heap} → Alike n h h
Alike-refl = record {
  rooms = refl;
  next_room = refl;
  prev = λ c low. refl;
  next = λ c low. refl;
  seat = λ c low. refl;
  user = λ c low. refl;
}

Alike-trans : {n : ℕ} {h h' h'' : Heap} → Alike n h h' → Alike n h' h'' → Alike n h h''
Alike-trans s t = record {
  rooms = t.rooms ∙ s.rooms;
  next_room = t.next_room ∙ s.next_room;
  prev = λ c low. t.prev c low ∙ s.prev c low;
  next = λ c low. t.next c low ∙ s.next c low;
  seat = λ c low. t.seat c low ∙ s.seat c low;
  user = λ c low. t.user c low ∙ s.user c low;
}

pub push_channel-Alike : (n : ℕ) (msg : Msg) (c : ℕ) (h : Heap) → Alike n h (push_channel msg c h)
unfolding push_channel offer
push_channel-Alike n msg c h = record {
  rooms = refl;
  next_room = refl;
  prev = λ a low. ground arith;
  next = λ a low. ground arith;
  seat = λ a low. ground arith;
  user = λ a low. ground arith;
}

push_loop-Alike :
    (n fuel : ℕ) (p : Option ℕ) (msg : Msg) (h h' : Heap)
    → push_loop fuel p msg h ≡ some h'
    → Alike n h h'
unfolding push_loop
push_loop-Alike n zero none msg h h' e = let same : h ≡ h' = cc e in rw (← same) Alike-refl
push_loop-Alike n (suc fuel) none msg h h' e = let same : h ≡ h' = cc e in rw (← same) Alike-refl
push_loop-Alike n zero (some c) msg h h' e = absurd (ground arith)
push_loop-Alike n (suc fuel) (some c) msg h h' e =
    let h₁ = push_channel msg c h in
    Alike-trans (push_channel-Alike n msg c h)
      (push_loop-Alike n fuel (h₁.channel c).next msg h₁ h' e)

pub push_room-Alike :
    (n fuel : ℕ) (b : Bucket) (req : PushRoomMsgRequest) (h h' : Heap)
    → push_room fuel b req h ≡ some h'
    → Alike n h h'
unfolding push_room push room
push_room-Alike n fuel b req h h' e = elim (Option-cases (lookup req.room_id b.rooms)) [
  | inl f ↦ let same : h ≡ h' = cc (e, f) in rw (← same) Alike-refl
  | inr (r, f) ↦ push_loop-Alike n fuel (h.room r).next req.msg h h' (ground (arith, e, f))
]
