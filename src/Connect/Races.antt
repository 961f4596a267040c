-- ===== src/Connect/Races.antt =====
-- What may come between the parts of a call of connect/bucket.go. Put lets its lock go before it takes that
-- of the room, and DeleteChannel takes only the read lock, so two of its calls may run at once.
use yoyichat.Base.{
  ap, ℕ, ◌≡◌, refl, true, false, Option, none, some, arith, ◌==◌, ◌∙◌, sym, if◌then◌else◌,
  Bool-cases, inl, inr,
}
use yoyichat.Base.Bytes.{Bytes, codes}
use yoyichat.Base.Int.{ℤ, pos, ◌==ℤ◌, ==ℤ_iff}
use yoyichat.Base.Assoc.{
  lookup, insert, delete, lookup-insert, lookup-insert_self, lookup-delete, lookup-delete_self,
  int_key,
}
use yoyichat.Connect.Heap.{Heap, no_room, set_room, set_user}
use yoyichat.Connect.Room
use yoyichat.Connect.Bucket
use yoyichat.Connect.Bucket.{
  Bucket, find_room, register, delete_channel, delete_found, leave_room, channel, room,
}
use yoyichat.Connect.Room.Frame.{delete_channel-OnlyRoom, delete_channel_last, delete_channel_drop}
use yoyichat.Connect.House.Tickets.{left-SameSeats}

-- `Put` up to the `Unlock`, and the rest of it
unfoldable pub put_maps : Bucket → ℤ → ℤ → ℕ → Heap → Option ℕ × Bucket × Heap
put_maps b user_id room_id c h =
    if room_id ==ℤ no_room
    then (let (b', h') = register user_id c b h in (none, b', h'))
    else (let (r, b₁, h₁) = find_room room_id b h in
        let (b₂, h₂) = register user_id c b₁ (set_room c (some r) h₁) in (some r, b₂, h₂))

unfoldable pub put_found : Option ℕ → ℕ → Heap → Option Bytes × Heap
put_found none c h = (none, h)
put_found (some r) c h = Room.put r c h

-- With nothing between them, the two parts are `Put`.
put-put_found :
    (b : Bucket) (u k : ℤ) (c : ℕ) (h : Heap)
    → Bucket.put b u k c h ≡ (
      (put_found (put_maps b u k c h).0 c (put_maps b u k c h).2).0,
      (put_maps b u k c h).1,
      (put_found (put_maps b u k c h).0 c (put_maps b u k c h).2).1,
    )
unfolding Bucket.put put_maps put_found
put-put_found b u k c h = elim (Bool-cases (k ==ℤ no_room)) [
  | inl e ↦ rw (e, put_found) refl
  | inr e ↦ rw (e, put_found) refl
]

leave_room-chs : (r : Option ℕ) (c : ℕ) (b : Bucket) (h : Heap) → (leave_room r c b h).0.chs ≡ b.chs
unfolding leave_room
leave_room-chs none c b h = refl
leave_room-chs (some r) c b h = ground arith

delete_two :
    (b : Bucket) (c d : ℕ) (h : Heap)
    → lookup (h.channel c).user_id b.chs ≡ some d
    → (h.channel d).user_id ≡ (h.channel c).user_id
    → delete_channel b c h
      ≡ some (
          leave_room (h.channel d).room d (record b { chs = delete (h.channel c).user_id b.chs }) h)
unfolding delete_channel delete_found
delete_two b c d h e same_user = rw (e, delete_channel, same_user, e, delete_found, same_user) refl

-- Two connections of one user end at once, and both have read the user's channel `d` from the map. The
-- end that goes on first comes to its end; the other one then panics, for the map has no such user now.
delete_found-delete_channel :
    (b : Bucket) (c d : ℕ) (h : Heap)
    → lookup (h.channel c).user_id b.chs ≡ some d
    → (h.channel d).user_id ≡ (h.channel c).user_id
    → (left : Bucket × Heap) × (delete_channel b c h ≡ some left)
      × (delete_found left.0 d left.1 ≡ none)
unfolding delete_found
delete_found-delete_channel b c d h e same_user =
    let u = (h.channel c).user_id in
    let b₁ = record b { chs = delete u b.chs } in
    let left = leave_room (h.channel d).room d b₁ h in
    let user : (left.1.channel d).user_id ≡ u =
      (left-SameSeats (h.channel d).room d b₁ h).user d ∙ same_user in
    let gone : lookup (left.1.channel d).user_id left.0.chs ≡ none =
      rw (user, leave_room-chs (h.channel d).room d b₁ h, lookup-delete_self) refl in
    (left, delete_two b c d h e same_user, rw (gone, delete_found) refl)

put_maps_known :
    (b : Bucket) (u k : ℤ) (c r : ℕ) (h : Heap)
    → (k ==ℤ no_room) ≡ false
    → lookup k b.rooms ≡ some r
    → put_maps b u k c h
      ≡ (some r, record b { chs = insert u c b.chs }, set_user c u (set_room c (some r) h))
unfolding put_maps find_room register
put_maps_known b u k c r h real has_room = rw (real, has_room, find_room) refl

-- The last member of a room leaves between the two parts of `Put` of another user into the room: the
-- `Put` ends with the error of a dropped room. The user is in the bucket, whose map has the room no more.
pub put_maps-delete_channel :
    (b : Bucket) (u w k : ℤ) (c d r : ℕ) (h : Heap)
    → (k ==ℤ no_room) ≡ false
    → (u ==ℤ w) ≡ false
    → (d == c) ≡ false
    → lookup k b.rooms ≡ some r
    → (h.room r).id ≡ k
    → (h.room r).online_count ≡ pos 1
    → lookup w b.chs ≡ some d
    → (h.channel d).user_id ≡ w
    → (h.channel d).room ≡ some r
    → (left : Bucket × Heap) × (delete_channel (put_maps b u k c h).1 d (put_maps b u k c h).2
        ≡ some left)
      × ((put_found (put_maps b u k c h).0 c left.1).0 ≡ some (codes "room drop"))
      × (channel left.0 u ≡ some c)
      × (room left.0 k ≡ none)
unfolding channel room set_user set_room leave_room put_found Room.put
put_maps-delete_channel b u w k c d r h real other_user other_channel has_room id one has_user user
      seat =
    let b₁ = record b { chs = insert u c b.chs } in
    let h₁ = set_user c u (set_room c (some r) h) in
    let maps = put_maps_known b u k c r h real has_room in
    let user₁ : (h₁.channel d).user_id ≡ w = ground (arith, user, other_channel) in
    let seat₁ : (h₁.channel d).room ≡ some r = ground (arith, seat, other_channel) in
    let known : lookup (h₁.channel d).user_id b₁.chs ≡ some d =
      rw (user₁, lookup-insert, other_user) has_user in
    let b₂ = record b₁ { chs = delete (h₁.channel d).user_id b₁.chs } in
    let h₂ = (Room.delete_channel r d h₁).1 in
    let dropped : (h₂.room r).drop ≡ true = delete_channel_last r d h₁ one in
    let empty : (Room.delete_channel r d h₁).0 ≡ true =
      sym (delete_channel_drop r d h₁) ∙ dropped in
    let b₃ = record b₂ { rooms = delete (h₂.room r).id b₂.rooms } in
    let id₂ : (h₂.room r).id ≡ k = (delete_channel-OnlyRoom r d h₁).id ∙ id in
    let left : leave_room (h₁.channel d).room d b₂ h₁ ≡ (b₃, h₂) =
      rw (seat₁, leave_room, dropped, empty) refl in
    let other : (w ==ℤ u) ≡ false = ground (arith, ==ℤ_iff u w, ==ℤ_iff w u) in
    (
      (b₃, h₂),
      rw (maps) (delete_two b₁ d d h₁ known refl ∙ ap (λ x. some x) left),
      rw (maps, put_found, dropped, Room.put) refl,
      rw (user₁, lookup-delete, other, lookup-insert_self) refl,
      rw (id₂, lookup-delete_self) refl,
    )
