-- ===== src/Connect/Hall/Buffers.antt =====
-- The buffers of the channels (connect/channel.go) under Put and DeleteChannel of a bucket or a room.
use yoyichat.Base.{
  ℕ, ◌≡◌, refl, Option, none, some, arith, Bool-cases, Option-cases, inl, inr, ◌∙◌, sym, ◌&&◌,
}
use yoyichat.Base.Int.{ℤ, ◌==ℤ◌}
use yoyichat.Base.Assoc.{lookup, delete, int_key}
use yoyichat.Connect.Heap.{
  Heap, no_room, set_next, set_prev, set_prev?, set_room, set_user, put_room,
}
use yoyichat.Connect.Bucket.{
  Bucket, BucketOptions, find_room, register, leave_room, delete_found, push_room, room,
}
use yoyichat.Connect.Bucket
use yoyichat.Connect.Room.{link, unlink_prev, unlink, recount, push_loop, push}
use yoyichat.Connect.Room

-- the same messages wait in every channel
pub record SameBuffers (h h' : Heap) : Type 0 where
  pub waiting : (c : ℕ) → (h'.channel c).broadcast ≡ (h.channel c).broadcast
  pub size : (c : ℕ) → (h'.channel c).size ≡ (h.channel c).size

same : {h : Heap} → SameBuffers h h
same = record { waiting = λ c. refl; size = λ c. refl }

pub and_then : {h h' h'' : Heap} → SameBuffers h h' → SameBuffers h' h'' → SameBuffers h h''
and_then a b = record { waiting = λ c. b.waiting c ∙ a.waiting c; size = λ c. b.size c ∙ a.size c }

set_next_same : (a : ℕ) (v : Option ℕ) (h : Heap) → SameBuffers h (set_next a v h)
unfolding set_next
set_next_same a v h = record { waiting = λ c. ground arith; size = λ c. ground arith }

set_prev_same : (a : ℕ) (v : Option ℕ) (h : Heap) → SameBuffers h (set_prev a v h)
unfolding set_prev
set_prev_same a v h = record { waiting = λ c. ground arith; size = λ c. ground arith }

set_prev?_same : (a v : Option ℕ) (h : Heap) → SameBuffers h (set_prev? a v h)
unfolding set_prev?
set_prev?_same none v h = same
set_prev?_same (some a) v h = set_prev_same a v h

set_room_same : (a : ℕ) (v : Option ℕ) (h : Heap) → SameBuffers h (set_room a v h)
unfolding set_room
set_room_same a v h = record { waiting = λ c. ground arith; size = λ c. ground arith }

set_user_same : (a : ℕ) (v : ℤ) (h : Heap) → SameBuffers h (set_user a v h)
unfolding set_user
set_user_same a v h = record { waiting = λ c. ground arith; size = λ c. ground arith }

room_put_same : (r c : ℕ) (h : Heap) → SameBuffers h (Room.put r c h).1
unfolding Room.put link put_room
room_put_same r c h = elim (Bool-cases (h.room r).drop) [
  | inl e ↦ rw (e) same
  | inr e ↦
      let h₁ = set_prev? (h.room r).next (some c) h in
      let h₂ = set_next c (h.room r).next h₁ in
      rw (e) (
        and_then (set_prev?_same (h.room r).next (some c) h) (
          and_then (set_next_same c (h.room r).next h₁) (
            and_then (set_prev_same c none h₂) (record { waiting = λ a. refl; size = λ a. refl }))))
]

unlink_prev_same : (r : ℕ) (p n : Option ℕ) (h : Heap) → SameBuffers h (unlink_prev r p n h)
unfolding unlink_prev put_room
unlink_prev_same r none n h = record { waiting = λ a. refl; size = λ a. refl }
unlink_prev_same r (some p) n h = set_next_same p n h

room_delete_same : (r c : ℕ) (h : Heap) → SameBuffers h (Room.delete_channel r c h).1
unfolding Room.delete_channel unlink recount put_room
room_delete_same r c h =
    let h₁ = set_prev? (h.channel c).next (h.channel c).prev h in
    and_then (set_prev?_same (h.channel c).next (h.channel c).prev h) (
      and_then (unlink_prev_same r (h₁.channel c).prev (h₁.channel c).next h₁)
        (record { waiting = λ a. refl; size = λ a. refl }))

find_room_same : (k : ℤ) (b : Bucket) (h : Heap) → SameBuffers h (find_room k b h).2
unfolding find_room put_room
find_room_same k b h = elim (Option-cases (lookup k b.rooms)) [
  | inl e ↦ rw (e, find_room) record { waiting = λ c. refl; size = λ c. refl }
  | inr (r, e) ↦ rw (e, find_room) same
]

pub put_same : (b : Bucket) (u k : ℤ) (c : ℕ) (h : Heap) → SameBuffers h (Bucket.put b u k c h).2
unfolding Bucket.put register
put_same b u k c h = elim (Bool-cases (k ==ℤ no_room)) [
  | inl e ↦ rw (e) (set_user_same c u h)
  | inr e ↦
      let (r, b₁, h₁) = find_room k b h in
      let h₂ = set_room c (some r) h₁ in
      rw (e) (
        and_then (find_room_same k b h) (
          and_then (set_room_same c (some r) h₁)
            (and_then (set_user_same c u h₂) (room_put_same r c (set_user c u h₂)))))
]

leave_room_same :
    (r : Option ℕ) (c : ℕ) (b : Bucket) (h : Heap) → SameBuffers h (leave_room r c b h).1
unfolding leave_room
leave_room_same none c b h = same
leave_room_same (some r) c b h =
    let (empty, h') = Room.delete_channel r c h in
    elim (Bool-cases (empty && (h'.room r).drop)) [
      | inl e ↦ rw (e) (room_delete_same r c h)
      | inr e ↦ rw (e) (room_delete_same r c h)
    ]

delete_found_same :
    (b : Bucket) (c : ℕ) (h : Heap) (left : Bucket × Heap)
    → delete_found b c h ≡ some left
    → SameBuffers h left.1
unfolding delete_found
delete_found_same b c h left e = elim (Option-cases (lookup (h.channel c).user_id b.chs)) [
  | inl f ↦ let e' : none ≡ some left = sym (rw (f, delete_found) refl) ∙ e in absurd (ground arith)
  | inr (d, f) ↦
      let b' = record b { chs = delete (h.channel c).user_id b.chs } in
      let e' : some (leave_room (h.channel d).room c b' h) ≡ some left =
        sym (rw (f, delete_found) refl) ∙ e in
      let same_left : leave_room (h.channel d).room c b' h ≡ left = cc e' in
      rw (← same_left) (leave_room_same (h.channel d).room c b' h)
]

pub delete_channel_same :
    (b : Bucket) (c : ℕ) (h : Heap) (left : Bucket × Heap)
    → Bucket.delete_channel b c h ≡ some left
    → SameBuffers h left.1
unfolding Bucket.delete_channel
delete_channel_same b c h left e = elim (Option-cases (lookup (h.channel c).user_id b.chs)) [
  | inl f ↦
      let e' : some (b, h) ≡ some left = sym (rw (f, Bucket.delete_channel) refl) ∙ e in
      let same_left : h ≡ left.1 = cc e' in rw (← same_left) same
  | inr (d, f) ↦ delete_found_same b d h left (sym (rw (f, Bucket.delete_channel) refl) ∙ e)
]
