-- ===== src/Connect/Room/Removal.antt =====
-- What DeleteChannel of connect/room.go does to the list of a room.
use yoyichat.Base.{
  ℕ, suc, ◌≡◌, refl, true, Option, none, some, List, [], ◌∷◌, ◌++◌, arith, ◌==◌, if◌then◌else◌,
  head?, is_empty, length, length-append,
}
use yoyichat.Base.Int.{pos}
use yoyichat.Connect.Heap.{Heap, set_prev?, put_room}
use yoyichat.Connect.Room.{unlink_prev, unlink, recount, delete_channel}
use yoyichat.Connect.Room.Chain.{
  Distinct, points, last_or, Chain, Bypassed, Chain-at, Chain-bypass, Distinct-remove,
}
use yoyichat.Connect.Room.Members.{IsRoom}
use yoyichat.Connect.Room.Frame.{kept_prev, kept_next}

is_empty-length : (xs : List ℕ) → (length xs == 0) ≡ is_empty xs
is_empty-length [] = refl
is_empty-length (x ∷ xs) = ground arith

pub empty_of_none : (xs : List ℕ) → is_empty xs ≡ true → xs ≡ []
empty_of_none [] e = refl
empty_of_none (x ∷ xs) e = cc

length-middle : (xs ys : List ℕ) (c : ℕ) → length (xs ++ c ∷ ys) ≡ suc (length (xs ++ ys))
length-middle xs ys c = omega (arith, length-append xs (c ∷ ys), length-append xs ys)

-- the head pointer after the removal
abbrev first_after : Option ℕ → Option ℕ → Option ℕ → Option ℕ
first_after none next first = next
first_after (some q) next first = first

first_after-last :
    (x : ℕ) (xs : List ℕ) (next : Option ℕ)
    → first_after (last_or (some x) xs) next (some x) ≡ some x
first_after-last x [] next = refl
first_after-last x (y ∷ xs) next = last x y xs next
  where
    last :
        (x y : ℕ) (xs : List ℕ) (next : Option ℕ)
        → first_after (last_or (some y) xs) next (some x) ≡ some x
    last x y [] next = refl
    last x y (z ∷ xs) next = last x z xs next

first_after-head :
    (xs ys : List ℕ) (c : ℕ)
    → first_after (last_or none xs) (head? ys) (head? (xs ++ c ∷ ys)) ≡ head? (xs ++ ys)
first_after-head [] ys c = refl
first_after-head (x ∷ xs) ys c = first_after-last x xs (head? ys)

module _ (r c : ℕ) (h : Heap) where
  -- the two assignments of `unlink`, with the pointers of `c` read once
  unlinked : (n p : Option ℕ) → Heap
  unlinked n p = unlink_prev r p n (set_prev? n p h)

  unlink-unlinked : unlink r c h ≡ unlinked (h.channel c).next (h.channel c).prev
  unfolding unlink unlinked
  unlink-unlinked =
      rw (kept_prev r c h (h.channel c).next, kept_next r c h (h.channel c).next (h.channel c).prev)
        refl

  unlinked_prev :
      (n p : Option ℕ) (a : ℕ)
      → ((unlinked n p).channel a).prev ≡ (if points n a then p else (h.channel a).prev)
  unfolding unlinked unlink_prev set_prev?
  unlinked_prev none none a = refl
  unlinked_prev none (some q) a = ground arith
  unlinked_prev (some b) none a = ground arith
  unlinked_prev (some b) (some q) a = ground arith

  unlinked_next :
      (n p : Option ℕ) (a : ℕ)
      → ((unlinked n p).channel a).next ≡ (if points p a then n else (h.channel a).next)
  unfolding unlinked unlink_prev set_prev?
  unlinked_next none none a = refl
  unlinked_next none (some q) a = ground arith
  unlinked_next (some b) none a = ground arith
  unlinked_next (some b) (some q) a = ground arith

  unlinked_room :
      (n p : Option ℕ)
      → (unlinked n p).room r ≡ record (h.room r) { next = first_after p n (h.room r).next }
  unfolding unlinked unlink_prev set_prev?
  unlinked_room none none = ground arith
  unlinked_room none (some q) = ground arith
  unlinked_room (some b) none = ground arith
  unlinked_room (some b) (some q) = ground arith

  unlinked-Bypassed : Bypassed h.channel (unlinked (h.channel c).next (h.channel c).prev).channel c
  unlinked-Bypassed = record {
    prevs = unlinked_prev (h.channel c).next (h.channel c).prev;
    nexts = unlinked_next (h.channel c).next (h.channel c).prev;
  }

  removed_room :
      (xs ys : List ℕ) (g : Heap)
      → IsRoom h r (xs ++ c ∷ ys)
      → g ≡ unlinked (h.channel c).next (h.channel c).prev
      → ((g.room r).next ≡ head? (xs ++ ys))
        × ((g.room r).online_count ≡ pos (suc (length (xs ++ ys))))
  removed_room xs ys g v e =
      let at = Chain-at h.channel none c xs ys v.chain in
      let room = unlinked_room (h.channel c).next (h.channel c).prev in
      (
        rw (e, room, at.0, at.1, v.first) (first_after-head xs ys c),
        rw (e, room, v.count, length-middle xs ys c) refl,
      )

  recount-IsRoom :
      (zs : List ℕ) (g : Heap)
      → Chain g.channel none zs
      → Distinct zs
      → (g.room r).next ≡ head? zs
      → (g.room r).online_count ≡ pos (suc (length zs))
      → (((recount r g).room r).drop ≡ is_empty zs) × IsRoom (recount r g) r zs
  unfolding recount put_room
  recount-IsRoom zs g chain distinct first count = (
    ground (arith, count, is_empty-length zs),
    record {
      first = ground arith;
      chain = chain;
      distinct = distinct;
      count = ground (arith, count);
      dropped = λ d. empty_of_none zs (ground (arith, count, is_empty-length zs));
    },
  )

  -- A member of the room is taken out wherever it stands and the others stay in order; the answer
  -- says whether the room is empty now, which is also when it is dropped.
  pub delete_channel-IsRoom :
      (xs ys : List ℕ)
      → IsRoom h r (xs ++ c ∷ ys)
      → ((delete_channel r c h).0 ≡ is_empty (xs ++ ys))
        × IsRoom (delete_channel r c h).1 r (xs ++ ys)
  unfolding delete_channel
  delete_channel-IsRoom xs ys v =
      let (first, count) = removed_room xs ys (unlink r c h) v unlink-unlinked in
      recount-IsRoom (xs ++ ys) (unlink r c h)
        (rw unlink-unlinked (
          Chain-bypass h.channel (unlinked (h.channel c).next (h.channel c).prev).channel c
            unlinked-Bypassed none xs ys v.chain v.distinct tt))
        (Distinct-remove c xs ys v.distinct) first count
