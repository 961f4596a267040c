-- ===== src/Connect/Room/Frame.antt =====
-- What Put and DeleteChannel of connect/room.go leave as it was: the other rooms, and all that the
-- channels hold beside their links.
use yoyichat.Base.{ℕ, ◌≡◌, refl, true, false, Option, none, some, List, arith, ◌==◌, ◌∙◌}
use yoyichat.Base.Int.{pos, decr, not_positive}
use yoyichat.Connect.Heap.{Heap, set_next, set_prev, set_prev?, put_room}
use yoyichat.Connect.Room.{put, link, unlink_prev, unlink, recount, delete_channel}
use yoyichat.Connect.Room.Chain.{points, SameLinks, Chain-frame}
use yoyichat.Connect.Room.Members.{IsRoom}

-- A room that kept its object, and whose members kept their links, holds the same list.
pub IsRoom-frame :
    (h h' : Heap) (r : ℕ) (xs : List ℕ)
    → h'.room r ≡ h.room r
    → SameLinks h.channel h'.channel xs
    → IsRoom h r xs
    → IsRoom h' r xs
IsRoom-frame h h' r xs same links v = record {
  first = rw (same) v.first;
  chain = Chain-frame h.channel h'.channel none xs v.chain links;
  distinct = v.distinct;
  count = rw (same) v.count;
  dropped = rw (same) v.dropped;
}

-- Between `h` and `h'`, of all rooms only `r` may differ, and not in its id; and no channel changed its
-- room or its user.
pub record OnlyRoom (r : ℕ) (h h' : Heap) : Type 0 where
  pub others : (q : ℕ) → (q == r) ≡ false → h'.room q ≡ h.room q
  pub id : (h'.room r).id ≡ (h.room r).id
  pub next_room : h'.next_room ≡ h.next_room
  pub seat : (a : ℕ) → (h'.channel a).room ≡ (h.channel a).room
  pub user : (a : ℕ) → (h'.channel a).user_id ≡ (h.channel a).user_id

module _ (r c : ℕ) (h : Heap) where
  link_links :
      (first : Option ℕ) (a : ℕ)
      → (a == c) ≡ false
      → points first a ≡ false
      → (((link r c first h).channel a).prev ≡ (h.channel a).prev)
        × (((link r c first h).channel a).next ≡ (h.channel a).next)
  unfolding link set_next set_prev set_prev? put_room
  link_links none a n p = ground arith
  link_links (some x) a n p = ground arith

  pub link-OnlyRoom : (first : Option ℕ) → OnlyRoom r h (link r c first h)
  unfolding link set_next set_prev set_prev? put_room
  link-OnlyRoom none = record {
    others = λ q n. ground arith;
    id = ground arith;
    next_room = refl;
    seat = λ a. ground arith;
    user = λ a. ground arith;
  }
  link-OnlyRoom (some x) = record {
    others = λ q n. ground arith;
    id = ground arith;
    next_room = refl;
    seat = λ a. ground arith;
    user = λ a. ground arith;
  }

  link_drop : (first : Option ℕ) → ((link r c first h).room r).drop ≡ (h.room r).drop
  unfolding link set_next set_prev set_prev? put_room
  link_drop none = ground arith
  link_drop (some x) = ground arith

  -- `put` into a live room
  module _ (alive : (h.room r).drop ≡ false) where
    put-link : (put r c h).1 ≡ link r c (h.room r).next h
    unfolding put
    put-link = rw (alive) refl

    pub put-OnlyRoom : OnlyRoom r h (put r c h).1
    put-OnlyRoom = rw (put-link) (link-OnlyRoom (h.room r).next)

    pub put_drop : ((put r c h).1.room r).drop ≡ false
    put_drop = rw (put-link) (link_drop (h.room r).next ∙ alive)

    pub put_links :
        (a : ℕ)
        → (a == c) ≡ false
        → points (h.room r).next a ≡ false
        → (((put r c h).1.channel a).prev ≡ (h.channel a).prev)
          × (((put r c h).1.channel a).next ≡ (h.channel a).next)
    put_links a n p = rw (put-link) (link_links (h.room r).next a n p)

  -- the two assignments of `unlink` and the count, for pointers that were read once
  cut : (n p : Option ℕ) → Heap
  cut n p = recount r (unlink_prev r p n (set_prev? n p h))

  cut_links :
      (n p : Option ℕ) (a : ℕ)
      → points n a ≡ false
      → points p a ≡ false
      → (((cut n p).channel a).prev ≡ (h.channel a).prev)
        × (((cut n p).channel a).next ≡ (h.channel a).next)
  unfolding cut recount unlink_prev set_prev? set_next put_room
  cut_links none none a i j = ground arith
  cut_links none (some q) a i j = ground arith
  cut_links (some b) none a i j = ground arith
  cut_links (some b) (some q) a i j = ground arith

  cut-OnlyRoom : (n p : Option ℕ) → OnlyRoom r h (cut n p)
  unfolding cut recount unlink_prev set_prev? set_next put_room
  cut-OnlyRoom none none = record {
    others = λ q e. ground arith;
    id = ground arith;
    next_room = refl;
    seat = λ a. ground arith;
    user = λ a. ground arith;
  }
  cut-OnlyRoom none (some q) = record {
    others = λ q e. ground arith;
    id = ground arith;
    next_room = refl;
    seat = λ a. ground arith;
    user = λ a. ground arith;
  }
  cut-OnlyRoom (some b) none = record {
    others = λ q e. ground arith;
    id = ground arith;
    next_room = refl;
    seat = λ a. ground arith;
    user = λ a. ground arith;
  }
  cut-OnlyRoom (some b) (some q) = record {
    others = λ q e. ground arith;
    id = ground arith;
    next_room = refl;
    seat = λ a. ground arith;
    user = λ a. ground arith;
  }

  pub kept_prev :
      (n : Option ℕ) → ((set_prev? n (h.channel c).prev h).channel c).prev ≡ (h.channel c).prev
  unfolding set_prev?
  kept_prev none = refl
  kept_prev (some b) = ground arith

  pub kept_next : (n p : Option ℕ) → ((set_prev? n p h).channel c).next ≡ (h.channel c).next
  unfolding set_prev?
  kept_next none p = refl
  kept_next (some b) p = ground arith

  cut_drop :
      (n p : Option ℕ) → ((cut n p).room r).drop ≡ not_positive (decr (h.room r).online_count)
  unfolding cut recount unlink_prev set_prev? set_next put_room
  cut_drop none none = ground arith
  cut_drop none (some q) = ground arith
  cut_drop (some b) none = ground arith
  cut_drop (some b) (some q) = ground arith

  delete_cut : (delete_channel r c h).1 ≡ cut (h.channel c).next (h.channel c).prev
  unfolding delete_channel unlink cut
  delete_cut =
      rw (kept_prev (h.channel c).next, kept_next (h.channel c).next (h.channel c).prev) refl

  pub delete_channel-OnlyRoom : OnlyRoom r h (delete_channel r c h).1
  delete_channel-OnlyRoom = rw (delete_cut) (cut-OnlyRoom (h.channel c).next (h.channel c).prev)

  pub delete_channel_links :
      (a : ℕ)
      → points (h.channel c).next a ≡ false
      → points (h.channel c).prev a ≡ false
      → (((delete_channel r c h).1.channel a).prev ≡ (h.channel a).prev)
        × (((delete_channel r c h).1.channel a).next ≡ (h.channel a).next)
  delete_channel_links a i j =
      rw (delete_cut) (cut_links (h.channel c).next (h.channel c).prev a i j)

  pub delete_channel_drop : ((delete_channel r c h).1.room r).drop ≡ (delete_channel r c h).0
  unfolding delete_channel
  delete_channel_drop = refl

  -- the last member that leaves marks the room as dropped
  pub delete_channel_last :
      (h.room r).online_count ≡ pos 1 → ((delete_channel r c h).1.room r).drop ≡ true
  delete_channel_last one =
      rw (delete_cut) (cut_drop (h.channel c).next (h.channel c).prev ∙ rw (one) refl)
