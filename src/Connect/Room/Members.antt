-- ===== src/Connect/Room/Members.antt =====
-- The list of channels that a room of connect/room.go holds, and what Put does to it.
use yoyichat.Base.{ℕ, ◌≡◌, refl, true, false, none, some, List, [], ◌∷◌, arith, head?, length}
use yoyichat.Base.Bytes.{codes}
use yoyichat.Base.Int.{pos}
use yoyichat.Connect.Heap.{Heap, set_next, set_prev, set_prev?, put_room}
use yoyichat.Connect.Room.{put, link}
use yoyichat.Connect.Room.Chain.{has, Distinct, Chain, Chain-frame}

-- Room `r` holds the channels `xs`, the last one that joined first.
pub record IsRoom (h : Heap) (r : ℕ) (xs : List ℕ) : Type 0 where
  pub first : (h.room r).next ≡ head? xs
  pub chain : Chain h.channel none xs
  pub distinct : Distinct xs
  pub count : (h.room r).online_count ≡ pos (length xs)
  pub dropped : (h.room r).drop ≡ true → xs ≡ []

module _ (r c : ℕ) (h : Heap) where
  link-IsRoom :
      (xs : List ℕ)
      → IsRoom h r xs
      → has c xs ≡ false
      → (h.room r).drop ≡ false
      → IsRoom (link r c (head? xs) h) r (c ∷ xs)
  unfolding link set_next set_prev set_prev? put_room
  link-IsRoom [] v out alive = record {
    first = ground arith;
    chain = ground arith;
    distinct = ground arith;
    count = ground (arith, v.count);
    dropped = ground arith;
  }
  link-IsRoom (x ∷ xs) v out alive = record {
    first = ground arith;
    chain = (
      ground arith,
      ground arith,
      (
        ground arith,
        ground (arith, v.chain, v.distinct),
        Chain-frame h.channel (link r c (some x) h).channel (some x) xs v.chain.2
            (λ a i. ground (arith, v.distinct)),
      ),
    );
    distinct = (out, v.distinct);
    count = ground (arith, v.count);
    dropped = ground arith;
  }

  -- A channel that is not in the list of a live room joins it as its first member, with no error,
  -- and the room has its list, its count and its drop flag right.
  pub put-IsRoom :
      {xs : List ℕ}
      → IsRoom h r xs
      → has c xs ≡ false
      → (h.room r).drop ≡ false
      → ((put r c h).0 ≡ none) × IsRoom (put r c h).1 r (c ∷ xs)
  unfolding put
  put-IsRoom {xs} v out alive = rw alive (refl, rw v.first (link-IsRoom xs v out alive))

  -- A dropped room refuses the channel with the error "room drop", and nothing changes.
  pub put-dropped : (h.room r).drop ≡ true → put r c h ≡ (some (codes "room drop"), h)
  unfolding put
  put-dropped d = rw d
