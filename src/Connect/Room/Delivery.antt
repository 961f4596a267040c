-- ===== src/Connect/Room/Delivery.antt =====
-- Push of connect/room.go over the list of a room.
use yoyichat.Base.{
  ℕ, zero, suc, ◌≡◌, refl, ◌≤◌, Option, none, some, List, [], ◌∷◌, arith, ◌==◌, if◌then◌else◌,
  head?, length, ◌∙◌, ap,
}
use yoyichat.Messages.{Msg}
use yoyichat.Connect.Heap.{Heap, Channel, offer, push_channel}
use yoyichat.Connect.Room.{push_loop, push}
use yoyichat.Connect.Room.Chain.{has, Distinct, Chain, Chain-frame}
use yoyichat.Connect.Room.Members.{IsRoom}

-- Every channel of `xs` has been offered the message once, the others are as they were.
pub record Delivered (msg : Msg) (xs : List ℕ) (h h' : Heap) : Type 0 where
  pub channels :
      (a : ℕ) → h'.channel a ≡ (if has a xs then offer msg (h.channel a) else h.channel a)
  pub rooms : h'.room ≡ h.room

offer-next : (msg : Msg) (ch : Channel) → (offer msg ch).next ≡ ch.next
unfolding offer
offer-next msg ch = ground arith

offer-prev : (msg : Msg) (ch : Channel) → (offer msg ch).prev ≡ ch.prev
unfolding offer
offer-prev msg ch = ground arith

module _ (msg : Msg) where
  push_channel_at :
      (c a : ℕ) (h : Heap)
      → (push_channel msg c h).channel a ≡ (if a == c then offer msg (h.channel c) else h.channel a)
  unfolding push_channel
  push_channel_at c a h = refl

  pub push_channel-next :
      (c a : ℕ) (h : Heap) → ((push_channel msg c h).channel a).next ≡ (h.channel a).next
  push_channel-next c a h = rw push_channel_at (ground (arith, offer-next msg (h.channel c)))

  push_channel-prev :
      (c a : ℕ) (h : Heap) → ((push_channel msg c h).channel a).prev ≡ (h.channel a).prev
  push_channel-prev c a h = rw push_channel_at (ground (arith, offer-prev msg (h.channel c)))

  push_channel-room : (c : ℕ) (h : Heap) → (push_channel msg c h).room ≡ h.room
  unfolding push_channel
  push_channel-room c h = refl

  -- one round of the loop: a push to the node leaves its `Next` alone
  pub push_loop_step :
      (fuel c : ℕ) (h : Heap)
      → push_loop (suc fuel) (some c) msg h
        ≡ push_loop fuel (h.channel c).next msg (push_channel msg c h)
  unfolding push_loop
  push_loop_step fuel c h =
      ap (λ n. push_loop fuel n msg (push_channel msg c h)) (push_channel-next c c h)

  push_loop_end : (fuel : ℕ) (h : Heap) → push_loop fuel none msg h ≡ some h
  unfolding push_loop
  push_loop_end zero h = refl
  push_loop_end (suc fuel) h = refl

  push_loop-Chain :
      (fuel : ℕ) (p : Option ℕ) (xs : List ℕ) (h : Heap)
      → Chain h.channel p xs
      → Distinct xs
      → length xs ≤ fuel
      → (h' : Heap) × (push_loop fuel (head? xs) msg h ≡ some h') × Delivered msg xs h h'
  push_loop-Chain fuel p [] h c d f =
      (h, push_loop_end fuel h, record { channels = λ a. refl; rooms = refl })
  push_loop-Chain zero p (x ∷ xs) h c d f = absurd (omega arith)
  push_loop-Chain (suc fuel) p (x ∷ xs) h c d f =
      let h₁ = push_channel msg x h in
      let chain =
        Chain-frame h.channel h₁.channel (some x) xs c.2
          (λ a i. (push_channel-prev x a h, push_channel-next x a h)) in
      let (h', done, sent) = push_loop-Chain fuel (some x) xs h₁ chain d.1 (omega arith) in
      (
        h',
        rw (push_loop_step fuel x h, c.1) done,
        record {
          channels = λ a. rw (sent.channels a, push_channel_at x a h) (ground (arith, d.0));
          rooms = sent.rooms ∙ push_channel-room x h;
        },
      )

  -- A push to a well-formed room ends once the fuel covers the members, and each of them is
  -- offered the message exactly once; no other channel and no room changes.
  pub push-Delivered :
      (fuel r : ℕ) {xs : List ℕ} (h : Heap)
      → IsRoom h r xs
      → length xs ≤ fuel
      → (h' : Heap) × (push fuel r msg h ≡ some h') × Delivered msg xs h h'
  unfolding push
  push-Delivered fuel r {xs} h v f =
      rw v.first (push_loop-Chain fuel none xs h v.chain v.distinct f)
