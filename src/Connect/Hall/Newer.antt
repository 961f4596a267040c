-- ===== src/Connect/Hall/Newer.antt =====
-- The end of an old connection of a user who has come again (DeleteChannel of connect/bucket.go).
use yoyichat.Base.{
  List, [], ◌∷◌, ℕ, ◌≡◌, refl, true, false, Option, none, some, arith, ◌==◌, ==_refl, Bool-cases,
  inl, inr, ◌∙◌,
}
use yoyichat.Base.Int.{ℤ, ◌==ℤ◌, ==ℤ_iff, ==ℤ_refl}
use yoyichat.Base.Assoc.{int_key}
use yoyichat.Connect.Heap.{Heap}
use yoyichat.Connect.Bucket
use yoyichat.Connect.Bucket.{Bucket, channel, room}
use yoyichat.Connect.Room.Chain.{has}
use yoyichat.Connect.Room.Members.{IsRoom}
use yoyichat.Connect.Hall.{Hall, vacate, without, leave, Implements}
use yoyichat.Connect.Hall.Leave.{delete_channel-Implements}

has-other : (c d : ℕ) (xs : List ℕ) → (c == d) ≡ false → has c (without d xs) ≡ has c xs
has-other c d [] e = refl
has-other c d (x ∷ xs) e = ground (arith, has-other c d xs e)

module _ (n : ℕ) (b : Bucket) (h : Heap) (a : Hall) (v : Implements n b h a) (u k : ℤ) (c d : ℕ)
    (newer : a.users u ≡ some d) (other : (c == d) ≡ false)
    (inside : has c (a.members k) ≡ true) where
  vacated_user : (p : Option ℤ) → (vacate u d p a).users u ≡ none
  vacated_user none = rw (==ℤ_refl u) refl
  vacated_user (some j) = rw (==ℤ_refl u) refl

  vacated_home : (p : Option ℤ) → a.home d ≡ p → (vacate u d p a).home d ≡ none
  vacated_home none e = e
  vacated_home (some j) e = rw (==_refl d) refl

  vacated_inside : (p : Option ℤ) → has c ((vacate u d p a).members k) ≡ true
  vacated_inside none = inside
  vacated_inside (some j) = elim (Bool-cases (j ==ℤ k)) [
    | inl e ↦
        let jk : j ≡ k = (==ℤ_iff j k).0 e in
        rw (e, jk) (has-other c d (a.members k) other ∙ inside)
    | inr e ↦ rw (e) inside
  ]

  pub left_user : (leave u a).users u ≡ none
  left_user = rw (newer) (vacated_user (a.home d))

  pub left_home : (leave u a).home d ≡ none
  left_home = rw (newer) (vacated_home (a.home d) refl)

  pub left_inside : has c ((leave u a).members k) ≡ true
  left_inside = rw (newer) (vacated_inside (a.home d))

-- The user of an old connection `c` has come again, with the channel `d`. When `c` ends, DeleteChannel
-- takes the user out of the bucket and the channel `d` out of its room, whichever that is; the old channel
-- stays in the list of its own room, so that messages for the room still go to it.
pub delete_channel-newer :
    (n : ℕ) (b : Bucket) (h : Heap) (a : Hall) (k : ℤ) (c d : ℕ)
    → Implements n b h a
    → a.users (h.channel c).user_id ≡ some d
    → (c == d) ≡ false
    → has c (a.members k) ≡ true
    → (left : Bucket × Heap) × (Bucket.delete_channel b c h ≡ some left)
      × (channel left.0 (h.channel c).user_id ≡ none)
      × Implements n left.0 left.1 (leave (h.channel c).user_id a)
      × ((leave (h.channel c).user_id a).home d ≡ none)
      × (r : ℕ) × (xs : List ℕ) × (room left.0 k ≡ some r)
      × IsRoom left.1 r xs
      × (has c xs ≡ true)
      × (has d xs ≡ false)
unfolding channel room
delete_channel-newer n b h a k c d v newer other inside =
    let u = (h.channel c).user_id in
    let (left, done, w) = delete_channel-Implements n b h a c v in
    let stays = left_inside n b h a v u k c d newer other inside in
    let gone = left_home n b h a v u k c d newer other inside in
    let p = w.sits c k (w.seated c k stays) in
    (
      left,
      done,
      w.users u ∙ left_user n b h a v u k c d newer other inside,
      w,
      gone,
      p.room,
      (leave u a).members k,
      p.open_room,
      (w.rooms k p.room p.open_room).held,
      stays,
      elim (Bool-cases (has d ((leave u a).members k))) [
        | inl f ↦ absurd (cc (w.seated d k f, gone))
        | inr f ↦ f
      ],
    )
