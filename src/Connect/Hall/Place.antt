-- ===== src/Connect/Hall/Place.antt =====
-- DeleteChannel of connect/room.go for a member that stands somewhere in the room's list.
use yoyichat.Base.{
  ℕ, ◌≡◌, refl, true, false, not, ◌&&◌, none, List, [], ◌∷◌, ◌++◌, arith, ◌==◌, is_empty,
  Bool-cases, inl, inr, ap,
}
use yoyichat.Base.Assoc.{int_key}
use yoyichat.Connect.Heap.{Heap}
use yoyichat.Connect.Room
use yoyichat.Connect.Room.Chain.{
  has, has-append, Distinct, points, points-head, points-last, last_or, Chain-at,
}
use yoyichat.Connect.Room.Members.{IsRoom}
use yoyichat.Connect.Room.Removal.{delete_channel-IsRoom}
use yoyichat.Connect.Hall.{without}

-- where a member stands in a list
record Place (d : ℕ) (xs : List ℕ) : Type 0 where
  front : List ℕ
  back : List ℕ
  split : xs ≡ front ++ d ∷ back

place : (d : ℕ) (xs : List ℕ) → has d xs ≡ true → Place d xs
place d [] m = absurd (ground arith)
place d (x ∷ xs) m = elim (Bool-cases (d == x)) [
  | inl here ↦
      let dx : d ≡ x = ground arith in record { front = []; back = xs; split = rw (dx) refl }
  | inr there ↦
      let p = place d xs (ground arith) in
      record { front = x ∷ p.front; back = p.back; split = ap (λ ys. x ∷ ys) p.split }
]

without-middle :
    (d : ℕ) (xs ys : List ℕ) → Distinct (xs ++ d ∷ ys) → without d (xs ++ d ∷ ys) ≡ xs ++ ys
without-middle d [] ys e = ground arith
without-middle d (x ∷ xs) ys e =
    let other : (d == x) ≡ false = ground (arith, has-append x xs (d ∷ ys), e.0) in
    rw (other, without-middle d xs ys e.1) refl

pub has-without :
    (c d : ℕ) (xs : List ℕ) → Distinct xs → has c (without d xs) ≡ (has c xs && not (c == d))
has-without c d [] e = refl
has-without c d (x ∷ xs) e = ground (arith, e.0, has-without c d xs e.1)

points-last_member : (c : ℕ) (xs : List ℕ) → has c xs ≡ false → points (last_or none xs) c ≡ false
points-last_member c [] e = refl
points-last_member c (x ∷ xs) e = points-last c x xs e

-- a member whose list does not have `c` has no link to `c`
pub apart_links :
    (h : Heap) (r d c : ℕ) (xs : List ℕ)
    → IsRoom h r xs
    → has d xs ≡ true
    → has c xs ≡ false
    → (points (h.channel d).next c ≡ false) × (points (h.channel d).prev c ≡ false)
apart_links h r d c xs v m out =
    let p = place d xs m in
    let at = Chain-at h.channel none d p.front p.back (rw (← p.split) v.chain) in
    let out' : has c (p.front ++ d ∷ p.back) ≡ false = rw (← p.split) out in
    (
      rw (at.1) (points-head c p.back (ground (arith, has-append c p.front (d ∷ p.back)))),
      rw (at.0) (points-last_member c p.front (ground (arith, has-append c p.front (d ∷ p.back)))),
    )

pub delete_member :
    (h : Heap) (r d : ℕ) (xs : List ℕ)
    → IsRoom h r xs
    → has d xs ≡ true
    → ((Room.delete_channel r d h).0 ≡ is_empty (without d xs))
      × IsRoom (Room.delete_channel r d h).1 r (without d xs)
delete_member h r d xs v m =
    let p = place d xs m in
    rw (p.split, without-middle d p.front p.back (rw (← p.split) v.distinct))
      (delete_channel-IsRoom r d h p.front p.back (rw (← p.split) v))
