-- ===== src/Connect/Room/Chain.antt =====
-- Doubly linked lists of channels: what it means that the pointers spell a list, and how the list
-- changes when a node is put in front or unlinked from the middle.
use yoyichat.Base.{
  ℕ, ◌≡◌, refl, Bool, true, false, ◌||◌, Option, none, some, List, [], ◌∷◌, ◌++◌, arith, ◌==◌,
  if◌then◌else◌, head?, Bool-cases, inl, inr, ◌∙◌,
}
use yoyichat.Connect.Heap.{Channel}

abbrev pub has : ℕ → List ℕ → Bool
has a [] = false
has a (x ∷ xs) = (a == x) || has a xs

abbrev pub Distinct : List ℕ → Type 0
Distinct [] = Unit
Distinct (x ∷ xs) = (has x xs ≡ false) × Distinct xs

-- From the node behind `p` the pointers lead through `xs` to nil, and back.
abbrev pub Chain : (ℕ → Channel) → Option ℕ → List ℕ → Type 0
Chain f p [] = Unit
Chain f p (x ∷ xs) = ((f x).prev ≡ p) × ((f x).next ≡ head? xs) × Chain f (some x) xs

abbrev pub points : Option ℕ → ℕ → Bool
points none a = false
points (some b) a = a == b

-- `p` is no node of `xs`
abbrev pub Outside : Option ℕ → List ℕ → Type 0
Outside none xs = Unit
Outside (some a) xs = has a xs ≡ false

abbrev pub last_or : Option ℕ → List ℕ → Option ℕ
last_or p [] = p
last_or p (x ∷ xs) = last_or (some x) xs

pub has-append : (a : ℕ) (xs ys : List ℕ) → has a (xs ++ ys) ≡ (has a xs || has a ys)
has-append a [] ys = refl
has-append a (x ∷ xs) ys = ground (arith, has-append a xs ys)

-- the same links at every node of `xs`
abbrev pub SameLinks : (f g : ℕ → Channel) → List ℕ → Type 0
SameLinks f g xs = (a : ℕ) → has a xs ≡ true → ((g a).prev ≡ (f a).prev) × ((g a).next ≡ (f a).next)

pub Chain-frame :
    (f g : ℕ → Channel) (p : Option ℕ) (xs : List ℕ)
    → Chain f p xs
    → SameLinks f g xs
    → Chain g p xs
Chain-frame f g p [] c e = tt
Chain-frame f g p (x ∷ xs) c e =
    let here = e x (ground arith) in
    (here.0 ∙ c.0, here.1 ∙ c.1, Chain-frame f g (some x) xs c.2 (λ a i. e a (ground arith)))

pub Distinct-remove : (c : ℕ) (xs ys : List ℕ) → Distinct (xs ++ c ∷ ys) → Distinct (xs ++ ys)
Distinct-remove c [] ys d = d.1
Distinct-remove c (x ∷ xs) ys d =
    (ground (arith, has-append x xs (c ∷ ys), has-append x xs ys), Distinct-remove c xs ys d.1)

-- a node's neighbours in the list
pub Chain-at :
    (f : ℕ → Channel) (p : Option ℕ) (c : ℕ) (xs ys : List ℕ)
    → Chain f p (xs ++ c ∷ ys)
    → ((f c).prev ≡ last_or p xs) × ((f c).next ≡ head? ys)
Chain-at f p c [] ys h = (h.0, h.1)
Chain-at f p c (x ∷ xs) ys h = Chain-at f (some x) c xs ys h.2

pub points-last :
    (a x : ℕ) (xs : List ℕ) → has a (x ∷ xs) ≡ false → points (last_or (some x) xs) a ≡ false
points-last a x [] h = ground arith
points-last a x (y ∷ xs) h = points-last a y xs (ground arith)

pub points-head : (a : ℕ) (xs : List ℕ) → has a xs ≡ false → points (head? xs) a ≡ false
points-head a [] h = refl
points-head a (x ∷ xs) h = ground arith

Outside-points :
    (p : Option ℕ) (a : ℕ) (xs : List ℕ) → Outside p xs → has a xs ≡ true → points p a ≡ false
Outside-points none a xs o i = refl
Outside-points (some b) a xs o i = elim (Bool-cases (a == b)) [
  | inl e ↦ rw e (ground arith)
  | inr e ↦ e
]

Outside-tail : (p : Option ℕ) (c : ℕ) (ys : List ℕ) → Outside p (c ∷ ys) → Outside p ys
Outside-tail none c ys o = tt
Outside-tail (some a) c ys o = ground arith

-- `g` is `f` with node `c` bypassed
pub record Bypassed (f g : ℕ → Channel) (c : ℕ) : Type 0 where
  pub prevs : (a : ℕ) → (g a).prev ≡ (if points (f c).next a then (f c).prev else (f a).prev)
  pub nexts : (a : ℕ) → (g a).next ≡ (if points (f c).prev a then (f c).next else (f a).next)

module _ (f g : ℕ → Channel) (c : ℕ) (b : Bypassed f g c) where
  -- a node that is no neighbour of `c` keeps its links
  bypassed_same :
      (a : ℕ)
      → points (f c).next a ≡ false
      → points (f c).prev a ≡ false
      → ((g a).prev ≡ (f a).prev) × ((g a).next ≡ (f a).next)
  bypassed_same a n p = (rw (b.prevs a, n) refl, rw (b.nexts a, p) refl)

  -- the nodes behind `c`
  bypassed_after :
      (p : Option ℕ) (ys : List ℕ)
      → (f c).prev ≡ p
      → (f c).next ≡ head? ys
      → Chain f (some c) ys
      → Distinct ys
      → Outside p ys
      → Chain g p ys
  bypassed_after p [] ep en h d o = tt
  bypassed_after p (y ∷ ys) ep en h d o = (
    rw (b.prevs y, en) (ground arith),
    rw (b.nexts y, ep, Outside-points p y (y ∷ ys) o (ground arith)) h.1,
    Chain-frame f g (some y) ys h.2 λ a i.
        bypassed_same a (rw en (ground arith))
          (rw ep (Outside-points p a (y ∷ ys) o (ground arith))),
  )

  pub Chain-bypass :
      (p : Option ℕ) (xs ys : List ℕ)
      → Chain f p (xs ++ c ∷ ys)
      → Distinct (xs ++ c ∷ ys)
      → Outside p (xs ++ c ∷ ys)
      → Chain g p (xs ++ ys)
  Chain-bypass p [] ys h d o = bypassed_after p ys h.0 h.1 h.2 d.1 (Outside-tail p c ys o)
  Chain-bypass p (x ∷ []) ys h d o =
      let at = Chain-at f p c (x ∷ []) ys h in
      let out : has x ys ≡ false = ground arith in
      (
        rw (b.prevs x, at.1, points-head x ys out) h.0,
        rw (b.nexts x, at.0) (ground (arith, at.1)),
        Chain-bypass (some x) [] ys h.2 d.1 d.0,
      )
  Chain-bypass p (x ∷ y ∷ xs) ys h d o =
      let at = Chain-at f p c (x ∷ y ∷ xs) ys h in
      let out = d.0 in
      (
        rw (b.prevs x, at.1, points-head x ys (ground (arith, has-append x xs (c ∷ ys)))) h.0,
        rw (b.nexts x, at.0, points-last x y xs (ground (arith, has-append x xs (c ∷ ys)))) h.1,
        Chain-bypass (some x) (y ∷ xs) ys h.2 d.1 d.0,
      )
