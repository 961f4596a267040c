-- ===== src/Connect/House/Presence.antt =====
-- Who is where in the buckets of a connect server (connect/server.go, connect/bucket.go), in every run.
use yoyichat.Base.{
  ℕ, ◌≡◌, refl, true, Option, none, some, List, arith, ◌==◌, ==_refl, get_elem?, Bool-cases,
  Option-cases, inl, inr, sym, ap, ◌∙◌,
}
use yoyichat.Base.Bytes.{Bytes}
use yoyichat.Base.Int.{ℤ, ◌==ℤ◌, ==ℤ_iff}
use yoyichat.Connect.Heap.{no_room}
use yoyichat.Connect.Bucket.{Bucket, BucketOptions}
use yoyichat.Connect.Server.{World, Operator}
use yoyichat.Base.Assoc.{lookup, int_key}
use yoyichat.Connect.Room.Chain.{has}
use yoyichat.Connect.Hall.{Hall, join, leave_with, at_key}
use yoyichat.Connect.House.{House, arrive, depart_with}
use yoyichat.Connect.House.Leaving.{leave_home}
use yoyichat.Connect.House.Runs.{Run-Stands}
use yoyichat.Connect.House.Steps.{
  Event, house_after, own_bucket, Run, opens, connects, refused, ends, pushes, broadcasts, routes,
  writes, others,
}

-- Whoever is in the house is there by a ticket.
pub record IsTold (idx : ℤ → ℕ) (a : House) : Type 0 where
  pub home :
      (i c : ℕ) (k : ℤ)
      → (a.halls i).home c ≡ some k
      → (u : ℤ) × (a.tickets c ≡ some (u, k)) × (i ≡ idx u)
  pub user :
      (i c : ℕ) (u : ℤ)
      → (a.halls i).users u ≡ some c
      → (k : ℤ) × (a.tickets c ≡ some (u, k)) × (i ≡ idx u)

module _ (idx : ℤ → ℕ) (a : House) (v : IsTold idx a) where
  module _ (u k : ℤ) (n : ℕ) (new : a.tickets n ≡ none) where
    -- a channel that has no ticket yet gets one, and the others keep theirs
    kept :
        (c : ℕ) (x j : ℤ) → a.tickets c ≡ some (x, j) → (arrive idx u k n a).tickets c ≡ some (x, j)
    kept c x j t = elim (Bool-cases (c == n)) [
      | inl e ↦
          let cn : c ≡ n = ground arith in
          let never : none ≡ a.tickets c = sym new ∙ ap (λ d. a.tickets d) (sym cn) in
          absurd (cc (never, t))
      | inr e ↦ rw (e) t
    ]

    kept_home :
        (i c : ℕ) (j : ℤ)
        → (a.halls i).home c ≡ some j
        → (x : ℤ) × ((arrive idx u k n a).tickets c ≡ some (x, j)) × (i ≡ idx x)
    kept_home i c j old = let (x, t, e) = v.home i c j old in (x, kept c x j t, e)

    joined_home :
        (i c : ℕ) (j : ℤ)
        → i ≡ idx u
        → (join u k n (a.halls i)).home c ≡ some j
        → (x : ℤ) × ((arrive idx u k n a).tickets c ≡ some (x, j)) × (i ≡ idx x)
    joined_home i c j own e = elim (Bool-cases (k ==ℤ no_room)) [
      | inl r ↦ kept_home i c j (ground (arith, e, r))
      | inr r ↦ elim (Bool-cases (c == n)) [
        | inl f ↦ let kj : k ≡ j = ground (arith, e, r, f) in (u, rw (f, kj) refl, own)
        | inr f ↦ kept_home i c j (ground (arith, e, r, f))
      ]
    ]

    kept_user :
        (i c : ℕ) (x : ℤ)
        → (a.halls i).users x ≡ some c
        → (j : ℤ) × ((arrive idx u k n a).tickets c ≡ some (x, j)) × (i ≡ idx x)
    kept_user i c x old = let (j, t, e) = v.user i c x old in (j, kept c x j t, e)

    joined_user :
        (i c : ℕ) (x : ℤ)
        → i ≡ idx u
        → (join u k n (a.halls i)).users x ≡ some c
        → (j : ℤ) × ((arrive idx u k n a).tickets c ≡ some (x, j)) × (i ≡ idx x)
    joined_user i c x own e =
        let e' : at_key (a.halls i).users u (some n) x ≡ some c = ground (arith, e) in
        elim (Bool-cases (u ==ℤ x)) [
          | inl f ↦
              let ux = (==ℤ_iff u x).0 f in
              let nc : n ≡ c = ground (arith, e', f) in
              (k, rw (← nc, ux, ==_refl n) refl, rw (← ux) own)
          | inr f ↦ kept_user i c x (ground (arith, e', f))
        ]

    arrive-IsTold : IsTold idx (arrive idx u k n a)
    arrive-IsTold = record {
      home = λ i c j e. elim (Bool-cases (i == idx u)) [
        | inl f ↦ joined_home i c j (ground (arith, f)) (ground (arith, e, f))
        | inr f ↦ kept_home i c j (ground (arith, e, f))
      ];
      user = λ i c x e. elim (Bool-cases (i == idx u)) [
        | inl f ↦ joined_user i c x (ground (arith, f)) (ground (arith, e, f))
        | inr f ↦ kept_user i c x (ground (arith, e, f))
      ];
    }

  leave_user :
      (u : ℤ) (o : Option ℕ) (b : Hall) (x : ℤ) (c : ℕ)
      → (leave_with u o b).users x ≡ some c
      → b.users x ≡ some c
  leave_user u none b x c e = e
  leave_user u (some d) b x c e = elim (Option-cases (b.home d)) [
    | inl f ↦ let e' : at_key b.users u none x ≡ some c = ground (arith, e, f) in ground (arith, e')
    | inr (k, f) ↦
        let e' : at_key b.users u none x ≡ some c = ground (arith, e, f) in ground (arith, e')
  ]

  depart_with-IsTold : (t : Option (ℤ × ℤ)) → IsTold idx (depart_with idx t a)
  depart_with-IsTold none = v
  depart_with-IsTold (some (u, k)) = elim (Bool-cases (k ==ℤ no_room)) [
    | inl r ↦ rw (r) v
    | inr r ↦ rw (r) record {
      home = λ i c j e. elim (Bool-cases (i == idx u)) [
        | inl f ↦
            v.home i c j (leave_home u ((a.halls i).users u) (a.halls i) c j (ground (arith, e, f)))
        | inr f ↦ v.home i c j (ground (arith, e, f))
      ];
      user = λ i c x e. elim (Bool-cases (i == idx u)) [
        | inl f ↦
            v.user i c x (leave_user u ((a.halls i).users u) (a.halls i) x c (ground (arith, e, f)))
        | inr f ↦ v.user i c x (ground (arith, e, f))
      ];
    }
  ]

module _ (hash : Bytes → ℕ) (O : Operator) (server_id : Bytes) (more : ℕ) (o : BucketOptions) where
  pub Run-IsTold :
      (es : List Event) (n : ℕ) (w : World hash O server_id)
      → Run hash O server_id more o es n w
      → IsTold (own_bucket hash more) (house_after (own_bucket hash more) es)
  Run-IsTold es n w (opens h s) = record {
    home = λ i c k e. absurd (cc e);
    user = λ i c u e. absurd (cc e);
  }
  Run-IsTold es n w (connects {es = es₀} {n = n₀} {w = w₀} tcp token u k size s w' reply real e t) =
      let idx = own_bucket hash more in
      let stands = Run-Stands hash O server_id more o es₀ n₀ w₀ t in
      arrive-IsTold idx (house_after idx es₀) (Run-IsTold es₀ n₀ w₀ t) u k n₀
        (elim (Option-cases ((house_after idx es₀).tickets n₀)) [
          | inl f ↦ f
          | inr ((x, j), f) ↦ absurd (omega (arith, (stands.ticket n₀ x j f).below))
        ])
  Run-IsTold es n w (refused {n = n₀} {w = w₀} tcp token k size w' e t) = Run-IsTold es n₀ w₀ t
  Run-IsTold es n w (ends {es = es₀} {w = w₀} c w' low e t) =
      let idx = own_bucket hash more in
      let a = house_after idx es₀ in depart_with-IsTold idx a (Run-IsTold es₀ n w₀ t) (a.tickets c)
  Run-IsTold es n w (pushes {w = w₀} req reply h e t) = Run-IsTold es n w₀ t
  Run-IsTold es n w (broadcasts {w = w₀} req bs e t) = Run-IsTold es n w₀ t
  Run-IsTold es n w (routes {w = w₀} fuel i num b b' h at e t) = Run-IsTold es n w₀ t
  Run-IsTold es n w (writes {w = w₀} c msg h e t) = Run-IsTold es n w₀ t
  Run-IsTold es n w (others {w = w₀} s t) = Run-IsTold es n w₀ t

  -- In every run of a server, a channel that is a member of a room in a bucket has come with that room's
  -- id and with a user whose own bucket it is; the channel's user is that user, and its room is the room
  -- object that the bucket has for the id.
  pub Run-member :
      (es : List Event) (n : ℕ) (w : World hash O server_id) (i c : ℕ) (k : ℤ) (b : Bucket)
      → Run hash O server_id more o es n w
      → get_elem? w.server.buckets i ≡ some b
      → has c (((house_after (own_bucket hash more) es).halls i).members k) ≡ true
      → (u : ℤ) × (r : ℕ) × ((house_after (own_bucket hash more) es).tickets c ≡ some (u, k))
        × (i ≡ own_bucket hash more u)
        × ((w.heap.channel c).user_id ≡ u)
        × ((w.heap.channel c).room ≡ some r)
        × (lookup k b.rooms ≡ some r)
  Run-member es n w i c k b t at m =
      let v = Run-Stands hash O server_id more o es n w t in
      let f = v.floors.floor i b at in
      let home = f.seated c k m in
      let p = f.sits c k home in
      let (u, ticket, own) = (Run-IsTold es n w t).home i c k home in
      (u, p.room, ticket, own, (v.ticket c u k ticket).user, p.seat, p.open_room)
