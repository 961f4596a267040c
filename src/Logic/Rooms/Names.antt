-- ===== src/Logic/Rooms/Names.antt =====
-- The names in the table of a room (logic/rpc.go), and lists of the users who are in it.
use yoyichat.Base.{
  suc, ◌≡◌, refl, Bool, true, false, not, ◌&&◌, ◌||◌, Option, none, some, List, [], ◌∷◌, arith,
  length, if◌then◌else◌, Bool-cases, Option-cases, inl, inr, ap, sym,
}
use yoyichat.Base.Bytes.{Bytes, same, same_iff, same_refl}
use yoyichat.Base.Bytes.Decimal.{itoa, atoi, atoi-itoa}
use yoyichat.Base.Int.{ℤ, ◌==ℤ◌, ==ℤ_iff}
use yoyichat.Base.Assoc
use yoyichat.Base.Assoc.{lookup, lookup-insert, lookup-delete, bytes_key}
use yoyichat.Messages.{Table}
use yoyichat.Logic.Session.{field}

abbrev pub listed : ℤ → List ℤ → Bool
listed u [] = false
listed u (x ∷ xs) = (u ==ℤ x) || listed u xs

abbrev pub without_user : ℤ → List ℤ → List ℤ
without_user u [] = []
without_user u (x ∷ xs) = if u ==ℤ x then xs else x ∷ without_user u xs

-- the table has a name for the user
abbrev pub named : ℤ → Table → Bool
named u t = not (same (field (itoa u) t) [])

abbrev pub Distinct : List ℤ → Type 0
Distinct [] = Unit
Distinct (x ∷ xs) = (listed x xs ≡ false) × Distinct xs

pub listed-without_user :
    (c d : ℤ) (xs : List ℤ)
    → Distinct xs
    → listed c (without_user d xs) ≡ (listed c xs && not (c ==ℤ d))
listed-without_user c d [] e = refl
listed-without_user c d (x ∷ xs) e =
    ground (arith, e.0, listed-without_user c d xs e.1, ==ℤ_iff d x, ==ℤ_iff c d, ==ℤ_iff c x)

pub Distinct-without_user : (d : ℤ) (xs : List ℤ) → Distinct xs → Distinct (without_user d xs)
Distinct-without_user d [] e = tt
Distinct-without_user d (x ∷ xs) e = elim (Bool-cases (d ==ℤ x)) [
  | inl same_user ↦ rw (same_user) e.1
  | inr other ↦
      rw (other)
        (ground (arith, e.0, listed-without_user x d xs e.1), Distinct-without_user d xs e.1)
]

pub length-without_user :
    (d : ℤ) (xs : List ℤ) → listed d xs ≡ true → length xs ≡ suc (length (without_user d xs))
length-without_user d [] m = absurd (ground arith)
length-without_user d (x ∷ xs) m = elim (Bool-cases (d ==ℤ x)) [
  | inl same_user ↦ rw (same_user) refl
  | inr other ↦ rw (other) (ap suc (length-without_user d xs (ground (arith, m, other))))
]

itoa_apart : (u v : ℤ) → (u ==ℤ v) ≡ false → same (itoa u) (itoa v) ≡ false
itoa_apart u v e = elim (Bool-cases (same (itoa u) (itoa v))) [
  | inl t ↦
      let same_text = (same_iff (itoa u) (itoa v)).0 t in
      let uv : u ≡ v = cc (atoi-itoa u, atoi-itoa v, ap atoi same_text) in
      absurd (ground (arith, e, ==ℤ_iff u v, uv))
  | inr t ↦ t
]

abbrev or_empty : Option Bytes → Bytes
or_empty none = []
or_empty (some v) = v

field-lookup : (f : Bytes) (t : Table) → field f t ≡ or_empty (lookup f t)
unfolding field
field-lookup f t = elim (Option-cases (lookup f t)) [
  | inl e ↦ rw (e, field) refl
  | inr (v, e) ↦ rw (e, field) refl
]

pub named-insert :
    (u v : ℤ) (name : Bytes) (t : Table)
    → same name [] ≡ false
    → named v (Assoc.insert (itoa u) name t) ≡ ((v ==ℤ u) || named v t)
named-insert u v name t given = elim (Bool-cases (v ==ℤ u)) [
  | inl e ↦
      let vu = (==ℤ_iff v u).0 e in
      rw
        (
          e,
          field-lookup (itoa v) (Assoc.insert (itoa u) name t),
          lookup-insert (itoa u) (itoa v) name t,
          vu,
          same_refl (itoa u),
          given,
        )
        refl
  | inr e ↦
      let apart : same (itoa u) (itoa v) ≡ false =
        itoa_apart u v (ground (arith, e, ==ℤ_iff u v, ==ℤ_iff v u)) in
      rw
        (
          e,
          field-lookup (itoa v) (Assoc.insert (itoa u) name t),
          lookup-insert (itoa u) (itoa v) name t,
          apart,
          field-lookup (itoa v) t,
        )
        refl
]

and_false : (b : Bool) → (b && false) ≡ false
and_false true = refl
and_false false = refl

and_true : (b : Bool) → (b && true) ≡ b
and_true true = refl
and_true false = refl

pub named-delete :
    (u v : ℤ) (t : Table) → named v (Assoc.delete (itoa u) t) ≡ (named v t && not (v ==ℤ u))
named-delete u v t = elim (Bool-cases (v ==ℤ u)) [
  | inl e ↦
      let vu = (==ℤ_iff v u).0 e in
      rw
        (
          e,
          field-lookup (itoa v) (Assoc.delete (itoa u) t),
          lookup-delete (itoa u) (itoa v) t,
          vu,
          same_refl (itoa u),
        )
        (rw (same_refl []) (sym (and_false (named u t))))
  | inr e ↦
      let apart : same (itoa u) (itoa v) ≡ false =
        itoa_apart u v (ground (arith, e, ==ℤ_iff u v, ==ℤ_iff v u)) in
      rw
        (
          e,
          field-lookup (itoa v) (Assoc.delete (itoa u) t),
          lookup-delete (itoa u) (itoa v) t,
          apart,
          field-lookup (itoa v) t,
        )
        (sym (and_true (not (same (or_empty (lookup (itoa v) t)) []))))
]
