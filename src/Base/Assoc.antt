-- ===== src/Base/Assoc.antt =====
-- Go's maps as association lists, over any type of keys with a test of equality.
use mathlib.Core.Path.{◌≡◌, refl}
use mathlib.Core.Logic.{◌↔◌, ◌⊎◌, inl, inr}
use mathlib.Core.Bool.{Bool, true, false}
use mathlib.Core.Option.{Option, none, some}
use mathlib.Core.List.{List, [], ◌∷◌}
use native.Mathlib.Omega.{arith}
use yoyichat.Base.Tests.{if◌then◌else◌, Bool-cases}
use yoyichat.Base.Int.{ℤ, ◌==ℤ◌, ==ℤ_iff}
use yoyichat.Base.Bytes.{Bytes, same, same_iff}

pub record Key (K : Type 0) : Type 0 where
  pub test : K → K → Bool
  pub test_iff : (a b : K) → (test a b ≡ true) ↔ (a ≡ b)

-- one name for the tests of all keys
abbrev pub eq_key : {K : Type 0} ⦃e : Key K⦄ → K → K → Bool
eq_key ⦃e⦄ = e.test

pub eq_key_refl : {K : Type 0} ⦃e : Key K⦄ (k : K) → eq_key k k ≡ true
eq_key_refl ⦃e⦄ k = (e.test_iff k k).1 refl

instance abbrev pub int_key : Key ℤ
int_key = record { test = ◌==ℤ◌; test_iff = ==ℤ_iff }

instance abbrev pub bytes_key : Key Bytes
bytes_key = record { test = same; test_iff = same_iff }

abbrev pub Assoc : Type 0 → Type 0 → Type 0
Assoc K V = List (K × V)

module _ {K V : Type 0} ⦃e : Key K⦄ where
  unfoldable pub lookup : K → Assoc K V → Option V
  lookup k [] = none
  lookup k ((j, v) ∷ m) = if eq_key j k then some v else lookup k m

  unfoldable pub insert : K → V → Assoc K V → Assoc K V
  insert k v [] = (k, v) ∷ []
  insert k v ((j, w) ∷ m) = if eq_key j k then (k, v) ∷ m else (j, w) ∷ insert k v m

  unfoldable pub delete : K → Assoc K V → Assoc K V
  delete k [] = []
  delete k ((j, w) ∷ m) = let rest = delete k m in if eq_key j k then rest else (j, w) ∷ rest

  pub lookup-insert :
      (k j : K) (v : V) (m : Assoc K V)
      → lookup j (insert k v m) ≡ (if eq_key k j then some v else lookup j m)
  unfolding lookup insert
  lookup-insert k j v [] = refl
  lookup-insert k j v ((i, w) ∷ m) =
      ground (arith, e.test_iff k j, e.test_iff i k, e.test_iff i j, lookup-insert k j v m)

  pub lookup-delete :
      (k j : K) (m : Assoc K V) → lookup j (delete k m) ≡ (if eq_key k j then none else lookup j m)
  unfolding lookup delete
  lookup-delete k j [] = ground arith
  lookup-delete k j ((i, w) ∷ m) =
      ground (arith, e.test_iff k j, e.test_iff i k, e.test_iff i j, lookup-delete k j m)

  pub lookup-insert_self : (k : K) (v : V) (m : Assoc K V) → lookup k (insert k v m) ≡ some v
  lookup-insert_self k v m = rw (lookup-insert, eq_key_refl k)

  pub lookup-delete_self : (k : K) (m : Assoc K V) → lookup k (delete k m) ≡ none
  lookup-delete_self k m = rw (lookup-delete, eq_key_refl k)

  -- where a found value comes from
  pub lookup-insert_hit :
      (k j : K) (v w : V) (m : Assoc K V)
      → lookup j (insert k v m) ≡ some w
      → ((eq_key k j ≡ true) × (v ≡ w)) ⊎ ((eq_key k j ≡ false) × (lookup j m ≡ some w))
  lookup-insert_hit k j v w m e = elim (Bool-cases (eq_key k j)) [
    | inl same ↦ inl (same, ground (arith, lookup-insert k j v m))
    | inr other ↦ inr (other, ground (arith, lookup-insert k j v m))
  ]

  pub lookup-insert_miss :
      (k j : K) (v : V) (m : Assoc K V)
      → lookup j (insert k v m) ≡ none
      → (eq_key k j ≡ false) × (lookup j m ≡ none)
  lookup-insert_miss k j v m e = elim (Bool-cases (eq_key k j)) [
    | inl same ↦ ground (arith, lookup-insert k j v m)
    | inr other ↦ ground (arith, lookup-insert k j v m)
  ]

  pub lookup-delete_hit :
      (k j : K) (w : V) (m : Assoc K V)
      → lookup j (delete k m) ≡ some w
      → (eq_key k j ≡ false) × (lookup j m ≡ some w)
  lookup-delete_hit k j w m e = elim (Bool-cases (eq_key k j)) [
    | inl same ↦ ground (arith, lookup-delete k j m)
    | inr other ↦ ground (arith, lookup-delete k j m)
  ]

  pub lookup-delete_miss :
      (k j : K) (m : Assoc K V)
      → lookup j (delete k m) ≡ none
      → (eq_key k j ≡ true) ⊎ ((eq_key k j ≡ false) × (lookup j m ≡ none))
  lookup-delete_miss k j m e = elim (Bool-cases (eq_key k j)) [
    | inl same ↦ inl same
    | inr other ↦ inr (other, ground (arith, lookup-delete k j m))
  ]
