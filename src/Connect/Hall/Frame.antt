-- ===== src/Connect/Hall/Frame.antt =====
-- What follows of a bucket that implements a hall, and changes of the heap that a bucket does not see.
use yoyichat.Base.{
  ℕ, suc, ◌<◌, ◌≤◌, ◌≡◌, refl, Bool, true, false, some, arith, ◌==◌, Bool-cases, inl, inr, ◌⊎◌, ◌∙◌,
  ap,
}
use yoyichat.Base.Int.{ℤ, ◌==ℤ◌, ==ℤ_iff}
use yoyichat.Base.Assoc.{lookup, int_key}
use yoyichat.Connect.Heap.{Heap}
use yoyichat.Connect.Bucket.{Bucket}
use yoyichat.Connect.Room.Chain.{has}
use yoyichat.Connect.Room.Frame.{IsRoom-frame}
use yoyichat.Connect.Hall.{Hall, at_key, Implements}

pub not_true : (b : Bool) → (b ≡ true → ⊥) → b ≡ false
not_true true h = absurd (h refl)
not_true false h = refl

module _ {n : ℕ} {b : Bucket} {h : Heap} {a : Hall} (v : Implements n b h a) where
  -- a channel that was never used is in no room
  pub unused : (k : ℤ) → has n (a.members k) ≡ false
  unused k = not_true _ λ m. absurd (omega (arith, v.housed n k (v.seated n k m)))

  -- the lists of two rooms have no channel in common
  pub lists_apart :
      (k j : ℤ) (c : ℕ)
      → (k ==ℤ j) ≡ false
      → has c (a.members j) ≡ true
      → has c (a.members k) ≡ false
  lists_apart k j c ne m =
      not_true _ λ m'. ground (arith, v.seated c j m, v.seated c k m', ==ℤ_iff k j)

  -- two ids have two room objects
  pub rooms_apart :
      (k j : ℤ) (q r : ℕ)
      → (k ==ℤ j) ≡ false
      → lookup k b.rooms ≡ some q
      → lookup j b.rooms ≡ some r
      → (r == q) ≡ false
  rooms_apart k j q r ne ek ej =
      not_true _ λ same. ground (arith, (v.rooms k q ek).id, (v.rooms j r ej).id, ==ℤ_iff k j)

  -- the user of a channel, when `u` has come with channel `n`
  pub user_at :
      (u j : ℤ) (c : ℕ)
      → at_key a.users u (some n) j ≡ some c
      → ((u ≡ j) × (c ≡ n)) ⊎ ((a.users j ≡ some c) × (c < n))
  user_at u j c e = elim (Bool-cases (u ==ℤ j)) [
    | inl same ↦ inl ((==ℤ_iff u j).0 same, ground arith)
    | inr other ↦ inr (ground (arith, v.used j c))
  ]

-- Between `h` and `h'` nothing changed of the bucket's rooms, of the links in them, and of the seats and
-- users of the channels below `n`.
pub record Spares (n : ℕ) (b : Bucket) (a : Hall) (h h' : Heap) : Type 0 where
  pub rooms : (k : ℤ) (r : ℕ) → lookup k b.rooms ≡ some r → h'.room r ≡ h.room r
  pub next_room : h.next_room ≤ h'.next_room
  pub prev : (c : ℕ) (k : ℤ) → a.home c ≡ some k → (h'.channel c).prev ≡ (h.channel c).prev
  pub next : (c : ℕ) (k : ℤ) → a.home c ≡ some k → (h'.channel c).next ≡ (h.channel c).next
  pub seat : (c : ℕ) → c < n → (h'.channel c).room ≡ (h.channel c).room
  pub user : (c : ℕ) → c < n → (h'.channel c).user_id ≡ (h.channel c).user_id

pub Implements-Spares :
    {n : ℕ} {b : Bucket} {h h' : Heap} {a : Hall}
    → Implements n b h a
    → Spares n b a h h'
    → Implements n b h' a
Implements-Spares {n} {b} {h} {h'} {a} v s = record {
  users = v.users;
  owner = λ u c e. s.user c (v.used u c e) ∙ v.owner u c e;
  used = v.used;
  rooms = λ k r e.
      let o = v.rooms k r e in
      let same = s.rooms k r e in
      record {
        id = rw (same) o.id;
        live = rw (same) o.live;
        held =
            IsRoom-frame h h' r (a.members k) same
              (λ c m. let home = v.seated c k m in (s.prev c k home, s.next c k home)) o.held;
        known = omega (arith, o.known, s.next_room);
      };
  closed = v.closed;
  sits = λ c k e.
      let p = v.sits c k e in
      record {
        room = p.room;
        open_room = p.open_room;
        seat = s.seat c (v.housed c k e) ∙ p.seat;
        member = p.member;
      };
  seated = v.seated;
  housed = v.housed;
  standing = λ u c e e'. s.seat c (v.used u c e) ∙ v.standing u c e e';
}

-- a channel that passes without being used
pub Implements-later :
    {n : ℕ} {b : Bucket} {h : Heap} {a : Hall} → Implements n b h a → Implements (suc n) b h a
Implements-later v = record {
  users = v.users;
  owner = v.owner;
  used = λ u c e. omega (arith, v.used u c e);
  rooms = v.rooms;
  closed = v.closed;
  sits = v.sits;
  seated = v.seated;
  housed = λ c k e. omega (arith, v.housed c k e);
  standing = v.standing;
}

-- `h'` has the rooms of `h`, and the links, seats and users of its channels below `n`.
pub record Alike (n : ℕ) (h h' : Heap) : Type 0 where
  pub rooms : h'.room ≡ h.room
  pub next_room : h'.next_room ≡ h.next_room
  pub prev : (c : ℕ) → c < n → (h'.channel c).prev ≡ (h.channel c).prev
  pub next : (c : ℕ) → c < n → (h'.channel c).next ≡ (h.channel c).next
  pub seat : (c : ℕ) → c < n → (h'.channel c).room ≡ (h.channel c).room
  pub user : (c : ℕ) → c < n → (h'.channel c).user_id ≡ (h.channel c).user_id

pub Alike-Spares :
    {n : ℕ} {b : Bucket} {h h' : Heap} {a : Hall}
    → Implements n b h a
    → Alike n h h'
    → Spares n b a h h'
Alike-Spares v s = record {
  rooms = λ k r e. ap (λ f. f r) s.rooms;
  next_room = omega (arith, s.next_room);
  prev = λ c k e. s.prev c (v.housed c k e);
  next = λ c k e. s.next c (v.housed c k e);
  seat = s.seat;
  user = s.user;
}

pub Implements-Alike :
    {n : ℕ} {b : Bucket} {h h' : Heap} {a : Hall}
    → Implements n b h a
    → Alike n h h'
    → Implements n b h' a
Implements-Alike v s = Implements-Spares v (Alike-Spares v s)
