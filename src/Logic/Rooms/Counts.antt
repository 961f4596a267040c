-- ===== src/Logic/Rooms/Counts.antt =====
-- The table of a room's users and its count, as users enter and leave.
use yoyichat.Base.{
  arith, Option-cases, inl, inr, ◌≡◌, refl, true, false, Option, none, some, [], Result,
}
use yoyichat.Base.Bytes.{Bytes, same, same_iff, same_refl}
use yoyichat.Base.Bytes.Decimal.{itoa, atoi, atoi-itoa}
use yoyichat.Base.Int.{ℤ, pos, incr, decr, not_positive, ◌==ℤ◌}
use yoyichat.Base.Assoc
use yoyichat.Base.Assoc.{lookup, bytes_key}
use yoyichat.Messages.{Table}
use yoyichat.Logic.Redis.{
  Redis, Answer, IsUp, Value, absent, text_value, table_value, list_value, hash_answer, hash_effect,
  hget, hset, hdel, get, incr_key, decr_key, put_value, Db, number_in, get_answer, or_nil, text_of,
}
use yoyichat.Logic.Keys.Apart.{keys_apart}
use yoyichat.Logic.Session.{field, int_or_zero}
use yoyichat.Logic.Publish.{Codec}
use yoyichat.Logic.Rooms.{
  users_of, count_of, enter_room, enter_if_new, decrease_count, decrease_positive, remove_user,
  room_count,
}

-- the table under a key: none yet is an empty one
abbrev pub table_in : Value → Option Table
table_in absent = some []
table_in (table_value t) = some t
table_in (text_value t) = none
table_in (list_value l) = none

hash_answer_lem :
    (f : Table → Result Answer) (v : Value) (t : Table)
    → table_in v ≡ some t
    → hash_answer f v ≡ f t
hash_answer_lem f absent t e = ground (arith, e)
hash_answer_lem f (table_value u) t e = ground (arith, e)
hash_answer_lem f (text_value u) t e = ground (arith, e)
hash_answer_lem f (list_value u) t e = ground (arith, e)

hash_effect_lem :
    (db : Db) (k : Bytes) (f : Table → Table) (v : Value) (t : Table)
    → table_in v ≡ some t
    → hash_effect db k f v ≡ put_value db k (table_value (f t))
hash_effect_lem db k f absent t e = ground (arith, e)
hash_effect_lem db k f (table_value u) t e = ground (arith, e)
hash_effect_lem db k f (text_value u) t e = ground (arith, e)
hash_effect_lem db k f (list_value u) t e = ground (arith, e)

pub same_comm : (a b : Bytes) → same a b ≡ false → same b a ≡ false
same_comm a b = ground (arith, same_iff a b, same_iff b a)

text-or_nil : (user : Bytes) (t : Table) → text_of (or_nil (lookup user t)) ≡ field user t
unfolding field
text-or_nil user t = elim (Option-cases (lookup user t)) [
  | inl e ↦ rw (e, field) refl
  | inr (v, e) ↦ rw (e, field) refl
]

count-number_in :
    (v : Value) (n : ℤ) → number_in v ≡ some n → int_or_zero (atoi (text_of (get_answer v))) ≡ n
unfolding atoi
count-number_in absent n e = ground (arith, e)
count-number_in (text_value t) n e = rw (e) refl
count-number_in (table_value t) n e = ground (arith, e)
count-number_in (list_value l) n e = ground (arith, e)

-- what the keys of a room hold
abbrev pub HasRoom : Db → ℤ → Table → ℤ → Type 0
HasRoom db room_id t n =
    (table_in (db (users_of room_id)) ≡ some t) × (number_in (db (count_of room_id)) ≡ some n)

module _ (R : Redis) (up : IsUp R) (codec : Codec) (room_id : ℤ) (user : Bytes) where
  open R use {State, run}

  apart₁ : same (users_of room_id) (count_of room_id) ≡ false
  apart₁ = (keys_apart room_id room_id).3

  apart₂ : same (count_of room_id) (users_of room_id) ≡ false
  apart₂ = same_comm (users_of room_id) (count_of room_id) apart₁

  enter_room-enter_if_new :
      (name : Bytes) (s : State) (t : Table)
      → table_in (up.view s (users_of room_id)) ≡ some t
      → enter_room R codec room_id user name s
        ≡ enter_if_new R codec
            (same (field user t) [])
            room_id
            user
            name
            (run (hget (users_of room_id) user) s).1
  unfolding enter_room
  enter_room-enter_if_new name s t e =
      rw (up.answers (hget _ _) s, hash_answer_lem _ _ t e, text-or_nil user t) refl

  -- A user without a name in the table of a room is written there and counted, so a user that is
  -- written under the empty name is counted again at each further entry: where the room's keys
  -- hold a table and a number, or nothing yet.
  pub enter_room-counted :
      (name : Bytes) (s : State) (t : Table) (n : ℤ)
      → HasRoom (up.view s) room_id t n
      → same (field user t) [] ≡ true
      → HasRoom
          (up.view (enter_room R codec room_id user name s))
          room_id
          (Assoc.insert user name t)
          (incr n)
  unfolding enter_if_new
  enter_room-counted name s t n (et, en) new =
      rw
        (
          enter_room-enter_if_new name s t et,
          new,
          up.effects (incr_key _) _,
          up.effects (hset _ _ _) _,
          up.effects (hget _ _) s,
          hash_effect_lem _ _ _ _ t et,
        )
        (
          rw (apart₂, en, apart₁, same_refl (users_of room_id)) refl,
          rw (apart₂, en, same_refl (count_of room_id), atoi-itoa (incr n)) refl,
        )

  -- A user that the table names enters again without any change of what the keys hold.
  pub enter_room-again :
      (name : Bytes) (s : State) (t : Table)
      → table_in (up.view s (users_of room_id)) ≡ some t
      → same (field user t) [] ≡ false
      → up.view (enter_room R codec room_id user name s) ≡ up.view s
  unfolding enter_if_new
  enter_room-again name s t et old =
      rw (enter_room-enter_if_new name s t et, old, up.effects (hget _ _) s) refl

  decrease_count-view :
      (s : State) (n : ℤ)
      → not_positive room_id ≡ false
      → number_in (up.view s (count_of room_id)) ≡ some n
      → not_positive n ≡ false
      → up.view (decrease_count R codec room_id s)
        ≡ put_value (up.view s) (count_of room_id) (text_value (itoa (decr n)))
  unfolding decrease_count decrease_positive room_count
  decrease_count-view s n is_room en positive =
      rw
        (
          is_room,
          up.answers (get _) s,
          count-number_in (up.view s (count_of room_id)) n en,
          positive,
          up.effects (decr_key _) _,
          up.effects (get _) s,
          en,
        )
        refl

  -- A leave of a user whose id is not 0 from a room with a positive id takes one off the count and
  -- the user's name out of the table, where there is a table and the count is positive: whether
  -- the table names the user or not.
  pub remove_user-counted :
      (id : ℤ) (s : State) (t : Table) (n : ℤ)
      → not_positive room_id ≡ false
      → (id ==ℤ pos 0) ≡ false
      → up.view s (users_of room_id) ≡ table_value t
      → number_in (up.view s (count_of room_id)) ≡ some n
      → not_positive n ≡ false
      → HasRoom
          (up.view (remove_user R codec room_id id (decrease_count R codec room_id s)))
          room_id
          (Assoc.delete (itoa id) t)
          (decr n)
  unfolding remove_user
  remove_user-counted id s t n is_room is_user et en positive =
      rw (is_user, up.effects (hdel _ _) _, decrease_count-view s n is_room en positive, apart₁, et)
        (
          rw (same_refl (users_of room_id)) refl,
          rw (apart₂, same_refl (count_of room_id), atoi-itoa (decr n)) refl,
        )
