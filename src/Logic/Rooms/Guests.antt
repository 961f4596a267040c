-- ===== src/Logic/Rooms/Guests.antt =====
-- The count and the table of a room against the users who are in it, as Connect and DisConnect of
-- logic/rpc.go follow each other.
use yoyichat.Base.{
  suc, ◌≡◌, refl, true, false, some, List, [], ◌∷◌, arith, length, Result, ok, err, ap, ◌∙◌,
}
use yoyichat.Base.Bytes.{Bytes, same}
use yoyichat.Base.Bytes.Decimal.{itoa}
use yoyichat.Base.Int.{ℤ, pos, not_positive, ◌==ℤ◌}
use yoyichat.Base.Assoc
use yoyichat.Base.Assoc.{lookup, lookup-insert, lookup-delete, bytes_key}
use yoyichat.Messages.{Table, ConnectRequest, queue_name, redis_base_valid_time}
use yoyichat.Logic.Redis.{
  Redis, Db, IsUp, Value, absent, text_value, table_value, list_value, set, hgetall, lpush,
  lpush_effect, table_of,
}
use yoyichat.Logic.Keys.{get_user_key}
use yoyichat.Logic.Keys.Apart.{keys_apart}
use yoyichat.Logic.Publish.{Codec, push_marshalled, publish, redis_publish_room_send}
use yoyichat.Logic.Session.{field}
use yoyichat.Logic.Rooms.{
  users_of, count_of, connect_user, enter_room, decrease_count, remove_user, disconnect,
}
use yoyichat.Logic.Rooms.Counts.{
  table_in, HasRoom, enter_room-counted, enter_room-again, remove_user-counted, same_comm,
}
use yoyichat.Logic.Rooms.Servers.{queue_apart}
use yoyichat.Logic.Rooms.Names.{
  listed, without_user, named, Distinct, listed-without_user, Distinct-without_user,
  length-without_user, named-insert, named-delete,
}

-- What the keys of a room say of the users who are in it: the count is their number, and the table names
-- them and no others.
pub record Counted (db : Db) (room_id : ℤ) (ids : List ℤ) : Type 0 where
  pub table : Table
  pub holds : HasRoom db room_id table (pos (length ids))
  pub names : (u : ℤ) → named u table ≡ listed u ids

HasRoom-same :
    (db db' : Db) (room_id : ℤ) (t : Table) (n : ℤ)
    → db' (users_of room_id) ≡ db (users_of room_id)
    → db' (count_of room_id) ≡ db (count_of room_id)
    → HasRoom db room_id t n
    → HasRoom db' room_id t n
HasRoom-same db db' room_id t n eu ec v = (rw (eu) v.0, rw (ec) v.1)

-- a table that names someone is there
table_there :
    (v : Value) (t : Table) (u : ℤ) → table_in v ≡ some t → named u t ≡ true → v ≡ table_value t
unfolding field lookup same
table_there absent t u e m = absurd (ground (arith, e, m))
table_there (table_value x) t u e m = ground (arith, e)
table_there (text_value x) t u e m = absurd (cc e)
table_there (list_value x) t u e m = absurd (cc e)

module _ (R : Redis) (up : IsUp R) (codec : Codec) where
  open R use {State, run}

  lpush_other :
      (db : Db) (k j v : Bytes) (held : Value)
      → same j k ≡ false
      → lpush_effect db k v held j ≡ db j
  lpush_other db k j v absent e = rw (e) refl
  lpush_other db k j v (list_value l) e = rw (e) refl
  lpush_other db k j v (table_value t) e = refl
  lpush_other db k j v (text_value t) e = refl

  push_marshalled_other :
      (r : Result Bytes) (s : State) (k : Bytes)
      → same k queue_name ≡ false
      → up.view (push_marshalled R codec r s).1 k ≡ up.view s k
  unfolding push_marshalled
  push_marshalled_other (err e) s k apart = refl
  push_marshalled_other (ok bytes) s k apart =
      ap (λ db. db k) (up.effects (lpush queue_name bytes) s)
      ∙ lpush_other (up.view s) queue_name k bytes (up.view s queue_name) apart

  module _ (room_id : ℤ) where
    -- `DisConnect` after the count and the table: the message that it publishes goes to the queue
    disconnect_keys :
        (user_id : ℤ) (s : State) (t : Table) (n : ℤ)
        → HasRoom
            (up.view (remove_user R codec room_id user_id (decrease_count R codec room_id s)))
            room_id
            t
            n
        → HasRoom
            (up.view (disconnect R codec (record { room_id = room_id; user_id = user_id }) s).1)
            room_id
            t
            n
    unfolding disconnect redis_publish_room_send publish
    disconnect_keys user_id s t n v =
        let s₁ = remove_user R codec room_id user_id (decrease_count R codec room_id s) in
        let (a, s₂) = run (hgetall (users_of room_id)) s₁ in
        let other : (k : Bytes)
            → same k queue_name ≡ false
            → up.view (redis_publish_room_send R codec room_id (table_of a) [] s₂).1 k
              ≡ up.view s₁ k =
          λ k apart.
            push_marshalled_other _ s₂ k apart
            ∙ ap (λ db. db k) (up.effects (hgetall (users_of room_id)) s₁) in
        let (au, ac) = queue_apart room_id in
        let left = (disconnect R codec (record { room_id = room_id; user_id = user_id }) s).1 in
        HasRoom-same (up.view s₁) (up.view left) room_id t n
          (other (users_of room_id) (same_comm queue_name (users_of room_id) au))
          (other (count_of room_id) (same_comm queue_name (count_of room_id) ac)) v

    -- `Connect` writes the user's server first
    named_server : ConnectRequest → ℤ → State → State
    named_server args user_id s =
        (run (set (get_user_key (itoa user_id)) args.server_id redis_base_valid_time) s).1

    named_server_keys :
        (args : ConnectRequest) (user_id : ℤ) (s : State) (t : Table) (n : ℤ)
        → HasRoom (up.view s) room_id t n
        → HasRoom (up.view (named_server args user_id s)) room_id t n
    unfolding named_server
    named_server_keys args user_id s t n v =
        let k = get_user_key (itoa user_id) in
        let (au, ac, aq, ar) = keys_apart user_id room_id in
        let e = up.effects (set k args.server_id redis_base_valid_time) s in
        HasRoom-same (up.view s) (up.view (named_server args user_id s)) room_id t n
          (ap (λ db. db (users_of room_id)) e ∙ (rw (same_comm k (users_of room_id) au) refl))
          (ap (λ db. db (count_of room_id)) e ∙ (rw (same_comm k (count_of room_id) ac) refl)) v

    connect_user_enters :
        (args : ConnectRequest) (user_id : ℤ) (name : Bytes) (s : State)
        → args.room_id ≡ room_id
        → (user_id ==ℤ pos 0) ≡ false
        → (connect_user R codec user_id name args s).1
          ≡ enter_room R codec room_id (itoa user_id) name (named_server args user_id s)
    unfolding connect_user named_server
    connect_user_enters args user_id name s here real = rw (real, here) refl

  module _ (room_id : ℤ) (is_room : not_positive room_id ≡ false) where
    -- The calls for one room, for the users who are in it after them, the last who came first. A user comes
    -- with a name that is not empty, and may connect again; whoever leaves is in the room. Between them,
    -- calls that leave the two keys of the room alone.
    pub data Visits : List ℤ → State → Type 0 where
      opens : (s : State) → HasRoom (up.view s) room_id [] (pos 0) → Visits [] s
      comes :
          {ids : List ℤ} {s : State} (user_id : ℤ) (name : Bytes) (args : ConnectRequest)
          → args.room_id ≡ room_id
          → (user_id ==ℤ pos 0) ≡ false
          → same name [] ≡ false
          → listed user_id ids ≡ false
          → Visits ids s
          → Visits (user_id ∷ ids) (connect_user R codec user_id name args s).1
      comes_again :
          {ids : List ℤ} {s : State} (user_id : ℤ) (name : Bytes) (args : ConnectRequest)
          → args.room_id ≡ room_id
          → (user_id ==ℤ pos 0) ≡ false
          → listed user_id ids ≡ true
          → Visits ids s
          → Visits ids (connect_user R codec user_id name args s).1
      leaves :
          {ids : List ℤ} {s : State} (user_id : ℤ)
          → (user_id ==ℤ pos 0) ≡ false
          → listed user_id ids ≡ true
          → Visits ids s
          → Visits
              (without_user user_id ids)
              (disconnect R codec (record { room_id = room_id; user_id = user_id }) s).1
      others :
          {ids : List ℤ} {s : State} (s' : State)
          → up.view s' (users_of room_id) ≡ up.view s (users_of room_id)
          → up.view s' (count_of room_id) ≡ up.view s (count_of room_id)
          → Visits ids s
          → Visits ids s'

    Visits-Distinct : (ids : List ℤ) (s : State) → Visits ids s → Distinct ids
    Visits-Distinct ids s (opens s₀ v) = tt
    Visits-Distinct ids s (comes {ids = ids₀} {s = s₀} u name args here real given new t) =
        (new, Visits-Distinct ids₀ s₀ t)
    Visits-Distinct ids s (comes_again {s = s₀} u name args here real old t) =
        Visits-Distinct ids s₀ t
    Visits-Distinct ids s (leaves {ids = ids₀} {s = s₀} u real old t) =
        Distinct-without_user u ids₀ (Visits-Distinct ids₀ s₀ t)
    Visits-Distinct ids s (others {s = s₀} s' eu ec t) = Visits-Distinct ids s₀ t

    comes-Counted :
        (ids : List ℤ) (s : State) (user_id : ℤ) (name : Bytes)
        → same name [] ≡ false
        → listed user_id ids ≡ false
        → Counted (up.view s) room_id ids
        → Counted
            (up.view (enter_room R codec room_id (itoa user_id) name s))
            room_id
            (user_id ∷ ids)
    comes-Counted ids s user_id name given new v =
        let fresh : same (field (itoa user_id) v.table) [] ≡ true =
          ground (arith, v.names user_id, new) in
        record {
          table = Assoc.insert (itoa user_id) name v.table;
          holds =
              enter_room-counted R up codec room_id (itoa user_id) name s v.table (pos (length ids))
                v.holds fresh;
          names = λ u. rw (named-insert user_id u name v.table given, v.names u) refl;
        }

    leaves-Counted :
        (ids : List ℤ) (s : State) (user_id : ℤ)
        → (user_id ==ℤ pos 0) ≡ false
        → listed user_id ids ≡ true
        → Distinct ids
        → Counted (up.view s) room_id ids
        → Counted
            (up.view (remove_user R codec room_id user_id (decrease_count R codec room_id s)))
            room_id
            (without_user user_id ids)
    leaves-Counted ids s user_id real old distinct v =
        let m = length (without_user user_id ids) in
        let e : length ids ≡ suc m = length-without_user user_id ids old in
        let there =
          table_there (up.view s (users_of room_id)) v.table user_id v.holds.0
            (v.names user_id ∙ old) in
        record {
          table = Assoc.delete (itoa user_id) v.table;
          holds =
              remove_user-counted R up codec room_id (itoa user_id) user_id s v.table (pos (suc m))
                is_room real there (v.holds.1 ∙ (rw (e) refl)) (ground arith);
          names = λ u.
              rw
                (
                  named-delete user_id u v.table,
                  v.names u,
                  listed-without_user u user_id ids distinct,
                )
                refl;
        }

    again-Counted :
        (ids : List ℤ) (s : State) (user_id : ℤ) (name : Bytes)
        → listed user_id ids ≡ true
        → Counted (up.view s) room_id ids
        → Counted (up.view (enter_room R codec room_id (itoa user_id) name s)) room_id ids
    again-Counted ids s user_id name old v =
        let known : same (field (itoa user_id) v.table) [] ≡ false =
          ground (arith, v.names user_id, old) in
        let same_view =
          enter_room-again R up codec room_id (itoa user_id) name s v.table v.holds.0 known in
        rw (same_view) v

    Counted-keys :
        (ids : List ℤ) (db db' : Db)
        → ((t : Table) (n : ℤ) → HasRoom db room_id t n → HasRoom db' room_id t n)
        → Counted db room_id ids
        → Counted db' room_id ids
    Counted-keys ids db db' keep v = record {
      table = v.table;
      holds = keep v.table (pos (length ids)) v.holds;
      names = v.names;
    }

    -- After any such sequence of calls for a room, the count that Redis holds is the number of the users
    -- who are in the room, and its table names those users and no others.
    pub Visits-Counted : (ids : List ℤ) (s : State) → Visits ids s → Counted (up.view s) room_id ids
    unfolding field lookup same
    Visits-Counted ids s (opens s₀ v) = record { table = []; holds = v; names = λ u. refl }
    Visits-Counted ids s (comes {ids = ids₀} {s = s₀} u name args here real given new t) =
        let v =
          Counted-keys ids₀ (up.view s₀) (up.view (named_server room_id args u s₀))
            (named_server_keys room_id args u s₀) (Visits-Counted ids₀ s₀ t) in
        rw (connect_user_enters room_id args u name s₀ here real)
          (comes-Counted ids₀ (named_server room_id args u s₀) u name given new v)
    Visits-Counted ids s (comes_again {s = s₀} u name args here real old t) =
        let v =
          Counted-keys ids (up.view s₀) (up.view (named_server room_id args u s₀))
            (named_server_keys room_id args u s₀) (Visits-Counted ids s₀ t) in
        rw (connect_user_enters room_id args u name s₀ here real)
          (again-Counted ids (named_server room_id args u s₀) u name old v)
    Visits-Counted ids s (leaves {ids = ids₀} {s = s₀} u real old t) =
        Counted-keys ids _ (up.view s) (disconnect_keys room_id u s₀)
          (leaves-Counted ids₀ s₀ u real old (Visits-Distinct ids₀ s₀ t) (Visits-Counted ids₀ s₀ t))
    Visits-Counted ids s (others {s = s₀} s' eu ec t) =
        Counted-keys ids (up.view s₀) (up.view s)
          (λ table n. HasRoom-same (up.view s₀) (up.view s) room_id table n eu ec)
          (Visits-Counted ids s₀ t)
