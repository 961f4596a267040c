-- ===== src/Logic/Rooms/Servers.antt =====
-- The key that says on which connect instance a user is: what Connect of logic/rpc.go writes, and what
-- it leaves alone.
use yoyichat.Base.{◌≡◌, refl, Bool, true, false, Option, none, some, ◌∙◌, [], ap}
use yoyichat.Base.Bytes.{Bytes, same, same_refl}
use yoyichat.Base.Bytes.Decimal.{itoa}
use yoyichat.Base.Int.{ℤ, pos, incr, ◌==ℤ◌}
use yoyichat.Base.Assoc
use yoyichat.Base.Assoc.{bytes_key}
use yoyichat.Messages.{Table, ConnectRequest, queue_name, redis_base_valid_time}
use yoyichat.Logic.Redis.{
  Redis, IsUp, Value, Db, absent, text_value, table_value, list_value, hash_effect, put_number,
  put_value, hget, hset, set, incr_key, text_of, number_in, map_number,
}
use yoyichat.Logic.Keys.{get_user_key, get_room_user_key, get_room_online_count_key}
use yoyichat.Logic.Keys.Apart.{keys_apart}
use yoyichat.Logic.Publish.{Codec}
use yoyichat.Logic.Rooms.{users_of, count_of, enter_room, enter_if_new, connect_user}
use yoyichat.Logic.Rooms.Counts.{same_comm}

pub hash_effect_other :
    (db : Db) (k j : Bytes) (f : Table → Table) (v : Value)
    → same j k ≡ false
    → hash_effect db k f v j ≡ db j
hash_effect_other db k j f absent e = rw (e) refl
hash_effect_other db k j f (table_value t) e = rw (e) refl
hash_effect_other db k j f (text_value t) e = refl
hash_effect_other db k j f (list_value l) e = refl

put_number_other :
    (db : Db) (k j : Bytes) (n : Option ℤ) → same j k ≡ false → put_number db k n j ≡ db j
put_number_other db k j none e = refl
put_number_other db k j (some n) e = rw (e) refl

module _ (R : Redis) (up : IsUp R) (codec : Codec) (room_id : ℤ) (j : Bytes)
    (eu : same j (users_of room_id) ≡ false) (ec : same j (count_of room_id) ≡ false) where
  open R use {State, run}

  enter_if_new_other :
      (new : Bool) (user name : Bytes) (s : State)
      → up.view (enter_if_new R codec new room_id user name s) j ≡ up.view s j
  unfolding enter_if_new
  enter_if_new_other true user name s =
      let s1 = (run (hset (users_of room_id) user name) s).1 in
      rw
        (
          up.effects (incr_key (count_of room_id)) s1,
          put_number_other (up.view s1) (count_of room_id) j
              (map_number incr (number_in (up.view s1 (count_of room_id)))) ec,
          up.effects (hset (users_of room_id) user name) s,
        )
        (hash_effect_other (up.view s) (users_of room_id) j (Assoc.insert user name)
          (up.view s (users_of room_id)) eu)
  enter_if_new_other false user name s = refl

  -- `Connect` in a room changes the keys of the room alone
  enter_room_other :
      (user name : Bytes) (s : State)
      → up.view (enter_room R codec room_id user name s) j ≡ up.view s j
  unfolding enter_room
  enter_room_other user name s =
      let got = run (hget (users_of room_id) user) s in
      enter_if_new_other (same (text_of got.0) []) user name got.1
      ∙ ap (λ db. db j) (up.effects (hget (users_of room_id) user) s)

pub queue_apart :
    (room_id : ℤ)
    → (same queue_name (users_of room_id) ≡ false) × (same queue_name (count_of room_id) ≡ false)
unfolding get_room_user_key get_room_online_count_key same
queue_apart room_id = (refl, refl)

module _ (R : Redis) (up : IsUp R) (codec : Codec) where
  open R use {State, run}

  connect_user_other :
      (user_id : ℤ) (name j : Bytes) (args : ConnectRequest) (s : State)
      → (user_id ==ℤ pos 0) ≡ false
      → same j (users_of args.room_id) ≡ false
      → same j (count_of args.room_id) ≡ false
      → up.view (connect_user R codec user_id name args s).1 j
        ≡ put_value (up.view s) (get_user_key (itoa user_id)) (text_value args.server_id) j
  unfolding connect_user
  connect_user_other user_id name j args s real eu ec =
      let named = run (set (get_user_key (itoa user_id)) args.server_id redis_base_valid_time) s in
      rw (real) (
        enter_room_other R up codec args.room_id j eu ec (itoa user_id) name named.1
        ∙ ap (λ db. db j)
            (up.effects (set (get_user_key (itoa user_id)) args.server_id redis_base_valid_time) s))

  -- After `Connect` the user's key names the connect instance of the request.
  pub connect_user-server :
      (user_id : ℤ) (name : Bytes) (args : ConnectRequest) (s : State)
      → (user_id ==ℤ pos 0) ≡ false
      → up.view (connect_user R codec user_id name args s).1 (get_user_key (itoa user_id))
        ≡ text_value args.server_id
  connect_user-server user_id name args s real =
      let apart = keys_apart user_id args.room_id in
      connect_user_other user_id name (get_user_key (itoa user_id)) args s real apart.0 apart.1
      ∙ (rw (same_refl (get_user_key (itoa user_id))) refl)

  -- `Connect` leaves the queue alone.
  pub connect_user-queue :
      (user_id : ℤ) (name : Bytes) (args : ConnectRequest) (s : State)
      → (user_id ==ℤ pos 0) ≡ false
      → up.view (connect_user R codec user_id name args s).1 queue_name ≡ up.view s queue_name
  connect_user-queue user_id name args s real =
      connect_user_other user_id name queue_name args s real (queue_apart args.room_id).0
        (queue_apart args.room_id).1
      ∙ (rw (same_comm (get_user_key (itoa user_id)) queue_name (keys_apart user_id (pos 0)).2)
          refl)
