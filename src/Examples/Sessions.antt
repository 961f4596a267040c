-- ===== src/Examples/Sessions.antt =====
-- The logic layer on a Redis server that holds little, and a user table with one row.
use yoyichat.Base.{◌≡◌, refl, Bool, true, false, none, some, [], ◌∷◌, if◌then◌else◌, ok}
use yoyichat.Base.Bytes.{Bytes, codes, same, same_refl}
use yoyichat.Base.Bytes.Decimal.{itoa, atoi, atoi-itoa}
use yoyichat.Base.Int.{pos, incr, decr, ◌==ℤ◌}
use yoyichat.Base.Assoc.{lookup, insert, delete, bytes_key}
use yoyichat.Messages.{success_reply_code}
use yoyichat.Logic.Redis.{plain, plain-IsUp, Db, absent, text_value, table_value, number_in}
use yoyichat.Logic.Keys.{get_user_key, create_session_id, get_session_id_by_user_id}
use yoyichat.Logic.Keys.Apart.{keys_apart}
use yoyichat.Logic.Users.{User, UserDb, check_have_user_name, add}
use yoyichat.Logic.Session.{check_auth, check_failed, login, register, logout, field, int_or_zero}
use yoyichat.Logic.Session.Laws.{
  Stored, session_of, check_auth-login, check_auth-register, check_auth-logout,
}
use yoyichat.Logic.Publish.{Codec}
use yoyichat.Logic.Rooms.{users_of, count_of, enter_room, remove_user, decrease_count}
use yoyichat.Logic.Rooms.Counts.{HasRoom, enter_room-counted, remove_user-counted}

abbrev ann : User
ann = record { id = pos 3; user_name = codes "ann"; password = codes "x" }

-- every name but "ann" is free, and a new account gets the id 4
abbrev one_user : UserDb
one_user = record {
  State = Bool;
  take_by_name = λ name s. if same name (codes "ann") then some ann else none;
  take_by_id = λ id s. none;
  create = λ u s. (ok (pos 4), true);
}

abbrev token : Bytes
token = codes "t"

abbrev nothing_stored : Db
nothing_stored k = absent

ann_known : ((check_have_user_name one_user (codes "ann") true).id ==ℤ pos 0) ≡ false
unfolding check_have_user_name same
ann_known = refl

ann_password : same (codes "x") (check_have_user_name one_user (codes "ann") true).password ≡ true
unfolding check_have_user_name same
ann_password = refl

token_apart :
    same
      (create_session_id token)
      (get_session_id_by_user_id (check_have_user_name one_user (codes "ann") true).id)
    ≡ false
unfolding create_session_id get_session_id_by_user_id same
token_apart = refl

check_auth-login_example :
    Stored plain plain-IsUp
      (check_have_user_name one_user (codes "ann") true)
      token
      (login plain one_user (codes "ann") (codes "x") token true nothing_stored)
check_auth-login_example =
    check_auth-login plain plain-IsUp one_user (codes "ann") (codes "x") token true nothing_stored
      ann_known ann_password token_apart refl

bob_added : add one_user (codes "bob") (codes "y") true ≡ (ok (pos 4), true)
unfolding add check_have_user_name same
bob_added = refl

bob_new : one_user.take_by_name (codes "bob") true ≡ none
unfolding same
bob_new = refl

check_auth-register_example :
    (check_auth plain token
      (register plain one_user (codes "bob") (codes "y") token true nothing_stored).2).0
    ≡ session_of (pos 4) []
check_auth-register_example =
    check_auth-register plain plain-IsUp one_user (codes "bob") (codes "y") token true true
      nothing_stored (pos 4) refl bob_new bob_added refl

-- the session of the user 3 under every key
abbrev one_session : Db
one_session k = table_value ((codes "userId", codes "3") ∷ [])

check_auth-logout_example :
    ((logout plain token one_session).0 ≡ (success_reply_code, none))
    × ((check_auth plain token (logout plain token one_session).1).0 ≡ (check_failed, none))
    × ((logout plain token one_session).1 (
          get_user_key
            (itoa (int_or_zero (atoi (field (codes "userId") ((codes "userId", codes "3") ∷ []))))))
        ≡ absent)
check_auth-logout_example =
    check_auth-logout plain plain-IsUp token one_session (codes "userId", codes "3") [] refl

abbrev silent : Codec
silent = record { marshal_redis_msg = λ m. ok []; marshal_send_msg = λ m. ok [] }

nobody_inside : same (field (codes "3") []) [] ≡ true
unfolding same field lookup
nobody_inside = refl

enter_room-counted_example :
    HasRoom
      (enter_room plain silent (pos 7) (codes "3") (codes "ann") nothing_stored)
      (pos 7)
      (insert (codes "3") (codes "ann") [])
      (incr (pos 0))
enter_room-counted_example =
    enter_room-counted plain plain-IsUp silent (pos 7) (codes "3") (codes "ann") nothing_stored []
      (pos 0) (refl, refl) nobody_inside

-- room 7 with one user, whom it counts
abbrev ann_inside : Db
ann_inside k =
    if same k (count_of (pos 7))
    then text_value (itoa (pos 1))
    else table_value ((codes "3", codes "ann") ∷ [])

users_inside : ann_inside (users_of (pos 7)) ≡ table_value ((codes "3", codes "ann") ∷ [])
users_inside = rw ((keys_apart (pos 7) (pos 7)).3) refl

count_inside : number_in (ann_inside (count_of (pos 7))) ≡ some (pos 1)
count_inside = rw (same_refl (count_of (pos 7)), atoi-itoa (pos 1)) refl

remove_user-counted_example :
    HasRoom
      (remove_user plain silent (pos 7) (pos 3) (decrease_count plain silent (pos 7) ann_inside))
      (pos 7)
      (delete (itoa (pos 3)) ((codes "3", codes "ann") ∷ []))
      (decr (pos 1))
remove_user-counted_example =
    remove_user-counted plain plain-IsUp silent (pos 7) (codes "3") (pos 3) ann_inside
      ((codes "3", codes "ann") ∷ []) (pos 1) refl refl users_inside count_inside refl
