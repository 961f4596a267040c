-- ===== src/Examples/Visitors.antt =====
-- Users who come to room 7 and leave it, and a user who logs in twice.
use yoyichat.Base.{◌≡◌, refl, Bool, true, false, none, some, [], ◌∷◌, ok}
use yoyichat.Base.Bytes.{codes, same}
use yoyichat.Base.Int.{pos, ◌==ℤ◌}
use yoyichat.Messages.{ConnectRequest}
use yoyichat.Logic.Redis.{plain, plain-IsUp, Db, absent, text_value}
use yoyichat.Logic.Keys.{create_session_id, get_session_id_by_user_id}
use yoyichat.Logic.Users.{User, UserDb, check_have_user_name}
use yoyichat.Logic.Session.{check_auth, check_failed, login}
use yoyichat.Logic.Session.Again.{check_auth-login_again}
use yoyichat.Logic.Publish.{Codec}
use yoyichat.Logic.Rooms.{connect_user, disconnect}
use yoyichat.Logic.Rooms.Guests.{Counted, Visits, opens, comes, comes_again, leaves, Visits-Counted}

abbrev silent : Codec
silent = record { marshal_redis_msg = λ m. ok []; marshal_send_msg = λ m. ok [] }

abbrev nothing_stored : Db
nothing_stored k = absent

abbrev to_room : ConnectRequest
to_room = record { auth_token = codes "t"; room_id = pos 7; server_id = codes "s1" }

abbrev ann_in : Db
ann_in = (connect_user plain silent (pos 3) (codes "ann") to_room nothing_stored).1

abbrev both_in : Db
both_in = (connect_user plain silent (pos 4) (codes "bob") to_room ann_in).1

abbrev ann_twice : Db
ann_twice = (connect_user plain silent (pos 3) (codes "ann") to_room both_in).1

abbrev bob_left : Db
bob_left = (disconnect plain silent (record { room_id = pos 7; user_id = pos 4 }) ann_twice).1

ann_is_a_name : same (codes "ann") [] ≡ false
unfolding same
ann_is_a_name = refl

bob_is_a_name : same (codes "bob") [] ≡ false
unfolding same
bob_is_a_name = refl

bob_left-Visits : Visits plain plain-IsUp silent (pos 7) refl (pos 3 ∷ []) bob_left
bob_left-Visits = leaves (pos 4) refl refl (
    comes_again (pos 3) (codes "ann") to_room refl refl refl (
      comes (pos 4) (codes "bob") to_room refl refl bob_is_a_name refl (
        comes (pos 3) (codes "ann") to_room refl refl ann_is_a_name refl
          (opens nothing_stored (refl, refl)))))

Visits-Counted_example : Counted bob_left (pos 7) (pos 3 ∷ [])
Visits-Counted_example =
    Visits-Counted plain plain-IsUp silent (pos 7) refl (pos 3 ∷ []) bob_left bob_left-Visits

abbrev ann : User
ann = record { id = pos 3; user_name = codes "ann"; password = codes "x" }

-- every name is ann's
abbrev only_ann : UserDb
only_ann = record {
  State = Bool;
  take_by_name = λ name s. some ann;
  take_by_id = λ id s. some ann;
  create = λ u s. (ok (pos 3), s);
}

-- the token "o" under every key
abbrev logged_in : Db
logged_in k = text_value (codes "o")

ann_known : ((check_have_user_name only_ann (codes "ann") true).id ==ℤ pos 0) ≡ false
unfolding check_have_user_name
ann_known = refl

ann_password : same (codes "x") (check_have_user_name only_ann (codes "ann") true).password ≡ true
unfolding check_have_user_name same
ann_password = refl

old_given : same (codes "o") [] ≡ false
unfolding same
old_given = refl

tokens_apart : same (create_session_id (codes "o")) (create_session_id (codes "n")) ≡ false
unfolding create_session_id same
tokens_apart = refl

session_apart :
    same
      (create_session_id (codes "o"))
      (get_session_id_by_user_id (check_have_user_name only_ann (codes "ann") true).id)
    ≡ false
unfolding create_session_id get_session_id_by_user_id same
session_apart = refl

check_auth-login_again_example :
    (check_auth plain
      (codes "o")
      (login plain only_ann (codes "ann") (codes "x") (codes "n") true logged_in).1).0
    ≡ (check_failed, none)
check_auth-login_again_example =
    check_auth-login_again plain plain-IsUp only_ann (codes "ann") (codes "x") (codes "n")
      (codes "o") true logged_in ann_known ann_password refl old_given tokens_apart session_apart
