-- ===== src/Logic/Session/Again.antt =====
-- A second login (Login of logic/rpc.go) and the session of the first.
use yoyichat.Base.{[], ◌≡◌, refl, false, true, none, ap, ◌∙◌}
use yoyichat.Base.Bytes.{Bytes, same}
use yoyichat.Base.Int.{pos, ◌==ℤ◌}
use yoyichat.Logic.Redis.{Redis, IsUp, absent, text_value, get, del, insert_all}
use yoyichat.Logic.Keys.{create_session_id, get_session_name, get_session_id_by_user_id}
use yoyichat.Logic.Rooms.Servers.{hash_effect_other}
use yoyichat.Logic.Users.{User, UserDb, check_have_user_name}
use yoyichat.Logic.Session.{
  check_auth, check_failed, login, replace_session, after_logout_old, store_login, user_data,
}
use yoyichat.Logic.Session.Laws.{store_login-view, check_auth-absent, absent_self}

module _ (R : Redis) (up : IsUp R) where
  open R use {State, run}

  store_login_other :
      (user : User) (token j : Bytes) (s : State)
      → same j (create_session_id token) ≡ false
      → same j (get_session_id_by_user_id user.id) ≡ false
      → up.view (store_login R user token s).1 j ≡ up.view s j
  store_login_other user token j s other apart =
      ap (λ db. db j) (store_login-view R up user token s).1
      ∙ (rw (apart) (
          hash_effect_other (up.view s) (create_session_id token) j
            (insert_all (user_data user.id user.user_name)) (up.view s (create_session_id token))
            other))

  module _ (user : User) (token old : Bytes) (s : State) where
    -- the state behind the read of the user's key and the deletion of the session that it names
    ended : State
    ended =
        (run (del (create_session_id old)) (run (get (get_session_id_by_user_id user.id)) s).1).1

    ended_session : up.view ended (create_session_id old) ≡ absent
    unfolding ended
    ended_session =
        ap (λ db. db (create_session_id old)) (up.effects (del (create_session_id old)) _)
        ∙ absent_self R up (create_session_id old)
            (up.view (run (get (get_session_id_by_user_id user.id)) s).1)

  login_stores :
      (D : UserDb) (name password token old : Bytes) (users : D.State) (s : State)
      → ((check_have_user_name D name users).id ==ℤ pos 0) ≡ false
      → same password (check_have_user_name D name users).password ≡ true
      → up.view s (get_session_id_by_user_id (check_have_user_name D name users).id)
        ≡ text_value old
      → same old [] ≡ false
      → login R D name password token users s
        ≡ store_login R
            (check_have_user_name D name users)
            token
            (ended (check_have_user_name D name users) token old s)
  unfolding login replace_session after_logout_old ended
  login_stores D name password token old users s known right mapped given =
      rw
        (
          known,
          right,
          up.answers (get (get_session_id_by_user_id (check_have_user_name D name users).id)) s,
          mapped,
          given,
          up.answers (del (create_session_id old)) _,
        )
        refl

  -- A user who logs in again, with the right password, ends the session of the login before: the token
  -- that the user's key has, which is not empty, is no session afterwards. Its key is neither that of
  -- the new session nor that of the user's token.
  pub check_auth-login_again :
      (D : UserDb) (name password token old : Bytes) (users : D.State) (s : State)
      → ((check_have_user_name D name users).id ==ℤ pos 0) ≡ false
      → same password (check_have_user_name D name users).password ≡ true
      → up.view s (get_session_id_by_user_id (check_have_user_name D name users).id)
        ≡ text_value old
      → same old [] ≡ false
      → same (create_session_id old) (create_session_id token) ≡ false
      → same
          (create_session_id old)
          (get_session_id_by_user_id (check_have_user_name D name users).id)
        ≡ false
      → (check_auth R old (login R D name password token users s).1).0 ≡ (check_failed, none)
  unfolding create_session_id get_session_name
  check_auth-login_again D name password token old users s known right mapped given other apart =
      let user = check_have_user_name D name users in
      let e = login_stores D name password token old users s known right mapped given in
      rw (e) (
        check_auth-absent R up old (store_login R user token (ended user token old s)).1 (
          store_login_other user token (create_session_id old) (ended user token old s) other apart
          ∙ ended_session user token old s))
