-- ===== src/Logic/Session/Laws.antt =====
-- What a session says after a login, a registration and a logout.
use yoyichat.Base.{arith, Bool-cases, inl, inr, ◌≡◌, refl, true, false, Option, none, [], ◌∷◌, ok}
use yoyichat.Base.Bytes.{Bytes, codes, same, same_refl}
use yoyichat.Base.Bytes.Decimal.{itoa, atoi, atoi-itoa}
use yoyichat.Base.Assoc
use yoyichat.Base.Int.{ℤ, pos, int32, ◌==ℤ◌}
use yoyichat.Messages.{Table, success_reply_code}
use yoyichat.Logic.Redis.{
  Redis, IsUp, absent, text_value, table_value, get, del, hmset, expire, set, multi, exec, hgetall,
  effect, put_value, Db,
}
use yoyichat.Logic.Keys.{
  create_session_id, get_user_key, get_session_name, get_session_id_by_user_id,
}
use yoyichat.Logic.Users.{User, UserDb, check_have_user_name, add}
use yoyichat.Logic.Session.{
  CheckAuthReply, check_auth, check_auth_data, check_failed, logout_data, delete_map, delete_server,
  delete_session, if_done, int_or_zero, store_login, user_data, logout, field, AuthReply, finish,
  replace_session, after_logout_old, login, register, register_added, store_register,
}

-- the answer of a call that is given the session's fields
abbrev pub session_of : ℤ → Bytes → CheckAuthReply × Option Bytes
session_of user_id user_name =
    (record { code = success_reply_code; user_id = int32 user_id; user_name = user_name }, none)

module _ (R : Redis) (up : IsUp R) where
  open R use {State, run}

  pub check_auth-absent :
      (token : Bytes) (s : State)
      → up.view s (get_session_name token) ≡ absent
      → (check_auth R token s).0 ≡ (check_failed, none)
  unfolding check_auth check_auth_data
  check_auth-absent token s e = rw (up.answers (hgetall (get_session_name token)) s, e) refl

  check_auth-user_data :
      (token name : Bytes) (id : ℤ) (s : State)
      → up.view s (get_session_name token) ≡ table_value (user_data id name)
      → (check_auth R token s).0 ≡ session_of id name
  unfolding check_auth check_auth_data user_data field Assoc.lookup same
  check_auth-user_data token name id s e =
      rw (up.answers (hgetall (get_session_name token)) s, e, atoi-itoa id) refl

  -- what a block of `MULTI` leaves under the keys
  pub store_login-view :
      (user : User) (token : Bytes) (s : State)
      → (store_login R user token s).0
          ≡ (record { code = success_reply_code; auth_token = token }, none)
        × up.view (store_login R user token s).1
          ≡ put_value
              (effect
                (hmset (create_session_id token) (user_data user.id user.user_name))
                (up.view s))
              (get_session_id_by_user_id user.id)
              (text_value token)
  unfolding store_login finish
  store_login-view user token s = (
    rw (up.answers exec _) refl,
    rw
        (
          up.answers exec _,
          up.effects exec _,
          up.effects (set _ _ _) _,
          up.effects (expire _ _) _,
          up.effects (hmset _ _) _,
          up.effects multi _,
        )
        refl,
  )

  put_absent : (k j : Bytes) (db : Db) → db j ≡ absent → put_value db k absent j ≡ absent
  put_absent k j db e = ground (arith, e)

  pub absent_self : (k : Bytes) (db : Db) → put_value db k absent k ≡ absent
  absent_self k db = rw (same_refl k) refl

  del-absent : (k j : Bytes) (db : Db) → db j ≡ absent → effect (del k) db j ≡ absent
  del-absent k j db e = ground (arith, e)

  -- the two results that a call which stored the session of a user gives and leaves
  abbrev pub Stored : User → Bytes → (AuthReply × Option Bytes) × State → Type 0
  Stored user token r =
      (r.0 ≡ (record { code = success_reply_code; auth_token = token }, none))
      × ((check_auth R token r.1).0 ≡ session_of user.id user.user_name)

  module _ (user : User) (token : Bytes)
      (e : same (create_session_id token) (get_session_id_by_user_id user.id) ≡ false) where
    store_login-Stored :
        (s : State)
        → up.view s (create_session_id token) ≡ absent
        → Stored user token (store_login R user token s)
    unfolding create_session_id get_session_name user_data Assoc.insert same
    store_login-Stored s h = (
      (store_login-view user token s).0,
      check_auth-user_data token user.user_name user.id _
          (rw ((store_login-view user token s).1, e, h, same_refl (create_session_id token)) refl),
    )

    replace_session-Stored :
        (old : Bytes) (s : State)
        → up.view s (create_session_id token) ≡ absent
        → Stored user token (replace_session R user token old s)
    unfolding replace_session after_logout_old
    replace_session-Stored old s h = elim (Bool-cases (same old [])) [
      | inl q ↦ rw (q) (store_login-Stored s h)
      | inr q ↦
          rw (q, up.answers (del (create_session_id old)) s)
            (store_login-Stored _ (
              rw (up.effects (del (create_session_id old)) s)
                (del-absent (create_session_id old) (create_session_id token) (up.view s) h)))
    ]

  module _ (D : UserDb) where
    -- After a login of a user with an id that is not 0, with the right password, the call has
    -- succeeded and the token checks as the user's id and name, whatever session the user had
    -- before. The token is fresh: no key has the name of its session, and the key of the user's
    -- token is another one.
    pub check_auth-login :
        (name password token : Bytes) (users : D.State) (s : State)
        → ((check_have_user_name D name users).id ==ℤ pos 0) ≡ false
        → same password (check_have_user_name D name users).password ≡ true
        → same
            (create_session_id token)
            (get_session_id_by_user_id (check_have_user_name D name users).id)
          ≡ false
        → up.view s (create_session_id token) ≡ absent
        → Stored (check_have_user_name D name users) token (login R D name password token users s)
    unfolding login
    check_auth-login name password token users s known right apart fresh =
        rw (known, right)
          (replace_session-Stored (check_have_user_name D name users) token apart _ _
            (rw (up.effects (get _) s) fresh))

    store_register-view :
        (user_id : ℤ) (user_name token : Bytes) (s : State)
        → (store_register R user_id user_name token s).0
            ≡ (record { code = success_reply_code; auth_token = token }, none)
          × up.view (store_register R user_id user_name token s).1
            ≡ effect (hmset (create_session_id token) (user_data user_id user_name)) (up.view s)
    unfolding store_register finish
    store_register-view user_id user_name token s = (
      rw (up.answers exec _) refl,
      rw
          (
            up.answers exec _,
            up.effects exec _,
            up.effects (expire _ _) _,
            up.effects (hmset _ _) _,
            up.effects multi _,
          )
          refl,
    )

    store_register-check_auth :
        (token : Bytes) (id : ℤ) (s : State)
        → up.view s (create_session_id token) ≡ absent
        → (check_auth R token (store_register R id [] token s).1).0 ≡ session_of id []
    unfolding create_session_id get_session_name user_data Assoc.insert same
    store_register-check_auth token id s fresh = check_auth-user_data token [] id _ (
        rw ((store_register-view id [] token s).1, fresh, same_refl (create_session_id token)) refl)

    -- The session of a registration has no user name: after a call that makes the account of a new
    -- name under an id that is not 0, the fresh token checks as that id with the empty name.
    pub check_auth-register :
        (name password token : Bytes) (users users' : D.State) (s : State) (id : ℤ)
        → (id ==ℤ pos 0) ≡ false
        → D.take_by_name name users ≡ none
        → add D name password users ≡ (ok id, users')
        → up.view s (create_session_id token) ≡ absent
        → (check_auth R token (register R D name password token users s).2).0 ≡ session_of id []
    unfolding register register_added check_have_user_name create_session_id get_session_name
        user_data Assoc.insert same
    check_auth-register name password token users users' s id nonzero new added fresh =
        rw (new, added, register_added, nonzero, new) (store_register-check_auth token id _ fresh)

  logout-steps :
      (id : ℤ) (session : Bytes) (s : State)
      → ((delete_map R id session s).0 ≡ (success_reply_code, none))
        × (up.view (delete_map R id session s).1
            ≡ put_value
                (put_value
                  (effect (del (get_session_id_by_user_id id)) (up.view s))
                  (get_user_key (itoa id))
                  absent)
                session
                absent)
  unfolding delete_map delete_server delete_session if_done
  logout-steps id session s = (
    rw (up.answers (del _) _, up.answers (del _) _, up.answers (del _) _) refl,
    rw
        (
          up.answers (del _) _,
          up.answers (del _) _,
          up.answers (del _) _,
          up.effects (del _) _,
          up.effects (del _) _,
          up.effects (del _) _,
        )
        refl,
  )

  logout-server :
      (id : ℤ) (session : Bytes) (s : State)
      → up.view (delete_map R id session s).1 (get_user_key (itoa id)) ≡ absent
  logout-server id session s =
      let db = effect (del (get_session_id_by_user_id id)) (up.view s) in
      rw ((logout-steps id session s).1) (
        put_absent session (get_user_key (itoa id)) (put_value db (get_user_key (itoa id)) absent)
          (absent_self (get_user_key (itoa id)) db))

  -- After a logout with the token of a session that has fields, the call has succeeded, the token
  -- is no session any more, and the key of the user's server is gone.
  pub check_auth-logout :
      (token : Bytes) (s : State) (fv : Bytes × Bytes) (fields : Table)
      → up.view s (get_session_name token) ≡ table_value (fv ∷ fields)
      → ((logout R token s).0 ≡ (success_reply_code, none))
        × ((check_auth R token (logout R token s).1).0 ≡ (check_failed, none))
        × (up.view
              (logout R token s).1
              (get_user_key (itoa (int_or_zero (atoi (field (codes "userId") (fv ∷ fields))))))
            ≡ absent)
  unfolding logout logout_data
  check_auth-logout token s fv fields e =
      rw (up.answers (hgetall _) s, e)
        (
          (logout-steps _ _ _).0,
          check_auth-absent token _ (rw ((logout-steps _ _ _).1, same_refl _) refl),
          logout-server (int_or_zero (atoi (field (codes "userId") (fv ∷ fields))))
              (get_session_name token) _,
        )
