-- ===== src/Logic/Session.antt =====
-- The account and session calls of logic/rpc.go. A call returns its reply and its error, and the
-- server's state; a random token, 32 bytes in base64, is an argument.
pub mod Laws
pub mod Again
use yoyichat.Base.{
  ℕ, ◌≡◌, Bool, true, false, not, ◌||◌, Option, none, some, List, [], ◌∷◌, ◌++◌, if◌then◌else◌,
  Result, ok, err, is_empty,
}
use yoyichat.Base.Bytes.{Bytes, codes, same}
use yoyichat.Base.Bytes.Decimal.{itoa, atoi}
use yoyichat.Base.Int.{ℤ, pos, int32, not_positive, ◌==ℤ◌}
use yoyichat.Base.Assoc.{lookup, bytes_key}
use yoyichat.Messages.{Table, success_reply_code, fail_reply_code, redis_base_valid_time}
use yoyichat.Logic.Redis.{
  Redis, Command, Answer, get, del, hgetall, set, hmset, expire, multi, exec, err_of, text_of,
  table, items, text, nothing,
}
use yoyichat.Logic.Keys.{
  create_session_id, get_session_name, get_session_id_by_user_id, get_user_key,
}
use yoyichat.Logic.Users.{User, UserDb, check_have_user_name, get_user_name_by_user_id, add}

pub record AuthReply : Type 0 where
  pub code : ℤ
  pub auth_token : Bytes

pub record CheckAuthReply : Type 0 where
  pub code : ℤ
  pub user_id : ℤ
  pub user_name : Bytes

abbrev pub auth_failed : AuthReply
auth_failed = record { code = fail_reply_code; auth_token = [] }

abbrev pub check_failed : CheckAuthReply
check_failed = record { code = fail_reply_code; user_id = pos 0; user_name = [] }

-- a field of a `map[string]string`, the empty text where it is missing
unfoldable pub field : Bytes → Table → Bytes
field f t = elim (lookup f t) [ none ↦ [] | some v ↦ v ]

-- `strconv.Atoi` with its error dropped
abbrev pub int_or_zero : Option ℤ → ℤ
int_or_zero none = pos 0
int_or_zero (some n) = n

unfoldable pub user_data : ℤ → Bytes → Table
user_data user_id user_name = (codes "userId", itoa user_id) ∷ (codes "userName", user_name) ∷ []

module _ (R : Redis) where
  open R use {State, run}

  -- A step that runs a command and reads its answer.
  abbrev pub call {ℓ} : {A : Type ℓ} → Command → (Result Answer → State → A) → State → A
  call c k s = let (a, s') = run c s in k a s'

  -- `EXEC` ends the block: its error fails the call
  unfoldable pub finish : Bytes → Result Answer → State → (AuthReply × Option Bytes) × State
  finish token (err e) s = ((auth_failed, some e), s)
  finish token (ok a) s = ((record { code = success_reply_code; auth_token = token }, none), s)

  -- the block of `Login`: the session, and the token under the user's key
  unfoldable pub store_login : User → Bytes → State → (AuthReply × Option Bytes) × State
  store_login user token = call multi λ _.
      call (hmset (create_session_id token) (user_data user.id user.user_name)) λ _.
        call (expire (create_session_id token) redis_base_valid_time) λ _.
          call (set (get_session_id_by_user_id user.id) token redis_base_valid_time)
            λ _. call exec λ a. finish token a

  unfoldable pub after_logout_old :
      User → Bytes → Bytes → Result Answer → State → (AuthReply × Option Bytes) × State
  after_logout_old user token old (err e) s =
      ((auth_failed, some (codes "logout user fail token is:" ++ old)), s)
  after_logout_old user token old (ok a) s = store_login user token s

  unfoldable pub replace_session : User → Bytes → Bytes → State → (AuthReply × Option Bytes) × State
  replace_session user token old =
      if same old []
      then store_login user token
      else call (del (create_session_id old)) (after_logout_old user token old)

  -- `CheckAuth`: the fields of the session
  unfoldable pub check_auth_data : Result Answer → State → (CheckAuthReply × Option Bytes) × State
  check_auth_data (err e) s = ((check_failed, some e), s)
  check_auth_data (ok (table [])) s = ((check_failed, none), s)
  check_auth_data (ok (table (fv ∷ rest))) s = (
    (
      record {
        code = success_reply_code;
        user_id = int32 (int_or_zero (atoi (field (codes "userId") (fv ∷ rest))));
        user_name = field (codes "userName") (fv ∷ rest);
      },
      none,
    ),
    s,
  )
  check_auth_data (ok nothing) s = ((check_failed, none), s)
  check_auth_data (ok (text t)) s = ((check_failed, none), s)
  check_auth_data (ok (items l)) s = ((check_failed, none), s)

  unfoldable pub check_auth : Bytes → State → (CheckAuthReply × Option Bytes) × State
  check_auth auth_token = call (hgetall (get_session_name auth_token)) check_auth_data

  -- `Logout`: three deletions, each of which may fail
  unfoldable pub if_done :
      Result Answer → (State → (ℤ × Option Bytes) × State) → State → (ℤ × Option Bytes) × State
  if_done (err e) next s = ((fail_reply_code, some e), s)
  if_done (ok a) next s = next s

  unfoldable pub delete_session : Bytes → State → (ℤ × Option Bytes) × State
  delete_session session_name =
      call (del session_name) λ a. if_done a λ s. ((success_reply_code, none), s)

  unfoldable pub delete_server : ℤ → Bytes → State → (ℤ × Option Bytes) × State
  delete_server user_id session_name =
      call (del (get_user_key (itoa user_id))) λ a. if_done a (delete_session session_name)

  unfoldable pub delete_map : ℤ → Bytes → State → (ℤ × Option Bytes) × State
  delete_map user_id session_name =
      call (del (get_session_id_by_user_id user_id))
        λ a. if_done a (delete_server user_id session_name)

  unfoldable pub logout_data : Bytes → Result Answer → State → (ℤ × Option Bytes) × State
  logout_data session_name (err e) s = ((fail_reply_code, some e), s)
  logout_data session_name (ok (table [])) s = ((fail_reply_code, none), s)
  logout_data session_name (ok (table (fv ∷ rest))) s =
      delete_map (int_or_zero (atoi (field (codes "userId") (fv ∷ rest)))) session_name s
  logout_data session_name (ok nothing) s = ((fail_reply_code, none), s)
  logout_data session_name (ok (text t)) s = ((fail_reply_code, none), s)
  logout_data session_name (ok (items l)) s = ((fail_reply_code, none), s)

  unfoldable pub logout : Bytes → State → (ℤ × Option Bytes) × State
  logout auth_token =
      call (hgetall (get_session_name auth_token)) (logout_data (get_session_name auth_token))

  -- The block of `Register` stores the session alone, with the name of the user that was looked for
  -- before the account was made.
  unfoldable pub store_register : ℤ → Bytes → Bytes → State → (AuthReply × Option Bytes) × State
  store_register user_id user_name token = call multi λ _.
      call (hmset (create_session_id token) (user_data user_id user_name)) λ _.
        call (expire (create_session_id token) redis_base_valid_time)
          λ _. call exec λ a. finish token a

  module _ (D : UserDb) where
    unfoldable pub login :
        Bytes → Bytes → Bytes → D.State → State → (AuthReply × Option Bytes) × State
    login name password token users s =
        let user = check_have_user_name D name users in
        if user.id ==ℤ pos 0 || not (same password user.password)
        then ((auth_failed, some (codes "username or password error")), s)
        else call (get (get_session_id_by_user_id user.id))
            (λ a. replace_session user token (text_of a)) s

    unfoldable pub register_added :
        Bytes → Bytes → Result ℤ × D.State → State → (AuthReply × Option Bytes) × D.State × State
    register_added user_name token (err e, users) s = ((auth_failed, some e), users, s)
    register_added user_name token (ok user_id, users) s =
        if user_id ==ℤ pos 0
        then ((auth_failed, some (codes "register userId empty!")), users, s)
        else (let (reply, s') = store_register user_id user_name token s in (reply, users, s'))

    unfoldable pub register :
        Bytes → Bytes → Bytes → D.State → State → (AuthReply × Option Bytes) × D.State × State
    register name password token users s =
        let user = check_have_user_name D name users in
        if not (not_positive user.id)
        then (
          (auth_failed, some (codes "this user name already have , please login !!!")),
          users,
          s,
        )
        else register_added user.user_name token (add D name password users) s

    -- the name of the user, empty for an unknown id
    unfoldable pub get_user_info_by_user_id : ℤ → D.State → CheckAuthReply
    get_user_info_by_user_id user_id users = record {
      code = success_reply_code;
      user_id = user_id;
      user_name = get_user_name_by_user_id D user_id users;
    }
