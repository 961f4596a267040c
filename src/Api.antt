-- ===== src/Api.antt =====
-- The HTTP layer: api/rpc/rpc.go over the logic layer's rpc client, which is an interface here, and
-- the session check of api/router/router.go.
pub mod Handler
pub mod Guard
pub mod Routes
use yoyichat.Base.{
  ℕ, Bool, true, false, ◌||◌, Option, none, some, List, [], if◌then◌else◌, is_empty,
}
use yoyichat.Base.Bytes.{Bytes}
use yoyichat.Base.Int.{ℤ, pos, int32, not_positive, ◌==ℤ◌}
use yoyichat.Messages.{SendMsg, SuccessReply}
use yoyichat.Tools.{Response, no_data, response_with_code, code_fail, code_session_error, or_empty}

pub record AuthReply : Type 0 where
  pub code : ℤ
  pub auth_token : Bytes

pub record UserReply : Type 0 where
  pub code : ℤ
  pub user_id : ℤ
  pub user_name : Bytes

pub record Credentials : Type 0 where
  pub name : Bytes
  pub password : Bytes

-- `LogicRpcClient.Call` of each method: what is in the reply after it, and the error
pub record LogicClient : Type 1 where
  pub State : Type 0
  pub login : Credentials → State → (AuthReply × Option Bytes) × State
  pub register : Credentials → State → (AuthReply × Option Bytes) × State
  pub get_user_info_by_user_id : ℤ → State → (UserReply × Option Bytes) × State
  pub check_auth : Bytes → State → (UserReply × Option Bytes) × State
  pub logout : Bytes → State → (ℤ × Option Bytes) × State
  pub push : SendMsg → State → (SuccessReply × Option Bytes) × State
  pub push_room : SendMsg → State → (SuccessReply × Option Bytes) × State
  pub count : SendMsg → State → (SuccessReply × Option Bytes) × State
  pub get_room_info : SendMsg → State → (SuccessReply × Option Bytes) × State

-- Only these two calls report the error, as a message.
abbrev pub auth_result {ℓ} : {S : Type ℓ} → (AuthReply × Option Bytes) × S → (AuthReply × Bytes) × S
auth_result ((reply, e), s) = ((reply, or_empty e), s)

abbrev pub without_error {ℓ} : {A : Type 0} {S : Type ℓ} → (A × Option Bytes) × S → A × S
without_error ((reply, e), s) = (reply, s)

-- the middleware's test of the reply
unfoldable pub is_rejected : UserReply → Bool
is_rejected r = r.code ==ℤ code_fail || not_positive r.user_id || is_empty r.user_name

module _ (L : LogicClient) where
  unfoldable pub login : Credentials → L.State → (AuthReply × Bytes) × L.State
  login req s = auth_result (L.login req s)

  unfoldable pub register : Credentials → L.State → (AuthReply × Bytes) × L.State
  register req s = auth_result (L.register req s)

  unfoldable pub get_user_name_by_user_id : ℤ → L.State → UserReply × L.State
  get_user_name_by_user_id user_id s = without_error (L.get_user_info_by_user_id user_id s)

  unfoldable pub check_auth : Bytes → L.State → UserReply × L.State
  check_auth token s = without_error (L.check_auth token s)

  unfoldable pub logout : Bytes → L.State → ℤ × L.State
  logout token s = without_error (L.logout token s)

  unfoldable pub push : SendMsg → L.State → SuccessReply × L.State
  push req s = without_error (L.push req s)

  unfoldable pub push_room : SendMsg → L.State → SuccessReply × L.State
  push_room req s = without_error (L.push_room req s)

  unfoldable pub count : SendMsg → L.State → SuccessReply × L.State
  count req s = without_error (L.count req s)

  unfoldable pub get_room_info : SendMsg → L.State → SuccessReply × L.State
  get_room_info req s = without_error (L.get_room_info req s)

  -- the middleware: the handlers behind it run only after its test
  unfoldable pub check_session_id :
      Option Bytes → (L.State → Response × L.State) → L.State → Response × L.State
  check_session_id none next s = (response_with_code code_session_error none no_data, s)
  check_session_id (some token) next s =
      let (r, s') = check_auth token s in
      if is_rejected r then (response_with_code code_session_error none no_data, s') else next s'
