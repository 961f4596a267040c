-- ===== src/Api/Routes.antt =====
-- The routes of api/router/router.go with the middlewares in front of them. The binders of gin, which take
-- a form out of the body of a request, are arguments; a path counts as it is written, and headers are left
-- out.
pub mod Closed
use yoyichat.Base.{Bool, true, false, Option, none, some, List, [], ◌∷◌, if◌then◌else◌, Result}
use yoyichat.Base.Bytes.{Bytes, codes, same}
use yoyichat.Base.Int.{ℤ}
use yoyichat.Tools.{Response, fail_with_msg}
use yoyichat.Api.{LogicClient, Credentials, check_session_id}
use yoyichat.Api.Handler
use yoyichat.Api.Handler.{FormPush, FormRoom}

pub data Route : Type 0 where
  login register check_auth logout push push_room count get_room_info : Route

-- `initUserRouter` and `initPushRouter`: the paths of the POST requests
abbrev pub routes : List (Bytes × Route)
routes =
    (codes "/user/login", login)
    ∷ (codes "/user/register", register)
    ∷ (codes "/user/checkAuth", check_auth)
    ∷ (codes "/user/logout", logout)
    ∷ (codes "/push/push", push)
    ∷ (codes "/push/pushRoom", push_room)
    ∷ (codes "/push/count", count)
    ∷ (codes "/push/getRoomInfo", get_room_info)
    ∷ []

unfoldable pub find_in : Bytes → List (Bytes × Route) → Option Route
find_in path [] = none
find_in path ((p, r) ∷ rs) = if same path p then some r else find_in path rs

unfoldable pub find_route : (method path : Bytes) → Option Route
find_route method path = if same method (codes "POST") then find_in path routes else none

-- whether CheckSessionId is in front of the handler
unfoldable pub has_check : Route → Bool
has_check login = false
has_check register = false
has_check _ = true

pub record Binder : Type 0 where
  pub session : Bytes → Option Bytes
  pub credentials : Bytes → Result Credentials
  pub token : Bytes → Result Bytes
  pub push : Bytes → Result FormPush
  pub room : Bytes → Result FormRoom
  pub room_id : Bytes → Result ℤ

pub record Request : Type 0 where
  pub method : Bytes
  pub path : Bytes
  pub body : Bytes

-- What is written as an answer: JSON's null, or an answer of tools/response.go.
pub data Written : Type 0 where
  null : Written
  answer : Response → Written

module _ (L : LogicClient) (B : Binder) (sha1 : Bytes → Bytes) where
  unfoldable pub handle : Route → Bytes → L.State → Response × L.State
  handle login body = Handler.login L sha1 (B.credentials body)
  handle register body = Handler.register L sha1 (B.credentials body)
  handle check_auth body = Handler.check_auth L (B.token body)
  handle logout body = Handler.logout L (B.token body)
  handle push body = Handler.push L (B.push body)
  handle push_room body = Handler.push_room L (B.room body)
  handle count body = Handler.count L (B.room_id body)
  handle get_room_info body = Handler.get_room_info L (B.room_id body)

  unfoldable pub handle_checked : Route → Bytes → L.State → Response × L.State
  handle_checked r body s =
      if has_check r then check_session_id L (B.session body) (handle r body) s else handle r body s

  unfoldable pub handle_found : Option Route → Bytes → L.State → Response × L.State
  handle_found none body s = (fail_with_msg (codes "please check request url !"), s)
  handle_found (some r) body s = handle_checked r body s

  -- The middleware CorsMiddleware answers OPTIONS and goes on all the same.
  unfoldable pub serve : Request → L.State → List Written × L.State
  serve req s =
      let (a, s') = handle_found (find_route req.method req.path) req.body s in
      if same req.method (codes "OPTIONS") then (null ∷ answer a ∷ [], s') else (answer a ∷ [], s')
