-- ===== src/Journey/Post.antt =====
-- A message for one user, from the HTTP request to the queue.
use yoyichat.Base.{◌≡◌, refl, false, none, some, List, [], ◌∷◌, ◌++◌, ok, ◌≢◌, ◌∙◌}
use yoyichat.Base.Bytes.{Bytes, codes, same}
use yoyichat.Base.Bytes.Decimal.{itoa, atoi-itoa}
use yoyichat.Base.Int.{ℤ, int32, not_positive}
use yoyichat.Messages.{SendMsg, queue_name, success_reply_code}
use yoyichat.Base.Assoc
use yoyichat.Tools.{no_data, success_with_msg}
use yoyichat.Logic.Redis.{Redis, IsUp, text_value, table_value, hgetall}
use yoyichat.Logic.Users.{UserDb}
use yoyichat.Logic.Keys.{get_user_key, get_session_name}
use yoyichat.Logic.Publish.{Codec, single_send}
use yoyichat.Logic.Session
use yoyichat.Logic.Session.{user_data, check_auth_data, field}
use yoyichat.Task.Queue.Order.{Queue}
use yoyichat.Api
use yoyichat.Api.{UserReply, LogicClient, check_session_id}
use yoyichat.Api.Handler
use yoyichat.Api.Handler.{FormPush, single_req, push_from, push_to}
use yoyichat.Api.Routes.{
  Route, Binder, Request, answer, serve, find_route, find_in, has_check, handle, handle_checked,
  handle_found,
}
use yoyichat.Api.Guard.{check_session_id-passed}
use yoyichat.Journey.Calls.{Behind, logic_client, user_reply}
use yoyichat.Journey.Single.{published, push-publish, sent_by}

module _ (R : Redis) (up : IsUp R) (token name : Bytes) (id : ℤ) (s : R.State)
    (live : up.view s (get_session_name token) ≡ table_value (user_data id name)) where
  -- the state after the session is read
  abbrev read : R.State
  read = (R.run (hgetall (get_session_name token)) s).1

  check_auth_live : Session.check_auth R token s ≡ (
    (record { code = success_reply_code; user_id = int32 id; user_name = name }, none),
    (R.run (hgetall (get_session_name token)) s).1,
  )
  unfolding Session.check_auth check_auth_data user_data field Assoc.lookup same
  check_auth_live = rw (up.answers (hgetall (get_session_name token)) s, live, atoi-itoa id) refl

  read-view : up.view read ≡ up.view s
  read-view = up.effects (hgetall (get_session_name token)) s

abbrev pub post_push : Bytes → Request
post_push body = record { method = codes "POST"; path = codes "/push/push"; body = body }

post_push_found :
    (body : Bytes) → find_route (post_push body).method (post_push body).path ≡ some Route.push
unfolding find_route find_in same
post_push_found body = refl

module _ (R : Redis) (up : IsUp R) (D : UserDb) (codec : Codec) (fresh now : Bytes) (f : FormPush)
    (name : Bytes) (id : ℤ) (users : D.State) where
  -- the sender, and the one to whom it goes
  abbrev pub sender : UserReply
  sender = record { code = success_reply_code; user_id = int32 id; user_name = name }

  abbrev pub receiver : UserReply
  receiver =
      user_reply R D (Session.get_user_info_by_user_id R D (int32 (Handler.to_user_id_int f)) users)

  abbrev pub message_of : SendMsg
  message_of = single_req f receiver sender

  abbrev L : LogicClient
  L = logic_client R D codec fresh now

  module _ (s : R.State)
      (live : up.view s (get_session_name f.auth_token) ≡ table_value (user_data id name))
      (server_id packed b : Bytes) (p : List Bytes)
      (named : up.view s (get_user_key (itoa message_of.to_user_id)) ≡ text_value server_id)
      (marshalled : codec.marshal_send_msg message_of ≡ ok packed)
      (queued : codec.marshal_redis_msg (single_send server_id message_of.to_user_id packed) ≡ ok b)
      (waiting : Queue (up.view s queue_name) p) where
    abbrev s₁ : R.State
    s₁ = (R.run (hgetall (get_session_name f.auth_token)) s).1

    handler_push : Handler.push L (ok f) (record { users = users; redis = s }) ≡ (
      success_with_msg (codes "ok") no_data,
      record { users = users; redis = sent_by R codec message_of server_id packed s₁ },
    )
    unfolding Handler.push push_to push_from Api.push Api.check_auth Api.get_user_name_by_user_id
        Session.get_user_info_by_user_id
    handler_push =
        let same : up.view s₁ ≡ up.view s =
          up.effects (hgetall (get_session_name f.auth_token)) s in
        rw
          (
            check_auth_live R up f.auth_token name id s live,
            push-publish R up codec message_of server_id packed b s₁ (rw (same) named) marshalled
                queued p (rw (same) waiting),
          )
          refl

    checked :
        Api.check_auth L f.auth_token (record { users = users; redis = s })
        ≡ (sender, record { users = users; redis = s₁ })
    unfolding Api.check_auth
    checked = rw (check_auth_live R up f.auth_token name id s live) refl

  -- A POST to /push/push whose body gives the form of a push, and for the check its token, where the
  -- token has a session with a positive id and a name, and the receiver's key names a server: the answer
  -- is ok, and the message for the receiver on that server, which holds the marshalled request of the
  -- sender, stands in the queue behind those that wait. The codec has to give its results.
  pub serve-Queue :
      (B : Binder) (sha1 : Bytes → Bytes) (body : Bytes) (s : R.State) (server_id packed b : Bytes)
      (p : List Bytes)
      → B.session body ≡ some f.auth_token
      → B.push body ≡ ok f
      → up.view s (get_session_name f.auth_token) ≡ table_value (user_data id name)
      → not_positive (int32 id) ≡ false
      → name ≢ []
      → up.view s (get_user_key (itoa message_of.to_user_id)) ≡ text_value server_id
      → codec.marshal_send_msg message_of ≡ ok packed
      → codec.marshal_redis_msg (single_send server_id message_of.to_user_id packed) ≡ ok b
      → Queue (up.view s queue_name) p
      → let done = serve L B sha1 (post_push body) (record { users = users; redis = s }) in
        (done.0 ≡ answer (success_with_msg (codes "ok") no_data) ∷ [])
        × Queue (up.view done.1.redis queue_name) (p ++ b ∷ [])
  unfolding serve handle_found handle_checked handle has_check same
  serve-Queue B sha1 body s server_id packed b p has_token form live real named_user named packed_as
        queued waiting =
      let s₁ = (R.run (hgetall (get_session_name f.auth_token)) s).1 in
      let same₁ : up.view s₁ ≡ up.view s = read-view R up f.auth_token name id s live in
      let live₁ : up.view s₁ (get_session_name f.auth_token) ≡ table_value (user_data id name) =
        rw (same₁) live in
      let s₂ = (R.run (hgetall (get_session_name f.auth_token)) s₁).1 in
      let same₂ : up.view s₂ ≡ up.view s = read-view R up f.auth_token name id s₁ live₁ ∙ same₁ in
      let passes = checked s live server_id packed b p named packed_as queued waiting in
      let handled =
        handler_push s₁ live₁ server_id packed b p (rw (same₁) named) packed_as queued
          (rw (same₁) waiting) in
      let before : Behind R D = record { users = users; redis = s } in
      let next = handle L B sha1 Route.push body in
      let through : check_session_id L (some f.auth_token) next before
          ≡ next (Api.check_auth L f.auth_token before).1 =
        check_session_id-passed L f.auth_token next before (rw (passes) refl) (rw (passes) real)
          (rw (passes) named_user) in
      let answered : handle_found L B sha1 (some Route.push) body before ≡ (
        success_with_msg (codes "ok") no_data,
        record { users = users; redis = sent_by R codec message_of server_id packed s₂ },
      ) =
        rw (has_token, through, passes, form) handled in
      rw (post_push_found body, answered)
        (
          refl,
          (published R up codec message_of server_id packed b s₂ (rw (same₂) named) packed_as queued
              p (rw (same₂) waiting)).1,
        )
