-- ===== src/Api/Guard.antt =====
-- What the session check lets through.
use yoyichat.Base.{arith, ◌≡◌, refl, true, false, none, some, [], ◌⊎◌, ◌≢◌}
use yoyichat.Base.Bytes.{Bytes}
use yoyichat.Base.Int.{not_positive, ◌==ℤ◌}
use yoyichat.Tools.{Response, no_data, response_with_code, code_fail, code_session_error}
use yoyichat.Api.{UserReply, LogicClient, check_auth, is_rejected, check_session_id}

module _ (L : LogicClient) where
  abbrev pub session_error : Response
  session_error = response_with_code code_session_error none no_data

  is_rejected-true :
      (r : UserReply)
      → ((r.code ==ℤ code_fail) ≡ true) ⊎ ((not_positive r.user_id ≡ true) ⊎ (r.user_name ≡ []))
      → is_rejected r ≡ true
  unfolding is_rejected
  is_rejected-true r h = ground arith

  is_rejected-false :
      (r : UserReply)
      → (r.code ==ℤ code_fail) ≡ false
      → not_positive r.user_id ≡ false
      → r.user_name ≢ []
      → is_rejected r ≡ false
  unfolding is_rejected
  is_rejected-false r h₁ h₂ h₃ = ground arith

  -- A failed check, a user id that is not positive or an empty user name gets the session error, and
  -- the handler behind the middleware does not run: the check is the only call that was made.
  pub check_session_id-rejected :
      (token : Bytes) (next : L.State → Response × L.State) (s : L.State)
      → (((check_auth L token s).0.code ==ℤ code_fail) ≡ true)
        ⊎ ((not_positive (check_auth L token s).0.user_id ≡ true)
            ⊎ ((check_auth L token s).0.user_name ≡ []))
      → check_session_id L (some token) next s ≡ (session_error, (check_auth L token s).1)
  unfolding check_session_id
  check_session_id-rejected token next s h = rw (is_rejected-true (check_auth L token s).0 h) refl

  -- A check that has not failed and gives a positive user id with a name that is not empty lets the
  -- handler run, on the state that the check left.
  pub check_session_id-passed :
      (token : Bytes) (next : L.State → Response × L.State) (s : L.State)
      → ((check_auth L token s).0.code ==ℤ code_fail) ≡ false
      → not_positive (check_auth L token s).0.user_id ≡ false
      → (check_auth L token s).0.user_name ≢ []
      → check_session_id L (some token) next s ≡ next (check_auth L token s).1
  unfolding check_session_id
  check_session_id-passed token next s h₁ h₂ h₃ =
      rw (is_rejected-false (check_auth L token s).0 h₁ h₂ h₃) refl
