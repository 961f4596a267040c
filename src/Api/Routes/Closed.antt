-- ===== src/Api/Routes/Closed.antt =====
-- What a request without a session gets.
use yoyichat.Base.{◌≡◌, true, Option, none, some, [], ◌⊎◌}
use yoyichat.Base.Bytes.{Bytes}
use yoyichat.Base.Int.{not_positive, ◌==ℤ◌}
use yoyichat.Tools.{code_fail}
use yoyichat.Api.{LogicClient, check_auth}

module _ (L : LogicClient) where
  -- the token, if there is one, has no live session with an id and a name
  abbrev pub NoSession : Option Bytes → L.State → Type 0
  NoSession none s = Unit
  NoSession (some token) s =
      (((check_auth L token s).0.code ==ℤ code_fail) ≡ true)
      ⊎ ((not_positive (check_auth L token s).0.user_id ≡ true)
          ⊎ ((check_auth L token s).0.user_name ≡ []))

  -- the state after the check
  abbrev pub after_check : Option Bytes → L.State → L.State
  after_check none s = s
  after_check (some token) s = (check_auth L token s).1
