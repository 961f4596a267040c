-- ===== src/Client/Login.antt =====
-- The login form of client/api_layer.go, its request, and UIRun of client/ui.go. bubbletea's text input,
-- the JSON coders and the HTTP client are arguments.
use yoyichat.Base.{
  ℕ, ◌≡◌, refl, Bool, false, ◌||◌, Option, none, some, List, [], ◌∷◌, if◌then◌else◌, is_empty,
  Result, ok, err, Bool-cases, inl, inr, ◌∙◌, sym,
}
use yoyichat.Base.Bytes.{Bytes, codes, same}
use yoyichat.Client.{TeaMsg, key, window_size, failure, other}

-- `textinput.Model` with its focus
pub record FormInput : Type 1 where
  pub State : Type 0
  pub new : State
  pub focus : State → State
  pub set_char_limit : ℕ → State → State
  pub value : State → Bytes
  pub update : TeaMsg → State → State

module _ (T : FormInput) where
  pub record LoginModel : Type 0 where
    pub username : T.State
    pub password : T.State

  -- the model that `handleLogin` makes; placeholders and the echo of the password are drawing
  unfoldable pub new_login_model : LoginModel
  new_login_model = record { username = T.set_char_limit 20 (T.focus T.new); password = T.new }

  -- `Update`: the program goes on or quits
  pub data LoginStep : Type 0 where
    goes : LoginModel → LoginStep
    quits : LoginModel → LoginStep

  unfoldable pub update_inputs : TeaMsg → LoginModel → LoginStep
  update_inputs msg m =
      goes (record { username = T.update msg m.username; password = T.update msg m.password })

  unfoldable pub login_update : TeaMsg → LoginModel → LoginStep
  login_update (key name) m =
      if same name (codes "enter")
      then quits m
      else if same name (codes "ctrl+c") || same name (codes "q")
      then quits m
      else update_inputs (key name) m
  login_update (window_size w h) m = update_inputs (window_size w h) m
  login_update (failure e) m = update_inputs (failure e) m
  login_update other m = update_inputs other m

  -- `p.Run()` on what the terminal sends: `none` is a program that still waits
  unfoldable pub run_form : List TeaMsg → LoginModel → Option LoginModel
  run_form [] m = none
  run_form (msg ∷ msgs) m = elim (login_update msg m) [
    | goes m' ↦ run_form msgs m'
    | quits m' ↦ some m'
  ]

  -- what `handleLogin` ends in: the token and the name, or `log.Fatal`
  pub data LoginEnd : Type 0 where
    logged_in : (token username : Bytes) → LoginEnd
    exits : LoginEnd

  -- the body of the request
  unfoldable pub login_data : (marshal : Bytes → Bytes → Bytes) → LoginModel → Bytes
  login_data marshal m = marshal (T.value m.username) (T.value m.password)

  module _ (marshal : (user_name pass_word : Bytes) → Bytes) (post : Bytes → Result Bytes)
      (decode : Bytes → Result Bytes) where
    unfoldable pub decoded : LoginModel → Result Bytes → LoginEnd
    decoded m (err e) = exits
    decoded m (ok token) = logged_in token (T.value m.username)

    unfoldable pub posted : LoginModel → Result Bytes → LoginEnd
    posted m (err e) = exits
    posted m (ok body) = decoded m (decode body)

    unfoldable pub handle_login : LoginModel → LoginEnd
    handle_login m = posted m (post (login_data marshal m))

    -- `UIRun`: the token and the name that the screen starts with, `none` where it does not start
    unfoldable pub ui_run_with : LoginEnd → Option (Bytes × Bytes)
    ui_run_with exits = none
    ui_run_with (logged_in token username) = if is_empty token then none else some (token, username)

    unfoldable pub ui_run : LoginModel → Option (Bytes × Bytes)
    ui_run m = ui_run_with (handle_login m)

-- What bubbletea documents: a new input is empty and not in focus, and an input that is not in focus
-- takes no keys.
pub record IsInput (T : FormInput) : Type 0 where
  pub in_focus : T.State → Bool
  pub empty : T.value T.new ≡ []
  pub blurred : in_focus T.new ≡ false
  pub deaf : (msg : TeaMsg) (s : T.State) → in_focus s ≡ false → T.update msg s ≡ s

module _ (T : FormInput) (is_input : IsInput T) where
  -- the password's input is as it was made
  abbrev Untouched : LoginStep T → Type 0
  Untouched (goes m) = m.password ≡ T.new
  Untouched (quits m) = m.password ≡ T.new

  update_inputs-Untouched :
      (msg : TeaMsg) (m : LoginModel T) → m.password ≡ T.new → Untouched (update_inputs T msg m)
  unfolding update_inputs
  update_inputs-Untouched msg m p =
      let same_input : T.update msg m.password ≡ m.password =
        is_input.deaf msg m.password (rw (p) is_input.blurred) in
      same_input ∙ p

  login_update-Untouched :
      (msg : TeaMsg) (m : LoginModel T) → m.password ≡ T.new → Untouched (login_update T msg m)
  unfolding login_update
  login_update-Untouched (key name) m p = elim (Bool-cases (same name (codes "enter"))) [
    | inl e ↦ rw (e) p
    | inr e ↦ elim (Bool-cases (same name (codes "ctrl+c") || same name (codes "q"))) [
      | inl f ↦ rw (e, f) p
      | inr f ↦ rw (e, f) (update_inputs-Untouched (key name) m p)
    ]
  ]
  login_update-Untouched (window_size w h) m p = update_inputs-Untouched (window_size w h) m p
  login_update-Untouched (failure t) m p = update_inputs-Untouched (failure t) m p
  login_update-Untouched other m p = update_inputs-Untouched other m p

  run_form_password :
      (msgs : List TeaMsg) (m m' : LoginModel T)
      → m.password ≡ T.new
      → run_form T msgs m ≡ some m'
      → m'.password ≡ T.new
  unfolding run_form
  run_form_password [] m m' p e = absurd (cc e)
  run_form_password (msg ∷ msgs) m m' p e =
      after (login_update T msg m) refl (login_update-Untouched msg m p)
        (λ m₁ q f. run_form_password msgs m₁ m' q f)
    where
      after :
          (s : LoginStep T)
          → login_update T msg m ≡ s
          → Untouched s
          → ((m₁ : LoginModel T)
              → m₁.password ≡ T.new
              → run_form T msgs m₁ ≡ some m'
              → m'.password ≡ T.new)
          → m'.password ≡ T.new
      after (goes m₁) f u rest = rest m₁ u (sym (rw (f, run_form) refl) ∙ e)
      after (quits m₁) f u rest =
          let e' : some m₁ ≡ some m' = sym (rw (f, run_form) refl) ∙ e in
          let same_model : m₁ ≡ m' = cc e' in rw (← same_model) u

  -- Whatever is typed into the login form, the request that it ends in has the empty password: the
  -- password's input is never in focus.
  pub login_data-run_form :
      (marshal : Bytes → Bytes → Bytes) (msgs : List TeaMsg) (m : LoginModel T)
      → run_form T msgs (new_login_model T) ≡ some m
      → login_data T marshal m ≡ marshal (T.value m.username) []
  unfolding login_data new_login_model
  login_data-run_form marshal msgs m e =
      rw (run_form_password msgs (new_login_model T) m refl e, is_input.empty) refl
