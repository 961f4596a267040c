-- ===== src/Examples/Screens.antt =====
-- A client that is given the key "enter", and a login form into which "x" is typed.
use yoyichat.Base.{◌≡◌, refl, Bool, true, false, none, some, [], ◌∷◌, ◌++◌}
use yoyichat.Base.Bytes.{Bytes, codes, same}
use yoyichat.Base.{err}
use yoyichat.Logic.Users.{UserDb}
use yoyichat.Client.{TeaMsg, TextInput, key, window_size, failure, other, new_im_client}
use yoyichat.Client.Login.{
  FormInput, IsInput, LoginModel, new_login_model, login_update, update_inputs, run_form,
  login_data, login_data-run_form,
}
use yoyichat.Client.Loading.{requests, requests-new_im_client}

-- an input that holds its text and takes no keys
abbrev fixed_input : TextInput
fixed_input = record { State = Bytes; value = λ s. s; set_value = λ t s. t; update = λ msg s. s }

abbrev nobody : UserDb
nobody = record {
  State = Unit;
  take_by_name = λ name s. none;
  take_by_id = λ id s. none;
  create = λ u s. (err (codes "closed"), s);
}

requests-new_im_client_example :
    requests fixed_input nobody
      (λ s. s)
      tt
      ((codes "10:00", key (codes "enter")) ∷ [])
      (new_im_client fixed_input (codes "t") (codes "ann") (codes "connecting") (codes "hello"))
    ≡ []
requests-new_im_client_example =
    requests-new_im_client fixed_input nobody (λ s. s) tt (codes "t") (codes "ann")
      (codes "connecting") (codes "hello") ((codes "10:00", key (codes "enter")) ∷ [])

-- an input with its focus and its text, to which each key in focus is added
abbrev typed : TeaMsg → Bool × Bytes → Bool × Bytes
typed msg (false, text) = (false, text)
typed (key name) (true, text) = (true, text ++ name)
typed (window_size w h) (true, text) = (true, text)
typed (failure e) (true, text) = (true, text)
typed other (true, text) = (true, text)

abbrev typing_input : FormInput
typing_input = record {
  State = Bool × Bytes;
  new = (false, []);
  focus = λ s. (true, s.1);
  set_char_limit = λ n s. s;
  value = λ s. s.1;
  update = typed;
}

typed_unfocused : (msg : TeaMsg) (s : Bool × Bytes) → s.0 ≡ false → typed msg s ≡ s
typed_unfocused msg (false, text) e = refl
typed_unfocused msg (true, text) e = absurd (cc e)

typing_input-IsInput : IsInput typing_input
typing_input-IsInput = record {
  in_focus = λ s. s.0;
  empty = refl;
  blurred = refl;
  deaf = typed_unfocused;
}

abbrev typed_name : LoginModel typing_input
typed_name = record { username = (true, codes "x"); password = (false, []) }

form_ends :
    run_form typing_input
      (key (codes "x") ∷ key (codes "enter") ∷ [])
      (new_login_model typing_input)
    ≡ some typed_name
unfolding run_form login_update update_inputs new_login_model same
form_ends = refl

-- the body with both texts behind each other
abbrev body : Bytes → Bytes → Bytes
body user_name pass_word = user_name ++ (codes "&" ++ pass_word)

login_data-run_form_example : login_data typing_input body typed_name ≡ body (codes "x") []
login_data-run_form_example =
    login_data-run_form typing_input typing_input-IsInput body
      (key (codes "x") ∷ key (codes "enter") ∷ []) typed_name form_ends
