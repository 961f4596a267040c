-- ===== src/Client/Loading.antt =====
-- The client's flag `loading`.
use yoyichat.Base.{◌≡◌, refl, true, none, some, List, [], ◌∷◌, arith}
use yoyichat.Base.Bytes.{Bytes}
use yoyichat.Logic.Users.{UserDb}
use yoyichat.Client.{
  TeaMsg, key, window_size, failure, other, TextInput, FormPush, Model, new_im_client,
}
use yoyichat.Client.Keys.{
  Outcome, runs, quits, exits, update_input, and_input, toggle_chat, press_enter, press, update,
}

module _ (T : TextInput) (D : UserDb) (trim_space : Bytes → Bytes) (users : D.State) where
  -- the requests of a program that is given these messages, each at its time
  unfoldable pub requests : List (Bytes × TeaMsg) → Model T → List FormPush
  requests [] m = []
  requests ((now, msg) ∷ msgs) m = elim (update T D trim_space users now msg m) [
    | runs none m' ↦ requests msgs m'
    | runs (some r) m' ↦ r ∷ requests msgs m'
    | quits closes m' ↦ []
    | exits ↦ []
  ]

  -- it goes on loading and sends nothing, or it quits
  abbrev Silent : Outcome T → Type 0
  Silent (runs r m) = (r ≡ none) × (m.loading ≡ true)
  Silent (quits closes m) = Unit
  Silent exits = ⊥

  and_input-Silent : (msg : TeaMsg) (o : Outcome T) → Silent o → Silent (and_input T msg o)
  unfolding and_input update_input
  and_input-Silent msg (runs r m) (none_sent, l) = (none_sent, rw (l) refl)
  and_input-Silent msg (quits closes m) s = tt
  and_input-Silent msg exits s = s

  press-Silent :
      (now name : Bytes) (m : Model T)
      → m.loading ≡ true
      → Silent (press T D trim_space users now name m)
  unfolding press press_enter toggle_chat
  press-Silent now name m l = ground (arith, l)

  update-Silent :
      (now : Bytes) (msg : TeaMsg) (m : Model T)
      → m.loading ≡ true
      → Silent (update T D trim_space users now msg m)
  unfolding update
  update-Silent now (key name) m l =
      and_input-Silent (key name) (press T D trim_space users now name m)
        (press-Silent now name m l)
  update-Silent now (window_size w h) m l =
      and_input-Silent (window_size w h) (runs none (record m { width = w; height = h })) (refl, l)
  update-Silent now (failure e) m l = (refl, l)
  update-Silent now other m l = and_input-Silent other (runs none m) (refl, l)

  requests_loading :
      (msgs : List (Bytes × TeaMsg)) (m : Model T) → m.loading ≡ true → requests msgs m ≡ []
  unfolding requests
  requests_loading [] m l = refl
  requests_loading ((now, msg) ∷ msgs) m l =
      after (update T D trim_space users now msg m) refl (update-Silent now msg m l)
        (λ m' l'. requests_loading msgs m' l')
    where
      after :
          (o : Outcome T)
          → update T D trim_space users now msg m ≡ o
          → Silent o
          → ((m' : Model T) → m'.loading ≡ true → requests msgs m' ≡ [])
          → requests ((now, msg) ∷ msgs) m ≡ []
      after (runs none m') e s rest = rw (e, requests) (rest m' s.1)
      after (runs (some r) m') e s rest = absurd (ground arith)
      after (quits closes m') e s rest = rw (e, requests) refl
      after exits e s rest = absurd s

  -- Whatever keys are pressed and whatever else happens on its screen, the client sends no message: it is
  -- made with the flag `loading`, which nothing takes back.
  pub requests-new_im_client :
      (token username status : Bytes) (input : T.State) (msgs : List (Bytes × TeaMsg))
      → requests msgs (new_im_client T token username status input) ≡ []
  unfolding new_im_client
  requests-new_im_client token username status input msgs =
      requests_loading msgs (new_im_client T token username status input) refl
