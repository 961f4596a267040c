-- ===== src/Client/Keys.antt =====
-- What the keys do: Update of client/ui.go and pushMessage of client/push.go.
use yoyichat.Base.{
  Bool, not, ◌&&◌, ◌||◌, Option, none, some, [], ◌∷◌, ◌++◌, if◌then◌else◌, is_empty,
}
use yoyichat.Base.Bytes.{Bytes, codes, same}
use yoyichat.Base.Bytes.Decimal.{itoa}
use yoyichat.Base.Int.{pos}
use yoyichat.Logic.Users.{UserDb, get_user_id_by_user_name}
use yoyichat.Client.{
  TeaMsg, key, window_size, failure, other, TextInput, FormPush, address, chat, users_list, Model,
}

module _ (T : TextInput) where
  -- What becomes of the program: it goes on, with the request that it sends, if any; it quits, and may
  -- close its connection first; or `os.Exit` ends it.
  pub data Outcome : Type 0 where
    runs : Option FormPush → Model T → Outcome
    quits : (closes : Bool) → Model T → Outcome
    exits : Outcome

  unfoldable pub toggle_chat : Model T → Model T
  toggle_chat m = record m { active_chat = if same m.active_chat chat then users_list else chat }

  -- the last lines of `Update`
  unfoldable pub update_input : TeaMsg → Model T → Model T
  update_input msg m =
      if not m.loading && same m.active_chat chat
      then record m { input = T.update msg m.input }
      else m

  unfoldable pub and_input : TeaMsg → Outcome → Outcome
  and_input msg (runs r m) = runs r (update_input msg m)
  and_input msg (quits closes m) = quits closes m
  and_input msg exits = exits

  module _ (D : UserDb) (trim_space : Bytes → Bytes) where
    -- The id is that of the recipient of the message before.
    unfoldable pub send : D.State → Bytes → Bytes × Bytes → Model T → Outcome
    send users now (recipient, content) m =
        runs
          (some (record {
            msg = content;
            to_user_id = itoa (get_user_id_by_user_name D m.recipient users);
            room_id = pos 0;
            auth_token = [];
            bearer = m.token;
          }))
          (record m {
            recipient = if is_empty recipient then m.recipient else recipient;
            messages =
                m.messages
                ++ record {
                  sender = m.username;
                  recipient = recipient;
                  content = content;
                  timestamp = now;
                }
                  ∷ [];
            input = T.set_value [] m.input;
          })

    unfoldable pub push_content : D.State → Bytes → Bytes → Model T → Outcome
    push_content users now content m =
        if is_empty content
        then runs none m
        else if same content (codes "/exit")
        then exits
        else send users now (address content) m

    unfoldable pub push_message : D.State → Bytes → Model T → Outcome
    push_message users now m = push_content users now (trim_space (T.value m.input)) m

    unfoldable pub press_enter : D.State → Bytes → Model T → Outcome
    press_enter users now m = if m.loading then runs none m else push_message users now m

    unfoldable pub press : D.State → Bytes → Bytes → Model T → Outcome
    press users now name m =
        if same name (codes "esc")
        then runs none (record m { active_chat = chat })
        else if same name (codes "ctrl+c") || same name (codes "q")
        then quits m.ws_conn m
        else if same name (codes "enter")
        then press_enter users now m
        else if same name (codes "tab")
        then runs none (toggle_chat m)
        else runs none m

    -- `Update`; an error is kept without a look at the input
    unfoldable pub update : D.State → Bytes → TeaMsg → Model T → Outcome
    update users now (key name) m = and_input (key name) (press users now name m)
    update users now (window_size width height) m =
        and_input (window_size width height)
          (runs none (record m { width = width; height = height }))
    update users now (failure e) m = runs none (record m { err = some e })
    update users now other m = and_input other (runs none m)
