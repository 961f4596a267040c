-- ===== src/Client.antt =====
-- The terminal client (client/*.go): the state of its screen, what a key does to it, and what it makes of
-- the messages that come. bubbletea and its text input, the JSON coders and strings.TrimSpace, whose table
-- of Unicode spaces is not repeated here, are arguments; drawing is left out.
pub mod Keys
pub mod Loading
pub mod Login
use yoyichat.Base.{
  ℕ, Bool, true, false, not, ◌&&◌, ◌||◌, Option, none, some, List, [], ◌∷◌, ◌++◌, if◌then◌else◌,
  is_empty, ◌==◌, Result, ok, err,
}
use yoyichat.Base.Bytes.{Bytes, codes, same}
use yoyichat.Base.Bytes.Decimal.{itoa}
use yoyichat.Base.Int.{ℤ, pos}
use yoyichat.Messages.{ConnectRequest}
use yoyichat.Logic.Users.{UserDb, get_user_id_by_user_name}

pub record Message : Type 0 where
  pub sender : Bytes
  pub recipient : Bytes
  pub content : Bytes
  pub timestamp : Bytes

-- `tea.Msg`: a key by its name, a new size, an error, or anything else
pub data TeaMsg : Type 0 where
  key : Bytes → TeaMsg
  window_size : ℕ → ℕ → TeaMsg
  failure : Bytes → TeaMsg
  other : TeaMsg

-- `textinput.Model`
pub record TextInput : Type 1 where
  pub State : Type 0
  pub value : State → Bytes
  pub set_value : Bytes → State → State
  pub update : TeaMsg → State → State

-- the body of a push, and the token in its header
pub record FormPush : Type 0 where
  pub msg : Bytes
  pub to_user_id : Bytes
  pub room_id : ℤ
  pub auth_token : Bytes
  pub bearer : Bytes

-- the parts that `strings.SplitN(s, " ", 2)` gives where it gives two
unfoldable pub split_space : Bytes → Option (Bytes × Bytes)
split_space [] = none
split_space (c ∷ cs) = if c == b' ' then some ([], cs) else keep c (split_space cs)
  where
    keep : ℕ → Option (Bytes × Bytes) → Option (Bytes × Bytes)
    keep c none = none
    keep c (some (p, q)) = some (c ∷ p, q)

abbrev pub addressed_to : Bytes → Option (Bytes × Bytes) → Bytes × Bytes
addressed_to content none = ([], content)
addressed_to content (some (recipient, rest)) = (recipient, rest)

-- the recipient of "@name text", empty where there is none, and the text
unfoldable pub address : Bytes → Bytes × Bytes
address [] = ([], [])
address (c ∷ cs) = if c == b'@' then addressed_to (c ∷ cs) (split_space cs) else ([], c ∷ cs)

abbrev pub chat : Bytes
chat = codes "chat"

abbrev pub users_list : Bytes
users_list = codes "users"

module _ (T : TextInput) where
  -- `model`; `ws_conn` says whether there is a connection
  pub record Model : Type 0 where
    pub messages : List Message
    pub input : T.State
    pub recipient : Bytes
    pub online_users : List Bytes
    pub status : Bytes
    pub err : Option Bytes
    pub width : ℕ
    pub height : ℕ
    pub active_chat : Bytes
    pub ws_conn : Bool
    pub token : Bytes
    pub username : Bytes
    pub loading : Bool
    pub user_id : Bytes
    pub server_id : Bytes
    pub room_id : ℤ

  -- `input` is the text input that was set up
  unfoldable pub new_im_client : (token username status : Bytes) → T.State → Model
  new_im_client token username status input = record {
    messages = [];
    input = input;
    recipient = [];
    online_users = [];
    status = status;
    err = none;
    width = 0;
    height = 0;
    active_chat = chat;
    ws_conn = false;
    token = token;
    username = username;
    loading = true;
    user_id = [];
    server_id = [];
    room_id = pos 0;
  }

  -- `initWebSocket`, which works on a copy of the model: the error of the dial, of the marshalling and of the
  -- write, if there is one, and the status of a client that is connected. The result has the request that
  -- is sent.
  unfoldable pub connect_request : Model → ConnectRequest
  connect_request m = record { auth_token = m.token; room_id = m.room_id; server_id = m.server_id }

  unfoldable pub after_dial :
      (marshalled written : Option Bytes) → Bytes → Model → Model × Option ConnectRequest
  after_dial (some e) written status m = (record m { err = some e }, none)
  after_dial none (some e) status m = (record m { err = some e }, none)
  after_dial none none status m = (record m { status = status }, some (connect_request m))

  unfoldable pub init_web_socket :
      (dialed marshalled written : Option Bytes) → Bytes → Model → Model × Option ConnectRequest
  init_web_socket (some e) marshalled written status m = (record m { err = some e }, none)
  init_web_socket none marshalled written status m =
      after_dial marshalled written status (record m { ws_conn = true })

  -- `processMessage`, and a round of `receiveMessages` with a connection
  unfoldable pub process_message : Message → Model → Model
  process_message msg m = record m { messages = m.messages ++ msg ∷ [] }

  unfoldable pub set_users : Option (List Bytes) → Model → Model
  set_users none m = m
  set_users (some users) m = record m { online_users = users }

  unfoldable pub receive_bytes :
      (Bytes → Option Message) → (Bytes → Option (List Bytes)) → Bytes → Model → Model
  receive_bytes as_message as_users bytes m = elim (as_message bytes) [
    | some msg ↦ process_message msg m
    | none ↦ set_users (as_users bytes) m
  ]

  unfoldable pub receive :
      (Bytes → Option Message) → (Bytes → Option (List Bytes)) → Result Bytes → Model → Model
  receive as_message as_users (err e) m = record m { err = some e }
  receive as_message as_users (ok bytes) m = receive_bytes as_message as_users bytes m

  -- the lines of the chat: the messages of all, or those between the user and the recipient
  unfoldable pub is_shown : Model → Message → Bool
  is_shown m msg =
      if is_empty m.recipient
      then is_empty msg.recipient
      else (same msg.sender m.recipient && same msg.recipient m.username)
        || (same msg.sender m.username && same msg.recipient m.recipient)

  unfoldable pub chat_lines : Model → List Message → List Message
  chat_lines m [] = []
  chat_lines m (msg ∷ msgs) =
      let rest = chat_lines m msgs in if is_shown m msg then msg ∷ rest else rest
