-- ===== src/Tools.antt =====
-- The tools of tools/*.go that the layers share: the answers of response.go and the table of clients of
-- redis.go. (The keys of session_token.go are in Logic/Keys.)
pub mod Lock
use yoyichat.Base.{
  ℕ, ◌+◌, Bool, true, false, Option, none, some, List, [], ◌∷◌, ◌++◌, ◌==◌, if◌then◌else◌,
}
use yoyichat.Base.Bytes.{Bytes, codes}
use yoyichat.Base.Int.{ℤ, pos, negsuc, ◌==ℤ◌}
use yoyichat.Base.Assoc.{Assoc, lookup, insert, bytes_key, int_key}

abbrev pub code_success : ℤ
code_success = pos 0

abbrev pub code_fail : ℤ
code_fail = pos 1

abbrev pub code_unknown_error : ℤ
code_unknown_error = negsuc 0

abbrev pub code_session_error : ℤ
code_session_error = pos 40000

abbrev pub msg_code_map : Assoc ℤ Bytes
msg_code_map =
    (code_unknown_error, codes "unKnow error")
    ∷ (code_success, codes "success")
    ∷ (code_fail, codes "fail")
    ∷ (code_session_error, codes "Session error")
    ∷ []

-- what an answer carries besides its code and its message
pub data Data : Type 0 where
  no_data : Data
  text : Bytes → Data
  user : ℤ → Bytes → Data

-- the body of an answer, whose status is always 200
pub record Response : Type 0 where
  pub code : ℤ
  pub message : Bytes
  pub body : Data

abbrev pub or_empty : Option Bytes → Bytes
or_empty none = []
or_empty (some m) = m

unfoldable pub default_msg : ℤ → Bytes
default_msg code = elim (lookup code msg_code_map) [
  | some m ↦ m
  | none ↦ or_empty (lookup code_unknown_error msg_code_map)
]

unfoldable pub response_with_code : ℤ → Option Bytes → Data → Response
response_with_code code none d = record { code = code; message = default_msg code; body = d }
response_with_code code (some m) d = record { code = code; message = m; body = d }

unfoldable pub success_with_msg : Bytes → Data → Response
success_with_msg msg d = response_with_code code_success (some msg) d

unfoldable pub fail_with_msg : Bytes → Response
fail_with_msg msg = response_with_code code_fail (some msg) no_data

-- `ParseNetwork`: what stands before and after the first `@`; `none` is its error
unfoldable pub parse_network : Bytes → Option (Bytes × Bytes)
parse_network [] = none
parse_network (c ∷ cs) = if c == b'@' then some ([], cs) else keep_char c (parse_network cs)
  where
    keep_char : ℕ → Option (Bytes × Bytes) → Option (Bytes × Bytes)
    keep_char c none = none
    keep_char c (some (network, addr)) = some (c ∷ network, addr)

-- `GetRedisInstance`: the clients by address, the next client that is made, and whether the mutex is
-- held. A call waits for a held mutex for ever, since no other code unlocks it.
pub record Clients : Type 0 where
  pub redis_client_map : Assoc Bytes ℕ
  pub next_client : ℕ
  pub locked : Bool

pub data Got : Type 0 where
  client : ℕ → Clients → Got
  waits : Got

unfoldable pub get_locked : Bytes → Clients → Got
get_locked addr s = elim (lookup addr s.redis_client_map) [
  | some c ↦ client c (record s { locked = true })
  | none ↦ client s.next_client (record {
    redis_client_map = insert addr s.next_client s.redis_client_map;
    next_client = s.next_client + 1;
    locked = false;
  })
]

unfoldable pub get_redis_instance : Bytes → Clients → Got
get_redis_instance addr s = if s.locked then waits else get_locked addr s
