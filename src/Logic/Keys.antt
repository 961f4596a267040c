-- ===== src/Logic/Keys.antt =====
-- The names of the Redis keys: the three functions of logic/publish.go and those of
-- tools/session_token.go.
pub mod Apart
use yoyichat.Base.{◌++◌}
use yoyichat.Base.Bytes.{Bytes, codes}
use yoyichat.Base.Bytes.Decimal.{itoa}
use yoyichat.Base.Int.{ℤ}
use yoyichat.Messages.{redis_prefix, redis_room_prefix, redis_room_online_prefix}

unfoldable pub get_room_user_key : Bytes → Bytes
get_room_user_key auth_key = redis_room_prefix ++ auth_key

unfoldable pub get_room_online_count_key : Bytes → Bytes
get_room_online_count_key auth_key = redis_room_online_prefix ++ auth_key

unfoldable pub get_user_key : Bytes → Bytes
get_user_key auth_key = redis_prefix ++ auth_key

abbrev pub session_prefix : Bytes
session_prefix = codes "session_"

unfoldable pub create_session_id : Bytes → Bytes
create_session_id session_id = session_prefix ++ session_id

unfoldable pub get_session_name : Bytes → Bytes
get_session_name session_id = session_prefix ++ session_id

-- `fmt.Sprintf("%s_map_%d", SessionPrefix, userId)`
unfoldable pub get_session_id_by_user_id : ℤ → Bytes
get_session_id_by_user_id user_id = session_prefix ++ (codes "_map_" ++ itoa user_id)
