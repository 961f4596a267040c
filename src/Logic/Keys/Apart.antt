-- ===== src/Logic/Keys/Apart.antt =====
-- The kinds of keys of logic/publish.go beside each other.
use yoyichat.Base.{ℕ, ◌≤◌, ◌≡◌, false, [], ◌∷◌, ◌++◌, arith, ◌∙◌}
use yoyichat.Base.Bytes.{Bytes, codes, same, same-append}
use yoyichat.Base.Bytes.Decimal.{itoa, itoa-StartsNumber, StartsNumber}
use yoyichat.Base.Int.{ℤ}
use yoyichat.Messages.{queue_name, redis_prefix, redis_room_prefix}
use yoyichat.Logic.Keys.{get_room_user_key, get_room_online_count_key, get_user_key}

letter_apart : (s t : Bytes) (c : ℕ) → StartsNumber s → 58 ≤ c → same s (c ∷ t) ≡ false
unfolding same
letter_apart [] t c h l = elim h [ ]
letter_apart (x ∷ s) t c h l = ground arith

-- The keys that are built of a number differ between the kinds, for any two numbers: a user's key is
-- no room's key, no count's key and not the queue, and a room's key is no count's key.
pub keys_apart :
    (a b : ℤ)
    → (same (get_user_key (itoa a)) (get_room_user_key (itoa b)) ≡ false)
      × (same (get_user_key (itoa a)) (get_room_online_count_key (itoa b)) ≡ false)
      × (same (get_user_key (itoa a)) queue_name ≡ false)
      × (same (get_room_user_key (itoa a)) (get_room_online_count_key (itoa b)) ≡ false)
unfolding get_user_key get_room_user_key get_room_online_count_key
keys_apart a b = (
  same-append redis_prefix (itoa a) (codes "room_" ++ itoa b)
      ∙ letter_apart (itoa a) (codes "oom_" ++ itoa b) b'r' (itoa-StartsNumber a) (omega arith),
  same-append redis_prefix (itoa a) (codes "room_online_count_" ++ itoa b)
      ∙ letter_apart (itoa a) (codes "oom_online_count_" ++ itoa b) b'r' (itoa-StartsNumber a)
          (omega arith),
  same-append redis_prefix (itoa a) (codes "queue")
      ∙ letter_apart (itoa a) (codes "ueue") b'q' (itoa-StartsNumber a) (omega arith),
  same-append redis_room_prefix (itoa a) (codes "online_count_" ++ itoa b)
      ∙ letter_apart (itoa a) (codes "nline_count_" ++ itoa b) b'o' (itoa-StartsNumber a)
          (omega arith),
)
