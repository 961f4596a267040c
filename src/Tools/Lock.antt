-- ===== src/Tools/Lock.antt =====
-- The mutex of GetRedisInstance.
use yoyichat.Base.{ℕ, ◌+◌, ◌≡◌, refl, true, false, none, some}
use yoyichat.Base.Bytes.{Bytes}
use yoyichat.Base.Assoc.{lookup, insert, lookup-insert_self, bytes_key}
use yoyichat.Tools.{Clients, client, waits, get_locked, get_redis_instance}

-- the state that a call for an address of the table leaves
abbrev pub held : Clients → Clients
held s = record s { locked = true }

abbrev pub made : Bytes → Clients → Clients
made addr s = record {
  redis_client_map = insert addr s.next_client s.redis_client_map;
  next_client = s.next_client + 1;
  locked = false;
}

get_locked_new :
    (a : Bytes) (s : Clients)
    → lookup a s.redis_client_map ≡ none
    → get_locked a s ≡ client s.next_client (made a s)
unfolding get_locked
get_locked_new a s new = rw (new, get_locked) refl

get_locked_known :
    (a : Bytes) (c : ℕ) (s : Clients)
    → lookup a s.redis_client_map ≡ some c
    → get_locked a s ≡ client c (held s)
unfolding get_locked
get_locked_known a c s known = rw (known, get_locked) refl

-- The call that makes the client of a new address gives the mutex back; the next call for that
-- address gets the same client and keeps the mutex, and every call after it, for any address, waits.
pub get_redis_instance-third_waits :
    (a b : Bytes) (s : Clients)
    → s.locked ≡ false
    → lookup a s.redis_client_map ≡ none
    → (get_redis_instance a s ≡ client s.next_client (made a s))
      × (get_redis_instance a (made a s) ≡ client s.next_client (held (made a s)))
      × (get_redis_instance b (held (made a s)) ≡ waits)
unfolding get_redis_instance
get_redis_instance-third_waits a b s free new = (
  rw (free) (get_locked_new a (record s { locked = false }) new),
  get_locked_known a s.next_client (made a s)
      (lookup-insert_self a s.next_client s.redis_client_map),
  refl,
)
