-- ===== src/Logic/Redis.antt =====
-- The Redis server, which is not part of the program: an interface, and what its documentation says
-- of the commands that the program uses. A MULTI/EXEC block counts as its commands in order, since the
-- program reads nothing inside one; keys do not expire between the calls that a theorem speaks of.
use yoyichat.Base.{ℕ, ◌≡◌, refl, Option, none, some, List, [], ◌∷◌, if◌then◌else◌, Result, ok, err}
use yoyichat.Base.Bytes.{Bytes, codes, same}
use yoyichat.Base.Bytes.Decimal.{itoa, atoi}
use yoyichat.Base.Int.{ℤ, pos, incr, decr}
use yoyichat.Base.Assoc
use yoyichat.Base.Assoc.{bytes_key}
use yoyichat.Messages.{Table}

pub data Command : Type 0 where
  get del hgetall : Bytes → Command
  set : Bytes → Bytes → ℕ → Command
  hget hdel : Bytes → Bytes → Command
  hset : Bytes → Bytes → Bytes → Command
  hmset : Bytes → Table → Command
  incr_key decr_key : Bytes → Command
  lpush : Bytes → Bytes → Command
  brpop : Bytes → ℕ → Command
  expire : Bytes → ℕ → Command
  multi exec : Command

pub data Answer : Type 0 where
  nothing : Answer
  text : Bytes → Answer
  table : Table → Answer
  items : List Bytes → Answer

pub record Redis : Type 1 where
  pub State : Type 0
  pub run : Command → State → Result Answer × State

-- `.Err()`, and `.Val()` of a text, of a table and of a list: an error gives the zero value
abbrev pub err_of : Result Answer → Option Bytes
err_of (ok a) = none
err_of (err e) = some e

abbrev pub text_of : Result Answer → Bytes
text_of (ok (text t)) = t
text_of _ = []

abbrev pub table_of : Result Answer → Table
table_of (ok (table t)) = t
table_of _ = []

abbrev pub items_of : Result Answer → List Bytes
items_of (ok (items l)) = l
items_of _ = []

-- What a key holds.
pub data Value : Type 0 where
  absent : Value
  text_value : Bytes → Value
  table_value : Table → Value
  list_value : List Bytes → Value

abbrev pub Db : Type 0
Db = Bytes → Value

abbrev pub put_value : Db → Bytes → Value → Db
put_value db k v j = if same j k then v else db j

abbrev pub redis_nil : Bytes
redis_nil = codes "redis: nil"

abbrev pub wrong_type : Bytes
wrong_type = codes "WRONGTYPE Operation against a key holding the wrong kind of value"

abbrev pub not_an_integer : Bytes
not_an_integer = codes "ERR value is not an integer or out of range"

abbrev pub or_nil : Option Bytes → Result Answer
or_nil none = err redis_nil
or_nil (some t) = ok (text t)

abbrev pub number_in : Value → Option ℤ
number_in absent = some (pos 0)
number_in (text_value t) = atoi t
number_in _ = none

abbrev pub put_number : Db → Bytes → Option ℤ → Db
put_number db k none = db
put_number db k (some n) = put_value db k (text_value (itoa n))

abbrev pub map_number : (ℤ → ℤ) → Option ℤ → Option ℤ
map_number f none = none
map_number f (some n) = some (f n)

abbrev pub insert_all : Table → Table → Table
insert_all [] t = t
insert_all ((f, v) ∷ fs) t = insert_all fs (Assoc.insert f v t)

-- The hash commands at the value of their key: a missing key is an empty hash.
abbrev pub hash_answer : (Table → Result Answer) → Value → Result Answer
hash_answer f absent = f []
hash_answer f (table_value t) = f t
hash_answer f _ = err wrong_type

abbrev pub hash_effect : Db → Bytes → (Table → Table) → Value → Db
hash_effect db k f absent = put_value db k (table_value (f []))
hash_effect db k f (table_value t) = put_value db k (table_value (f t))
hash_effect db k f _ = db

-- HDEL creates no key.
abbrev pub hdel_effect : Db → Bytes → Bytes → Value → Db
hdel_effect db k f (table_value t) = put_value db k (table_value (Assoc.delete f t))
hdel_effect db k f _ = db

abbrev pub get_answer : Value → Result Answer
get_answer absent = err redis_nil
get_answer (text_value t) = ok (text t)
get_answer _ = err wrong_type

abbrev pub number_answer : Option ℤ → Result Answer
number_answer none = err not_an_integer
number_answer (some n) = ok nothing

abbrev pub lpush_answer : Value → Result Answer
lpush_answer absent = ok nothing
lpush_answer (list_value l) = ok nothing
lpush_answer _ = err wrong_type

abbrev pub lpush_effect : Db → Bytes → Bytes → Value → Db
lpush_effect db k v absent = put_value db k (list_value (v ∷ []))
lpush_effect db k v (list_value l) = put_value db k (list_value (v ∷ l))
lpush_effect db k v _ = db

-- BRPOP takes the last element of a list, and the key of an emptied list is no key any more. Where
-- there is none it gives up after its time: nothing is pushed while it waits, for that is a call of
-- its own.
abbrev pub last_of : Bytes → List Bytes → Bytes
last_of x [] = x
last_of x (y ∷ ys) = last_of y ys

abbrev pub front_of : Bytes → List Bytes → List Bytes
front_of x [] = []
front_of x (y ∷ ys) = x ∷ front_of y ys

abbrev pub brpop_answer : Bytes → Value → Result Answer
brpop_answer k absent = err redis_nil
brpop_answer k (list_value []) = err redis_nil
brpop_answer k (list_value (x ∷ xs)) = ok (items (k ∷ last_of x xs ∷ []))
brpop_answer k _ = err wrong_type

abbrev pub brpop_effect : Db → Bytes → Value → Db
brpop_effect db k (list_value (x ∷ [])) = put_value db k absent
brpop_effect db k (list_value (x ∷ y ∷ ys)) = put_value db k (list_value (front_of x (y ∷ ys)))
brpop_effect db k _ = db

abbrev pub answer : Command → Db → Result Answer
answer (get k) db = get_answer (db k)
answer (hgetall k) db = hash_answer (λ t. ok (table t)) (db k)
answer (hget k f) db = hash_answer (λ t. or_nil (Assoc.lookup f t)) (db k)
answer (hset k f v) db = hash_answer (λ t. ok nothing) (db k)
answer (hmset k fs) db = hash_answer (λ t. ok nothing) (db k)
answer (hdel k f) db = hash_answer (λ t. ok nothing) (db k)
answer (incr_key k) db = number_answer (number_in (db k))
answer (decr_key k) db = number_answer (number_in (db k))
answer (lpush k v) db = lpush_answer (db k)
answer (brpop k seconds) db = brpop_answer k (db k)
answer _ db = ok nothing

abbrev pub effect : Command → Db → Db
effect (del k) db = put_value db k absent
effect (set k v seconds) db = put_value db k (text_value v)
effect (hset k f v) db = hash_effect db k (Assoc.insert f v) (db k)
effect (hmset k fs) db = hash_effect db k (insert_all fs) (db k)
effect (hdel k f) db = hdel_effect db k f (db k)
effect (incr_key k) db = put_number db k (map_number incr (number_in (db k)))
effect (decr_key k) db = put_number db k (map_number decr (number_in (db k)))
effect (lpush k v) db = lpush_effect db k v (db k)
effect (brpop k seconds) db = brpop_effect db k (db k)
effect _ db = db

-- A server that is reached by every command and does what its documentation says.
pub record IsUp (R : Redis) : Type 0 where
  pub view : R.State → Db
  pub answers : (c : Command) (s : R.State) → (R.run c s).0 ≡ answer c (view s)
  pub effects : (c : Command) (s : R.State) → view (R.run c s).1 ≡ effect c (view s)

-- There is such a server: the one whose state is what the keys hold.
abbrev pub plain : Redis
plain = record { State = Db; run = λ c db. (answer c db, effect c db) }

abbrev pub plain-IsUp : IsUp plain
plain-IsUp = record { view = λ db. db; answers = λ c s. refl; effects = λ c s. refl }
