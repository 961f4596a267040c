-- ===== src/Logic/Users.antt =====
-- logic/dao/user.go over the user database, which gorm and SQLite keep outside of the program.
use yoyichat.Base.{not, ◌||◌, Option, none, some, [], if◌then◌else◌, Result, ok, err}
use yoyichat.Base.Bytes.{Bytes, codes, same}
use yoyichat.Base.Int.{ℤ, pos, not_positive}

pub record User : Type 0 where
  pub id : ℤ
  pub user_name : Bytes
  pub password : Bytes

-- `var data User`, and what `Take` leaves there if it finds no row
abbrev pub no_user : User
no_user = record { id = pos 0; user_name = []; password = [] }

-- `Where("user_name=?", …).Take`, `Where("id=?", …).Take`, and `Create`, which gives the new id.
pub record UserDb : Type 1 where
  pub State : Type 0
  pub take_by_name : Bytes → State → Option User
  pub take_by_id : ℤ → State → Option User
  pub create : User → State → Result ℤ × State

abbrev pub or_no_user : Option User → User
or_no_user none = no_user
or_no_user (some u) = u

module _ (D : UserDb) where
  open D use {State, take_by_name, take_by_id, create}

  unfoldable pub check_have_user_name : Bytes → State → User
  check_have_user_name user_name s = or_no_user (take_by_name user_name s)

  unfoldable pub get_user_name_by_user_id : ℤ → State → Bytes
  get_user_name_by_user_id user_id s = (or_no_user (take_by_id user_id s)).user_name

  unfoldable pub get_user_id_by_user_name : Bytes → State → ℤ
  get_user_id_by_user_name user_name s = (or_no_user (take_by_name user_name s)).id

  unfoldable pub add : Bytes → Bytes → State → Result ℤ × State
  add user_name password s =
      if same user_name [] || same password []
      then (err (codes "user_name or password empty!"), s)
      else if not (not_positive (check_have_user_name user_name s).id)
      then (ok (check_have_user_name user_name s).id, s)
      else create (record { id = pos 0; user_name = user_name; password = password }) s
