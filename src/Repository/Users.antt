-- ===== src/Repository/Users.antt =====
-- internal/repository/authRepository.go and internal/models/user.go.
use api_gateway.Common.{ℕ, if◌then◌else◌, String, str_eq, List, [], ◌∷◌, Option, Result}
use api_gateway.Repository.{Found, no_row_is_nil}

pub record User : Type 0 where
  pub id : String
  pub email : String
  pub password_hash : String
  pub name : String
  pub role : String
  pub created_at : ℕ

pub data Condition : Type 0 where
  email_is : String → Condition
  id_is : String → Condition

-- What GORM does with the table `users`.
pub record Users : Type 1 where
  pub Db : Type 0
  pub Fault : Type 0
  pub first : Db → List Condition → Found Fault User
  pub find_by_created_at_desc : Db → Result Fault (List User)
  pub insert : Db → User → Db × Option Fault

-- `BeforeCreate`, for an id that is new; "" stands for `uuid.Nil`.
pub before_create : String → User → User
before_create new_id user = if str_eq user.id "" then record user { id = new_id } else user

module _ (users : Users) where
  open users use {Db, Fault}

  pub create : Db → String → User → Db × Option Fault
  create db new_id user = users.insert db (before_create new_id user)

  unfoldable pub find_by_email : Db → String → Result Fault (Option User)
  find_by_email db email = no_row_is_nil (users.first db (email_is email ∷ []))

  unfoldable pub find_by_id : Db → String → Result Fault (Option User)
  find_by_id db id = no_row_is_nil (users.first db (id_is id ∷ []))

  pub list : Db → Result Fault (List User)
  list db = users.find_by_created_at_desc db
