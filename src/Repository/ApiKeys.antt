-- ===== src/Repository/ApiKeys.antt =====
-- internal/repository/apikey.go and internal/models/api_key.go.
use api_gateway.Common.{ℕ, if◌then◌else◌, String, str_eq, List, [], ◌∷◌, Bool, true, Option, Result}
use api_gateway.Repository.{Found, no_row_is_nil}

-- Instants in nanoseconds.
pub record ApiKey : Type 0 where
  pub id : String
  pub key_hash : String
  pub name : String
  pub created_by : String
  pub tier : String
  pub is_active : Bool
  pub created_at : ℕ
  pub last_used_at : Option ℕ

pub data Condition : Type 0 where
  key_hash_is : String → Condition
  id_is : String → Condition
  tier_is : String → Condition
  is_active_is : Bool → Condition

-- The entries of a map of updates.
pub data Change : Type 0 where
  set_tier : String → Change
  set_is_active : Bool → Change
  set_last_used_at : ℕ → Change

-- What GORM does with the table `api_keys`. `create` runs the hook `BeforeCreate` with a new id.
pub record Keys : Type 1 where
  pub Db : Type 0
  pub Fault : Type 0
  pub first : Db → List Condition → Found Fault ApiKey
  pub find_by_created_at_desc : Db → Result Fault (List ApiKey)
  pub count : Db → List Condition → Result Fault ℕ
  pub insert : Db → ApiKey → Db × Option Fault
  pub updates : Db → List Condition → List Change → Db × Option Fault
  pub remove : Db → List Condition → Db × Option Fault

-- `BeforeCreate`, for an id that is new; "" stands for `uuid.Nil`.
pub before_create : String → ApiKey → ApiKey
before_create new_id key = if str_eq key.id "" then record key { id = new_id } else key

module _ (keys : Keys) where
  open keys use {Db, Fault}

  pub create : Db → String → ApiKey → Db × Option Fault
  create db new_id key = keys.insert db (before_create new_id key)

  unfoldable pub find_by_hash : Db → String → Result Fault (Option ApiKey)
  find_by_hash db hash = no_row_is_nil (keys.first db (key_hash_is hash ∷ is_active_is true ∷ []))

  unfoldable pub find_by_id : Db → String → Result Fault (Option ApiKey)
  find_by_id db id = no_row_is_nil (keys.first db (id_is id ∷ []))

  pub list : Db → Result Fault (List ApiKey)
  list db = keys.find_by_created_at_desc db

  unfoldable pub update : Db → String → List Change → Db × Option Fault
  update db id changes = keys.updates db (id_is id ∷ []) changes

  pub update_last_used : Db → String → ℕ → Db × Option Fault
  update_last_used db id now = keys.updates db (id_is id ∷ []) (set_last_used_at now ∷ [])

  unfoldable pub delete : Db → String → Db × Option Fault
  delete db id = keys.remove db (id_is id ∷ [])

  pub count_by_tier : Db → String → Result Fault ℕ
  count_by_tier db tier = keys.count db (tier_is tier ∷ is_active_is true ∷ [])
