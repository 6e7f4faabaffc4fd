-- ===== src/Handler/Keys.antt =====
-- internal/handler/apikey.go and authHandler.go: the status code of each branch, by what the service
-- answers. A body that does not bind is a `none`.
use api_gateway.Common.{
  ℕ, String, List, [], ◌∷◌, ◌++◌, Bool, true, Option, none, some, Result, ok, err,
}
use api_gateway.Repository.ApiKeys.{ApiKey, Change, set_tier, set_is_active}

-- A status code, and the body of a success.
pub data Response (Body : Type 0) : Type 0 where
  failure : ℕ → Response Body
  success : ℕ → Body → Response Body

-- The fields of the body of `Update`, absent ones are nil.
pub record UpdateRequest : Type 0 where
  pub tier : Option String
  pub is_active : Option Bool

tier_change : Option String → List Change
tier_change none = []
tier_change (some tier) = set_tier tier ∷ []

active_change : Option Bool → List Change
active_change none = []
active_change (some b) = set_is_active b ∷ []

pub changes_of : UpdateRequest → List Change
unfolding tier_change active_change
changes_of req = tier_change req.tier ++ active_change req.is_active

module _ {Fault : Type 0} where
  pub get_key : Result Fault (Option ApiKey) → Response ApiKey
  get_key (err e) = failure 500
  get_key (ok none) = failure 404
  get_key (ok (some key)) = success 200 key

  pub list_keys : Result Fault (List ApiKey) → Response (List ApiKey)
  list_keys (err e) = failure 500
  list_keys (ok keys) = success 200 keys

module _ {State Fault : Type 0} where
  created : State × Result Fault String → State × Response String
  created (s, err e) = (s, failure 500)
  created (s, ok key) = (s, success 201 key)

  -- `service` is the service's `Create` for the bound request.
  pub create_key :
      {Body : Type 0}
      → (Body → State → State × Result Fault String)
      → State
      → Option Body
      → State × Response String
  unfolding created
  create_key service s none = (s, failure 400)
  create_key service s (some body) = created (service body s)

  updated : State × Option Fault → State × Response Bool
  updated (s, some e) = (s, failure 500)
  updated (s, none) = (s, success 200 true)

  update_with :
      (State → List Change → State × Option Fault) → State → List Change → State × Response Bool
  update_with service s [] = (s, failure 400)
  update_with service s (c ∷ cs) = updated (service s (c ∷ cs))

  pub update_key :
      (State → List Change → State × Option Fault)
      → State
      → Option UpdateRequest
      → State × Response Bool
  unfolding update_with updated
  update_key service s none = (s, failure 400)
  update_key service s (some req) = update_with service s (changes_of req)

  pub delete_key : (State → State × Option Fault) → State → State × Response Bool
  delete_key service s = updated (service s)
