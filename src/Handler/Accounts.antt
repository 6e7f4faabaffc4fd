-- ===== src/Handler/Accounts.antt =====
-- internal/handler/authHandler.go: the status code of each branch, by what the service answers. A body
-- that does not bind is a `none`; `user_id` is what `RequireAuth` has put in the context, if it ran.
use api_gateway.Common.{String, Bool, true, Option, none, some, Result, ok, err, ◌≡◌, refl}
use api_gateway.Repository.Users.{User}
use api_gateway.Handler.Keys.{Response, failure, success}

module _ {State Error : Type 0} where
  registered : State × Option Error → State × Response Bool
  registered (s, some e) = (s, failure 400)
  registered (s, none) = (s, success 201 true)

  pub register :
      {Body : Type 0}
      → (State → Body → State × Option Error)
      → State
      → Option Body
      → State × Response Bool
  unfolding registered
  register service s none = (s, failure 400)
  register service s (some body) = registered (service s body)

module _ {Error : Type 0} where
  logged_in : Result Error String → Response String
  logged_in (err e) = failure 401
  logged_in (ok token) = success 200 token

  pub login : {Body : Type 0} → (Body → Result Error String) → Option Body → Response String
  unfolding logged_in
  login service none = failure 400
  login service (some body) = logged_in (service body)

  found : Result Error (Option User) → Response User
  found (err e) = failure 500
  found (ok none) = failure 404
  found (ok (some user)) = success 200 user

  pub me : (String → Result Error (Option User)) → Option String → Response User
  unfolding found
  me service none = failure 401
  me service (some user_id) = found (service user_id)

  -- Without an id in the context, whatever the service has.
  pub me-none : (service : String → Result Error (Option User)) → me service none ≡ failure 401
  unfolding me
  me-none service = refl
