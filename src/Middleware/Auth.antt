-- ===== src/Middleware/Auth.antt =====
-- internal/middleware/authMiddleware.go and apikey.go.
pub mod Bearer
mod Tests
use Prim.Native.String
use api_gateway.Common.{
  ℤ, if◌then◌else◌, String, str_eq, List, [], ◌∷◌, Option, none, some, Result, ok, err, Bool-cases,
  ◌≡◌, refl, ◌⊎◌, inl, inr,
}
use api_gateway.Http.{Request}
use api_gateway.Repository.Users.{Users}
use api_gateway.Repository.ApiKeys.{ApiKey}
use api_gateway.Service.Auth.{AuthService, Crypto, Claims, validate_token}

prepend : String → List String → List String
prepend c [] = c ∷ []
prepend c (w ∷ ws) = String.◌++◌ c w ∷ ws

-- `strings.Split(text, " ")`
unfoldable pub split_spaces : String → List String
unfolding prepend
split_spaces String.[] = "" ∷ []
split_spaces (String.◌∷◌ c s) =
    let rest = split_spaces s in
    if str_eq (String.◌∷◌ c "") " " then "" ∷ rest else prepend (String.◌∷◌ c "") rest

-- A request is answered with 401 and an error, or goes on with the claims in its context.
pub data AuthVerdict : Type 0 where
  unauthorized : String → AuthVerdict
  authorized : Claims → AuthVerdict

module _ (users : Users) (crypto : Crypto) where
  with_claims : Result String Claims → AuthVerdict
  with_claims (err e) = unauthorized "Invalid or expired token"
  with_claims (ok claims) = authorized claims

  with_parts : AuthService → ℤ → List String → AuthVerdict
  with_parts s now (scheme ∷ token ∷ []) =
      let verdict = with_claims (validate_token users crypto s now token) in
      if str_eq scheme "Bearer"
      then verdict
      else unauthorized "Invalid authorized header format. Use: Bearer <token>"
  with_parts s now _ = unauthorized "Invalid authorized header format. Use: Bearer <token>"

  pub require_auth : AuthService → ℤ → Request → AuthVerdict
  unfolding with_parts with_claims
  require_auth s now req =
      let header = req.headers "Authorization" in
      if str_eq header ""
      then unauthorized "Authorization header required"
      else with_parts s now (split_spaces header)

-- `APIKeyValidator`: without a key the request goes on; with a key that is not valid it is answered
-- with 401; with a valid one it goes on with the key in its context. `validate` is the service's, of
-- the header without the white space around it, which `trim_space` takes off.
pub data KeyVerdict : Type 0 where
  no_key : KeyVerdict
  invalid_key : KeyVerdict
  valid_key : ApiKey → KeyVerdict

module _ {State Fault : Type 0} where
  judge : State × Result Fault (Option ApiKey) → State × KeyVerdict
  judge (s, err e) = (s, invalid_key)
  judge (s, ok none) = (s, invalid_key)
  judge (s, ok (some key)) = (s, valid_key key)

  pub api_key_validator :
      (State → String → State × Result Fault (Option ApiKey))
      → (String → String)
      → State
      → Request
      → State × KeyVerdict
  unfolding judge
  api_key_validator validate trim_space s req =
      let header = req.headers "X-Api-Key" in
      if str_eq header "" then (s, no_key) else judge (validate s (trim_space header))

  judge-state : (step : State × Result Fault (Option ApiKey)) → (judge step).0 ≡ step.0
  unfolding judge
  judge-state (s, err e) = refl
  judge-state (s, ok none) = refl
  judge-state (s, ok (some key)) = refl

  -- The state is the one before, or that after the service was asked for the key.
  pub api_key_validator-state :
      (validate : State → String → State × Result Fault (Option ApiKey))
      (trim_space : String → String) (s : State) (req : Request)
      → let after = (api_key_validator validate trim_space s req).0 in
        (after ≡ s) ⊎ (after ≡ (validate s (trim_space (req.headers "X-Api-Key"))).0)
  unfolding api_key_validator
  api_key_validator-state validate trim_space s req =
      elim (Bool-cases (str_eq (req.headers "X-Api-Key") "")) [
        | inl e ↦ inl (rw (e) refl)
        | inr e ↦ inr (rw (e) (judge-state (validate s (trim_space (req.headers "X-Api-Key")))))
      ]
