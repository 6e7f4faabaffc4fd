-- ===== src/Service/Auth.antt =====
-- internal/service/authService.go. The parameters are the table of users, bcrypt, and the JWT library.
pub mod Sessions
mod Tests
use Prim.Native.String
use api_gateway.Common.{
  ℕ, ◌*◌, ◌/◌, ℤ, pos, quotient, mul_int, add_ℤ, if◌then◌else◌, String, Bool, true, false, Option,
  none, some, Result, ok, err,
}
use api_gateway.RateLimit.FixedWindow.{second}
use api_gateway.Repository.Users
use api_gateway.Repository.Users.{User, Users}

-- `jwt.MapClaims` as `Login` fills it; instants in seconds since 1970.
pub record Claims : Type 0 where
  pub user_id : String
  pub email : String
  pub role : String
  pub exp : ℤ
  pub iat : ℤ

-- A token that `jwt.Parse` has parsed; it has other claims if they are no `MapClaims`.
pub record Token : Type 0 where
  pub valid : Bool
  pub claims : Option Claims

-- `generate` and `compare` are bcrypt's. `sign` signs with HS256 and a secret; `parse` looks the secret
-- up by whether the token names an HMAC method, at the given time in seconds.
pub record Crypto : Type 0 where
  pub generate : String → Result String String
  pub compare : (password_hash password : String) → Bool
  pub sign : String → Claims → Result String String
  pub parse : (Bool → Result String String) → ℤ → String → Result String Token

pub record AuthService : Type 0 where
  pub jwt_secret : String
  pub jwt_expiry : ℤ

pub new_auth_service : String → ℤ → AuthService
new_auth_service secret expiry_hours = record {
  jwt_secret = secret;
  jwt_expiry = mul_int expiry_hours (pos (3600 * second));
}

module _ (users : Users) (crypto : Crypto) where
  open users use {Db, Fault}

  -- The errors of the service: those of the database, and its own.
  pub data AuthError : Type 0 where
    database : Fault → AuthError
    message : String → AuthError

  insert_user : Db → (email name new_id : String) → Result String String → Db × Option AuthError
  insert_user db email name new_id (err e) =
      (db, some (message (String.◌++◌ "failed to hash password: " e)))
  insert_user db email name new_id (ok hashed) =
      let (db', failure) = Users.create users db new_id (record {
        id = "";
        email = email;
        password_hash = hashed;
        name = name;
        role = "admin";
        created_at = 0;
      }) in
      elim failure [ none ↦ (db', none) | some e ↦ (db', some (database e)) ]

  register_if_new :
      Db
      → (email password name new_id : String) → Result Fault (Option User)
      → Db × Option AuthError
  register_if_new db email password name new_id (err e) = (db, some (database e))
  register_if_new db email password name new_id (ok (some user)) =
      (db, some (message "user with this email already exists"))
  register_if_new db email password name new_id (ok none) =
      insert_user db email name new_id (crypto.generate password)

  pub register : Db → (email password name new_id : String) → Db × Option AuthError
  unfolding register_if_new insert_user
  register db email password name new_id =
      register_if_new db email password name new_id (Users.find_by_email users db email)

  unfoldable pub claims_of : AuthService → User → ℕ → ℕ → Claims
  claims_of s user now later = record {
    user_id = user.id;
    email = user.email;
    role = user.role;
    exp = quotient (add_ℤ (pos now) s.jwt_expiry) second;
    iat = pos (later / second);
  }

  sign_token : Result String String → Result AuthError String
  sign_token (ok token) = ok token
  sign_token (err e) = err (message (String.◌++◌ "failed to generate token: " e))

  login_as :
      AuthService
      → (password : String) → ℕ
      → ℕ
      → Result Fault (Option User)
      → Result AuthError String
  login_as s password now later (err e) = err (database e)
  login_as s password now later (ok none) = err (message "invalid credentials")
  login_as s password now later (ok (some user)) =
      let token = sign_token (crypto.sign s.jwt_secret (claims_of s user now later)) in
      if crypto.compare user.password_hash password
      then token
      else err (message "invalid credentials")

  -- `now` is read for the expiry, `later` for the time of issue.
  pub login : AuthService → Db → (email password : String) → ℕ → ℕ → Result AuthError String
  unfolding login_as sign_token
  login s db email password now later =
      login_as s password now later (Users.find_by_email users db email)

  -- The function that gives `jwt.Parse` the secret, for HMAC methods only.
  unfoldable pub key_func : AuthService → Bool → Result String String
  key_func s true = ok s.jwt_secret
  key_func s false = err "unexpected signing method"

  claims_of_token : Result String Token → Result String Claims
  claims_of_token (err e) = err e
  claims_of_token (ok token) = elim token.claims [
    | none ↦ if token.valid then err "invalid token claims" else err "invalid token"
    | some claims ↦ if token.valid then ok claims else err "invalid token"
  ]

  unfoldable pub validate_token : AuthService → ℤ → String → Result String Claims
  unfolding claims_of_token
  validate_token s now token_string = claims_of_token (crypto.parse (key_func s) now token_string)

  pub get_user_by_id : Db → String → Result Fault (Option User)
  get_user_by_id db id = Users.find_by_id users db id
