-- ===== src/Service/Auth/Sessions.antt =====
-- From the login to the claims of a later request.
use api_gateway.Common.{
  ℕ, ℤ, ◌<ℤ◌, String, true, Option, none, some, Result, ok, err, Bool-cases, Result-cases, ◌≡◌,
  refl, inl, inr, arith,
}
use api_gateway.Repository.Users
use api_gateway.Repository.Users.{User, Users}
use api_gateway.Service.Auth.{
  AuthService, Crypto, Claims, login, login_as, sign_token, claims_of, claims_of_token,
  validate_token, key_func,
}

-- What the JWT library documents: before it expires, a token signed with a secret parses, with that
-- secret, as valid and with its claims.
unfoldable pub Verifies : Users → Crypto → AuthService → ℤ → Type 0
Verifies users crypto s now =
    (claims : Claims) (token : String)
    → crypto.sign s.jwt_secret claims ≡ ok token
    → now <ℤ claims.exp
    → crypto.parse (key_func users crypto s) now token
      ≡ ok (record { valid = true; claims = some claims })

module _ (users : Users) (crypto : Crypto) where
  open users use {Db, Fault}

  login_as-user :
      (s : AuthService) (password token : String) (now later : ℕ)
      (found : Result Fault (Option User))
      → login_as users crypto s password now later found ≡ ok token
      → (user : User) × (found ≡ ok (some user))
        × (crypto.compare user.password_hash password ≡ true)
        × (crypto.sign s.jwt_secret (claims_of users crypto s user now later) ≡ ok token)
  unfolding login_as sign_token
  login_as-user s password token now later (err e) h = absurd (cc)
  login_as-user s password token now later (ok none) h = absurd (cc)
  login_as-user s password token now later (ok (some user)) h =
      elim (Bool-cases (crypto.compare user.password_hash password)) [
        | inr wrong ↦ absurd (ground (arith, wrong, h))
        | inl right ↦
            elim (Result-cases
              (crypto.sign s.jwt_secret (claims_of users crypto s user now later))) [
                | inl (e, q) ↦ absurd (ground (arith, right, q, h))
                | inr (t, q) ↦ (user, refl, right, ground (arith, right, q, h))
              ]
      ]

  -- Who logs in has given the password of the user with that email, and until the token expires it
  -- validates with the id, the email and the role of that user.
  pub login-validate_token :
      (s : AuthService) (db : Db) (email password token : String) (now later : ℕ) (then_ : ℤ)
      → Verifies users crypto s then_
      → login users crypto s db email password now later ≡ ok token
      → (user : User) × (Users.find_by_email users db email ≡ ok (some user))
        × (crypto.compare user.password_hash password ≡ true)
        × (then_ <ℤ (claims_of users crypto s user now later).exp
            → validate_token users crypto s then_ token
              ≡ ok (claims_of users crypto s user now later))
  unfolding login validate_token claims_of_token Verifies
  login-validate_token s db email password token now later then_ verifies h =
      let (user, found, right, signed) =
        login_as-user s password token now later (Users.find_by_email users db email) h in
      (
        user,
        found,
        right,
        λ fresh. rw (verifies (claims_of users crypto s user now later) token signed fresh) refl,
      )
