-- ===== src/Service/Auth/Tests.antt =====
-- Examples: one user, a password stored as it is, and one token.
use api_gateway.Common.{
  ℤ, pos, negsuc, ◌<ℤ◌, eq_ℤ, quotient, if◌then◌else◌, String, str_eq, eq_iff, [], ◌∷◌, Bool, true,
  false, ◌&&◌, none, some, Result, ok, err, Bool-cases, ◌≡◌, refl, inl, inr, arith,
}
use api_gateway.Repository.{row, no_row_is_nil}
use api_gateway.Repository.Users
use api_gateway.Repository.Users.{User, Users}
use api_gateway.Service.Auth.{
  AuthService, Crypto, Claims, Token, login, claims_of, validate_token, key_func,
}
use api_gateway.Service.Auth.Sessions.{Verifies, login-validate_token}

abbrev ann : User
ann = record {
  id = "1";
  email = "ann@a.org";
  password_hash = "pw";
  name = "Ann";
  role = "admin";
  created_at = 0;
}

abbrev only_ann : Users
only_ann = record {
  Db = Bool;
  Fault = Bool;
  first = λ db conditions. row ann;
  find_by_created_at_desc = λ db. ok (ann ∷ []);
  insert = λ db user. (db, none);
}

abbrev anns : Claims
anns = record { user_id = "1"; email = "ann@a.org"; role = "admin"; exp = pos 3605; iat = pos 5 }

abbrev same_claims : Claims → Claims → Bool
same_claims c d =
    str_eq c.user_id d.user_id
    && str_eq c.email d.email
    && str_eq c.role d.role
    && eq_ℤ c.exp d.exp
    && eq_ℤ c.iat d.iat

abbrev parse_with : Result String String → Result String Token
parse_with (err e) = err e
parse_with (ok secret) = ok (record { valid = true; claims = some anns })

abbrev one_token : Crypto
one_token = record {
  generate = λ password. ok password;
  compare = str_eq;
  sign = λ secret claims. if same_claims claims anns then ok "token" else err "other claims";
  parse = λ key_of now token. parse_with (key_of true);
}

abbrev service : AuthService
service = record { jwt_secret = "s3cret"; jwt_expiry = pos 3600000000000 }

same_int : (a b : ℤ) → eq_ℤ a b ≡ true → a ≡ b
same_int (pos n) (pos m) h = ground arith
same_int (pos n) (negsuc m) h = ground arith
same_int (negsuc n) (pos m) h = ground arith
same_int (negsuc n) (negsuc m) h = ground arith

same : (c : Claims) → same_claims c anns ≡ true → c ≡ anns
same c h = ground (
  arith,
  h,
  eq_iff c.user_id "1",
  eq_iff c.email "ann@a.org",
  eq_iff c.role "admin",
  same_int c.exp (pos 3605),
  same_int c.iat (pos 5),
)

verifies : Verifies only_ann one_token service (pos 100)
unfolding Verifies key_func
verifies claims token signed fresh = elim (Bool-cases (same_claims claims anns)) [
  | inl e ↦ rw (same claims e) refl
  | inr e ↦ absurd (ground (arith, e, signed))
]

logs_in : login only_ann one_token service false "ann@a.org" "pw" 5000000000 5000000000 ≡ ok "token"
unfolding login claims_of Users.find_by_email no_row_is_nil quotient
logs_in = refl

login-validate_token_example :
    (user : User) × (Users.find_by_email only_ann false "ann@a.org" ≡ ok (some user))
    × (str_eq user.password_hash "pw" ≡ true)
    × (pos 100 <ℤ (claims_of only_ann one_token service user 5000000000 5000000000).exp
        → validate_token only_ann one_token service (pos 100) "token"
          ≡ ok (claims_of only_ann one_token service user 5000000000 5000000000))
login-validate_token_example =
    login-validate_token only_ann one_token service false "ann@a.org" "pw" "token" 5000000000
      5000000000 (pos 100) verifies logs_in
