-- ===== src/Middleware/Auth/Tests.antt =====
-- Examples: a service for which the token "t" has one user's claims.
use Prim.Native.String
use api_gateway.Common.{
  pos, if◌then◌else◌, String, str_eq, [], Bool, true, none, some, ok, err, ◌≡◌, refl,
}
use api_gateway.Http.{Request}
use api_gateway.Repository.{record_not_found}
use api_gateway.Repository.Users.{Users}
use api_gateway.Service.Auth.{AuthService, Crypto, Claims, validate_token}
use api_gateway.Middleware.Auth.{authorized, require_auth, split_spaces}
use api_gateway.Middleware.Auth.Bearer.{require_auth-authorized}

abbrev no_users : Users
no_users = record {
  Db = Bool;
  Fault = Bool;
  first = λ db conditions. record_not_found;
  find_by_created_at_desc = λ db. ok [];
  insert = λ db user. (db, none);
}

abbrev anns : Claims
anns = record { user_id = "1"; email = "ann@a.org"; role = "admin"; exp = pos 3605; iat = pos 5 }

abbrev one_token : Crypto
one_token = record {
  generate = λ password. ok password;
  compare = str_eq;
  sign = λ secret claims. ok "t";
  parse = λ key_of now token.
      if str_eq token "t"
      then ok (record { valid = true; claims = some anns })
      else err "malformed";
}

abbrev service : AuthService
service = record { jwt_secret = "s3cret"; jwt_expiry = pos 3600000000000 }

abbrev req : Request
req = record {
  method = "GET";
  path = "/admin/keys";
  url_scheme = "";
  url_host = "";
  host = "gateway";
  headers = λ name. if str_eq name "Authorization" then "Bearer t" else "";
  client_ip = "10.0.0.1";
}

admitted : require_auth no_users one_token service (pos 9) req ≡ authorized anns
unfolding require_auth split_spaces validate_token
admitted = refl

require_auth-authorized_example :
    (token : String) × (req.headers "Authorization" ≡ String.◌++◌ "Bearer " token)
    × (validate_token no_users one_token service (pos 9) token ≡ ok anns)
require_auth-authorized_example =
    require_auth-authorized no_users one_token service (pos 9) req anns admitted
