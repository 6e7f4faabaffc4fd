-- ===== src/Http.antt =====
-- net/http and gin, as far as the gateway reads and writes requests and responses.
use api_gateway.Common.{String}

-- `headers` is `Header.Get` under the canonical names, "" where there is none; `client_ip` is what
-- gin's `ClientIP` makes of the request.
pub record Request : Type 0 where
  pub method : String
  pub path : String
  pub url_scheme : String
  pub url_host : String
  pub host : String
  pub headers : String → String
  pub client_ip : String

pub record Url : Type 0 where
  pub scheme : String
  pub host : String
