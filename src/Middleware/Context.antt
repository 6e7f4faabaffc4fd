-- ===== src/Middleware/Context.antt =====
-- gin's context, as far as the middleware reads and writes it.
use api_gateway.Common.{ℕ, ℤ, String, List, [], ◌∷◌, Bool, true, false, Option, none, some, ◌≡◌}
use api_gateway.Http.{Request}
use api_gateway.Repository.ApiKeys.{ApiKey}
use api_gateway.Service.Auth.{Claims}

-- What is written to the response: `c.Header`, `c.JSON` by its status, `c.AbortWithStatus`, and
-- what a backend answers, by its status codes.
pub data Call : Type 0 where
  set_header : (name value : String) → Call
  json : (status : ℕ) → Call
  abort_with_status : (status : ℕ) → Call
  relayed : (status_codes : List ℕ) → Call

-- What is printed: the line of the access log, and that of a panic with the request's id.
pub data Line : Type 0 where
  access :
      (request_id method path : String)
      → (status_code : ℕ) → (latency : ℤ) → (client_ip : String) → Line
  panic : (request_id : String) → Line

-- `request_id`, `api_key` and `claims` are what `c.Set` has set: `api_key_id` and `api_key_tier` are
-- those of `api_key`, and `user_id`, `email` and `role` those of `claims`. `last_used` has the ids of
-- the keys for which a goroutine was started that stamps their last use. `world` is the state that
-- the requests share.
pub record Context (World : Type 0) : Type 0 where
  pub request : Request
  pub request_id : Option String
  pub api_key : Option ApiKey
  pub claims : Option Claims
  pub calls : List Call
  pub printed : List Line
  pub last_used : List String
  pub aborted : Bool
  pub world : World

-- A handler returns or panics, and leaves the context as it is by then.
pub data Flow (World : Type 0) : Type 0 where
  done : Context World → Flow World
  panicked : Context World → Flow World

-- A handler, given what `c.Next()` does.
abbrev pub Handler : Type 0 → Type 0
Handler World = (Context World → Flow World) → Context World → Flow World

-- `c.GetString("request_id")`
unfoldable pub get_string : Option String → String
get_string none = ""
get_string (some text) = text

-- A handler that aborts, or panics, or calls `c.Next()` once, whatever the rest of the chain does.
pub data Settles {World : Type 0} (h : Handler World) (c : Context World) : Type 0 where
  aborts :
      (c' : Context World)
      → c'.aborted ≡ true
      → ((next : Context World → Flow World) → h next c ≡ done c')
      → Settles h c
  breaks :
      (c' : Context World)
      → ((next : Context World → Flow World) → h next c ≡ panicked c')
      → Settles h c
  proceeds :
      (c' : Context World) (after : Flow World → Flow World)
      → ((next : Context World → Flow World) → h next c ≡ after (next c'))
      → Settles h c

-- gin, as its documentation has it: `run handlers` is `c.Next()` where those handlers are pending. It
-- executes them inside the handler that calls it, and none of them once the request is aborted.
pub record Gin (World : Type 0) : Type 0 where
  pub run : List (Handler World) → Context World → Flow World
  pub run_aborted :
      (handlers : List (Handler World)) (c : Context World)
      → c.aborted ≡ true
      → run handlers c ≡ done c
  pub run_pending :
      (h : Handler World) (handlers : List (Handler World)) (c : Context World)
      → c.aborted ≡ false
      → Settles h c
      → run (h ∷ handlers) c ≡ h (run handlers) c
  pub run_last :
      (h : Handler World) (c : Context World) → c.aborted ≡ false → run (h ∷ []) c ≡ h done c
