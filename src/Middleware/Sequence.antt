-- ===== src/Middleware/Sequence.antt =====
-- Handlers in sequence, as a `Gin` for the examples, and requests and parts for them.
use api_gateway.Common.{
  ℕ, suc, if◌then◌else◌, String, str_eq, List, [], ◌∷◌, Bool, true, false, none, ok, ◌≡◌, refl,
}
use api_gateway.Http.{Request}
use api_gateway.Middleware.Tiers.{RateHeaders, passes}
use api_gateway.Middleware.Chain.{Parts}
use api_gateway.Middleware.Context.{Context, Flow, done, Handler, Gin}

module _ {World : Type 0} where
  abbrev pub run : List (Handler World) → Context World → Flow World
  run [] c = done c
  run (h ∷ hs) c = let rest = h (run hs) c in if c.aborted then done c else rest

  pub run_aborted :
      (handlers : List (Handler World)) (c : Context World)
      → c.aborted ≡ true
      → run handlers c ≡ done c
  run_aborted [] c e = refl
  run_aborted (h ∷ hs) c e = rw (e) refl

abbrev pub sequence : (World : Type 0) → Gin World
sequence World = record {
  run = run;
  run_aborted = run_aborted;
  run_pending = λ h handlers c e settles. rw (e) refl;
  run_last = λ h c e. rw (e) refl;
}

-- Parts whose state counts the entries of the log, with no key valid and no request limited.
abbrev pub allowed : RateHeaders
allowed = record { limit = "60"; remaining = "59"; reset = "120"; tier = "basic" }

abbrev pub counting : Parts ℕ
counting = record {
  Fault = Bool;
  new_uuid = "u-1";
  status = λ calls. 200;
  enqueue = λ n entry. suc n;
  validate = λ n key. (n, ok none);
  trim_space = λ text. text;
  limit = λ n req key. (n, passes allowed);
  logger_start = 1;
  logger_end = 9;
  log_start = 2;
  log_end = 8;
}

abbrev pub request_for : (path authorization : String) → Request
request_for path authorization = record {
  method = "GET";
  path = path;
  url_scheme = "";
  url_host = "";
  host = "gateway";
  headers = λ name. if str_eq name "Authorization" then authorization else "";
  client_ip = "10.0.0.1";
}

-- A request that no handler has seen.
abbrev pub unseen : {World : Type 0} → World → Request → Context World
unseen world req = record {
  request = req;
  request_id = none;
  api_key = none;
  claims = none;
  calls = [];
  printed = [];
  last_used = [];
  aborted = false;
  world = world;
}
