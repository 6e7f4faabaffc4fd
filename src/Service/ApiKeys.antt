-- ===== src/Service/ApiKeys.antt =====
-- internal/service/apikey.go. The parameters are Redis, the table of keys, SHA-256 in hexadecimal, and
-- encoding/json.
pub mod Cache
pub mod Deactivation
pub mod Revival
mod Tests
use Prim.Native.String
use api_gateway.Common.{
  ℕ, ◌*◌, if◌then◌else◌, String, str_eq, List, [], ◌∷◌, Bool, true, false, Option, none, some,
  Result, ok, err,
}
use api_gateway.Storage.{RedisClient, Reply, value}
use api_gateway.RateLimit.FixedWindow.{second}
use api_gateway.Repository.ApiKeys
use api_gateway.Repository.ApiKeys.{ApiKey, Keys, Change, set_tier, set_is_active}

-- `unmarshal` fails on a text that is no key. The hash of a key has the tag `json:"-"`.
pub record KeyJson : Type 0 where
  pub marshal : ApiKey → String
  pub unmarshal : String → Option ApiKey

-- What is left of a key in the cache.
abbrev pub without_hash : ApiKey → ApiKey
without_hash key = record key { key_hash = "" }

unfoldable pub cache_key : String → String
cache_key key_hash = String.◌++◌ "apikey:cache:" key_hash

has_tier : List Change → Bool
has_tier [] = false
has_tier (set_tier tier ∷ rest) = true
has_tier (_ ∷ rest) = has_tier rest

unfoldable has_active : List Change → Bool
has_active [] = false
has_active (set_is_active b ∷ rest) = true
has_active (_ ∷ rest) = has_active rest

module _ (redis : RedisClient) (keys : Keys) (json : KeyJson) (hash : String → String) where
  open redis use {Store}
  open keys use {Db}

  -- A key of 32 random bytes in base 64, or the failure to read them; `new_id` is the new row's id.
  create_with :
      Db
      → Option String
      → (name created_by tier new_id : String) → Db × Result (Option keys.Fault) String
  create_with db none name created_by tier new_id = (db, err none)
  create_with db (some encoded) name created_by tier new_id =
      let key = String.◌++◌ "gw_" encoded in
      let (db', fault_) = ApiKeys.create keys db new_id (record {
        id = "";
        key_hash = hash key;
        name = name;
        created_by = created_by;
        tier = tier;
        is_active = true;
        created_at = 0;
        last_used_at = none;
      }) in
      elim fault_ [ none ↦ (db', ok key) | some e ↦ (db', err (some e)) ]

  pub create :
      Db
      → Option String
      → (name created_by tier new_id : String) → Db × Result (Option keys.Fault) String
  unfolding create_with
  create db random name created_by tier new_id = create_with db random name created_by tier new_id

  -- A hit is a text that is not empty and decodes.
  pub cached : Reply redis.Fault → Option ApiKey
  cached (value text) = if str_eq text "" then none else json.unmarshal text
  cached _ = none

  -- What the database finds is cached for five minutes.
  remember :
      Store → String → Result keys.Fault (Option ApiKey) → Store × Result keys.Fault (Option ApiKey)
  remember s key_hash (err e) = (s, err e)
  remember s key_hash (ok none) = (s, ok none)
  remember s key_hash (ok (some key)) =
      ((redis.set s (cache_key key_hash) (json.marshal key) (300 * second)).0, ok (some key))

  look_up : Store → Db → String → Option ApiKey → Store × Result keys.Fault (Option ApiKey)
  look_up s db key_hash (some key) = (s, ok (some key))
  look_up s db key_hash none = remember s key_hash (ApiKeys.find_by_hash keys db key_hash)

  unfoldable pub validate : Store → Db → String → Store × Result keys.Fault (Option ApiKey)
  unfolding look_up remember cached
  validate s db key =
      let key_hash = hash key in
      let (s', reply) = redis.get s (cache_key key_hash) in look_up s' db key_hash (cached reply)

  forget : Store → Result keys.Fault (Option ApiKey) → Store
  forget s (ok (some key)) = (redis.set s (cache_key key.key_hash) "" 0).0
  forget s _ = s

  unfoldable pub invalidate_cache : Store → Db → String → Store
  unfolding forget
  invalidate_cache s db id = forget s (ApiKeys.find_by_id keys db id)

  unfoldable pub update : Store → Db → String → List Change → Store × (Db × Option keys.Fault)
  unfolding has_tier has_active
  update s db id changes =
      let s1 = if has_tier changes then invalidate_cache s db id else s in
      let s2 = if has_active changes then invalidate_cache s1 db id else s1 in
      (s2, ApiKeys.update keys db id changes)

  unfoldable pub delete : Store → Db → String → Store × (Db × Option keys.Fault)
  delete s db id = (invalidate_cache s db id, ApiKeys.delete keys db id)

  pub get : Db → String → Result keys.Fault (Option ApiKey)
  get db id = ApiKeys.find_by_id keys db id

  pub list : Db → Result keys.Fault (List ApiKey)
  list db = ApiKeys.list keys db

  pub update_last_used : Db → String → ℕ → Db
  update_last_used db id now = (ApiKeys.update_last_used keys db id now).0
