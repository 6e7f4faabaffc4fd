-- ===== src/Service/ApiKeys/Revival.antt =====
-- A validation between the two steps of a deletion.
use api_gateway.Common.{ℕ, ◌*◌, String, eq_iff, none, some, ok, ◌≡◌, sym, ◌∙◌, subst, ◌≢◌, arith}
use api_gateway.Storage.{RedisClient, value}
use api_gateway.Storage.Values.{Values}
use api_gateway.RateLimit.FixedWindow.{second}
use api_gateway.Repository.ApiKeys
use api_gateway.Repository.ApiKeys.{ApiKey, Keys}
use api_gateway.Service.ApiKeys.{
  KeyJson, cache_key, cached, validate, invalidate_cache, without_hash,
}
use api_gateway.Service.ApiKeys.Cache.{validate_blank, blank_cached, deleted}

-- What encoding/json makes of a key and back: everything but the hash.
abbrev pub Survives : KeyJson → ApiKey → Type 0
Survives json key =
    (json.marshal key ≢ "") × (json.unmarshal (json.marshal key) ≡ some (without_hash key))

module _ (redis : RedisClient) (values : Values redis) (keys : Keys) (json : KeyJson)
    (hash : String → String) where
  open redis use {Store}
  open values use {stored}

  -- Redis answers every call and no key expires.
  unfoldable pub Answers : Type 0
  Answers =
      ((s : Store) (key text : String)
        → stored s key ≡ some text
        → (redis.get s key).1 ≡ value text)
      × ((s : Store) (key : String) → stored (redis.get s key).0 key ≡ stored s key)
      × ((s : Store) (key text : String) (d : ℕ) → (redis.set s key text d).1 ≡ none)

  -- A validation that asks the database leaves the key in the cache.
  validate_stores :
      (s : Store) (db : keys.Db) (text : String) (key : ApiKey)
      → Answers
      → cached redis keys json hash (redis.get s (cache_key (hash text))).1 ≡ none
      → ApiKeys.find_by_hash keys db (hash text) ≡ ok (some key)
      → stored (validate redis keys json hash s db text).0 (cache_key (hash text))
        ≡ some (json.marshal key)
  unfolding validate Answers
  validate_stores s db text key (alive, keeps, sets) miss found =
      let s1 = (redis.get s (cache_key (hash text))).0 in
      let ck = cache_key (hash text) in
      rw (miss, found)
        (values.set_ok s1 ck (json.marshal key) (300 * second)
          (sets s1 ck (json.marshal key) (300 * second)))

  -- A key in the cache is valid, whatever the database holds.
  validate_cached :
      (s : Store) (db : keys.Db) (text : String) (key : ApiKey)
      → Answers
      → Survives json key
      → stored s (cache_key (hash text)) ≡ some (json.marshal key)
      → (validate redis keys json hash s db text).1 ≡ ok (some (without_hash key))
  unfolding validate cached Answers
  validate_cached s db text key (alive, keeps, sets) (not_blank, trip) e =
      let got = alive s (cache_key (hash text)) (json.marshal key) e in
      ground (arith, got, eq_iff (json.marshal key) "", not_blank, trip)

  -- `Update` and `Delete` invalidate the cache before they write to the database. If a validation of
  -- the key's text comes in between, Redis answers every call and no entry expires, then it finds the
  -- key and caches it, and the next one returns it, without its hash, in whatever state `db'` the
  -- database is by then. The key is active, and survives the round trip through JSON but for its hash.
  pub validate-revival :
      (s : Store) (db db' : keys.Db) (id text : String) (old : ApiKey)
      → Answers
      → Survives json old
      → ApiKeys.find_by_id keys db id ≡ ok (some old)
      → old.key_hash ≡ hash text
      → ApiKeys.find_by_hash keys db (hash text) ≡ ok (some old)
      → let invalidated = invalidate_cache redis keys json hash s db id in
        let between = validate redis keys json hash invalidated db text in
        (between.1 ≡ ok (some old))
        × ((validate redis keys json hash between.0 db' text).1 ≡ ok (some (without_hash old)))
  unfolding Answers
  validate-revival s db db' id text old a trip found same active =
      let (alive, keeps, sets) = a in
      let ck = cache_key (hash text) in
      let s1 = invalidate_cache redis keys json hash s db id in
      let blank : stored s1 ck ≡ some "" =
        subst (λ x. stored x ck ≡ some "")
          (sym (deleted redis values keys json hash s db id text old found same (sets s ck "" 0)))
          (values.set_ok s ck "" 0 (sets s ck "" 0)) in
      let kept =
        validate_stores s1 db text old a (blank_cached redis values keys json hash s1 ck blank)
          active in
      (
        validate_blank redis values keys json hash s1 db text blank ∙ active,
        validate_cached (validate redis keys json hash s1 db text).0 db' text old a trip kept,
      )
