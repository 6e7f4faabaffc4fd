-- ===== src/Storage/Values.antt =====
-- What Redis documents of GET and SET.
use api_gateway.Common.{ℕ, String, Option, none, some, ◌≡◌, ◌⊎◌}
use api_gateway.Storage.{RedisClient, value}

-- The text stored under a key, if any. A call may fail and a key may expire at any time; a SET that
-- fails may have stored its text or not.
pub record Values (redis : RedisClient) : Type 0 where
  pub stored : redis.Store → String → Option String
  pub get_value :
      (s : redis.Store) (key text : String)
      → (redis.get s key).1 ≡ value text
      → stored s key ≡ some text
  pub get_keeps :
      (s : redis.Store) (key : String)
      → (stored (redis.get s key).0 key ≡ stored s key) ⊎ (stored (redis.get s key).0 key ≡ none)
  pub set_stores :
      (s : redis.Store) (key text : String) (duration : ℕ)
      → let s' = (redis.set s key text duration).0 in
        (stored s' key ≡ some text) ⊎ ((stored s' key ≡ stored s key) ⊎ (stored s' key ≡ none))
  pub set_ok :
      (s : redis.Store) (key text : String) (duration : ℕ)
      → (redis.set s key text duration).1 ≡ none
      → stored (redis.set s key text duration).0 key ≡ some text
