-- ===== src/Service/ApiKeys/Deactivation.antt =====
-- Updates that set `is_active` to false, and the cache.
use api_gateway.Common.{
  String, List, [], ◌∷◌, Bool, true, false, if◌then◌else◌, Option, none, some, ok, ◌≡◌, refl, sym,
  ◌∙◌, subst, ◌≢◌,
}
use api_gateway.Storage.{RedisClient}
use api_gateway.Storage.Values.{Values}
use api_gateway.Repository.{row}
use api_gateway.Repository.ApiKeys
use api_gateway.Repository.ApiKeys.{
  ApiKey, Keys, Change, set_is_active, key_hash_is, id_is, is_active_is,
}
use api_gateway.Service.ApiKeys.{
  KeyJson, cache_key, has_active, has_tier, validate, invalidate_cache, update,
}
use api_gateway.Service.ApiKeys.Cache.{row_of_find, validate_blank, deleted}

-- The value that a map of updates has at "is_active".
unfoldable pub active_entry : List Change → Option Bool
active_entry [] = none
active_entry (set_is_active b ∷ rest) = some b
active_entry (_ ∷ rest) = active_entry rest

-- What SQL documents of UPDATE and SELECT: a row with the id is not active after an update that says
-- so, and a row that is found is active where the query asks for it.
pub record Updates (keys : Keys) : Type 0 where
  pub deactivated :
      (db : keys.Db) (id h : String) (changes : List Change) (key : ApiKey)
      → active_entry changes ≡ some false
      → (keys.updates db (id_is id ∷ []) changes).1 ≡ none
      → keys.first
          (keys.updates db (id_is id ∷ []) changes).0
          (key_hash_is h ∷ is_active_is true ∷ [])
        ≡ row key
      → key.id ≢ id

active_entry-has_active :
    (changes : List Change) (b : Bool) → active_entry changes ≡ some b → has_active changes ≡ true
unfolding active_entry has_active
active_entry-has_active [] b e = absurd (cc)
active_entry-has_active (set_is_active x ∷ rest) b e = refl
active_entry-has_active (ApiKeys.set_tier t ∷ rest) b e = active_entry-has_active rest b e
active_entry-has_active (ApiKeys.set_last_used_at t ∷ rest) b e = active_entry-has_active rest b e

module _ (redis : RedisClient) (values : Values redis) (keys : Keys) (updates : Updates keys)
    (json : KeyJson) (hash : String → String) where
  open redis use {Store}
  open values use {stored}

  update-stored :
      (s : Store) (db : keys.Db) (id key : String) (old : ApiKey) (changes : List Change)
      → ApiKeys.find_by_id keys db id ≡ ok (some old)
      → old.key_hash ≡ hash key
      → ((t : Store) → (redis.set t (cache_key (hash key)) "" 0).1 ≡ none)
      → active_entry changes ≡ some false
      → stored (update redis keys json hash s db id changes).0 (cache_key (hash key)) ≡ some ""
  unfolding update
  update-stored s db id key old changes found same sets off =
      let ck = cache_key (hash key) in
      let s1 = if has_tier changes then invalidate_cache redis keys json hash s db id else s in
      rw (active_entry-has_active changes false off) (
        subst (λ x. stored x ck ≡ some "")
          (sym (deleted redis values keys json hash s1 db id key old found same (sets s1)))
          (values.set_ok s1 ck "" 0 (sets s1)))

  -- If the row that an update finds has the hash of the key's text, the update sets `is_active` to
  -- false, Redis takes the empty text at the key's entry, and the query succeeds, the validation of that
  -- text that follows does not return the row.
  pub validate-update :
      (s : Store) (db : keys.Db) (id key : String) (old new : ApiKey) (changes : List Change)
      → ApiKeys.find_by_id keys db id ≡ ok (some old)
      → old.key_hash ≡ hash key
      → ((t : Store) → (redis.set t (cache_key (hash key)) "" 0).1 ≡ none)
      → active_entry changes ≡ some false
      → let (s', (db', failure)) = update redis keys json hash s db id changes in
        failure ≡ none → (validate redis keys json hash s' db' key).1 ≡ ok (some new) → new.id ≢ id
  unfolding update ApiKeys.update ApiKeys.find_by_hash
  validate-update s db id key old new changes found same sets off done valid =
      let db' = (keys.updates db (id_is id ∷ []) changes).0 in
      let blank = update-stored s db id key old changes found same sets off in
      let answer = sym (validate_blank redis values keys json hash _ db' key blank) ∙ valid in
      updates.deactivated db id (hash key) changes new off done
        (row_of_find (keys.first db' (key_hash_is (hash key) ∷ is_active_is true ∷ [])) new answer)
