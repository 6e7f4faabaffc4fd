-- ===== src/Service/ApiKeys/Cache.antt =====
-- Deleted keys and the cache.
use api_gateway.Common.{
  String, eq_iff, List, [], ◌∷◌, true, Option, none, some, Result, ok, err, ◌≡◌, refl, sym, ◌∙◌,
  subst, ◌≢◌, inl, inr, arith,
}
use api_gateway.Storage.{RedisClient, Reply-cases}
use api_gateway.Storage.Values.{Values}
use api_gateway.Repository.{Found, row, record_not_found, failed, no_row_is_nil}
use api_gateway.Repository.ApiKeys
use api_gateway.Repository.ApiKeys.{ApiKey, Keys, Condition, key_hash_is, id_is, is_active_is}
use api_gateway.Service.ApiKeys.{
  KeyJson, cache_key, cached, remember, validate, invalidate_cache, delete,
}

-- What SQL documents of DELETE and SELECT: no row with the id is left, and a row that is found meets
-- the conditions.
pub record Rows (keys : Keys) : Type 0 where
  pub removed :
      (db : keys.Db) (id : String) (conditions : List Condition) (key : ApiKey)
      → (keys.remove db (id_is id ∷ [])).1 ≡ none
      → keys.first (keys.remove db (id_is id ∷ [])).0 conditions ≡ row key
      → key.id ≢ id

pub row_of_find :
    {Fault : Type 0} (found : Found Fault ApiKey) (key : ApiKey)
    → no_row_is_nil found ≡ ok (some key)
    → found ≡ row key
unfolding no_row_is_nil
row_of_find (row r) key e = cc
row_of_find record_not_found key e = absurd (cc)
row_of_find (failed f) key e = absurd (cc)

module _ (redis : RedisClient) (values : Values redis) (keys : Keys) (json : KeyJson)
    (hash : String → String) where
  open redis use {Store}
  open values use {stored}

  -- With an empty text in the cache, the answer is that of the database.
  pub blank_cached :
      (s : Store) (ck : String)
      → stored s ck ≡ some ""
      → cached redis keys json hash (redis.get s ck).1 ≡ none
  unfolding cached
  blank_cached s ck e = elim (Reply-cases (redis.get s ck).1) [
    | inl q ↦ ground (arith, q)
    | inr (inl (f, q)) ↦ ground (arith, q)
    | inr (inr (text, q)) ↦
        let got = values.get_value s ck text q in
        let blank : text ≡ "" = cc in ground (arith, q, (eq_iff text "").1 blank)
  ]

  remember-found :
      (s : Store) (h : String) (found : Result keys.Fault (Option ApiKey))
      → (remember redis keys json hash s h found).1 ≡ found
  unfolding remember
  remember-found s h (err e) = refl
  remember-found s h (ok none) = refl
  remember-found s h (ok (some key)) = refl

  pub validate_blank :
      (s : Store) (db : keys.Db) (key : String)
      → stored s (cache_key (hash key)) ≡ some ""
      → (validate redis keys json hash s db key).1 ≡ ApiKeys.find_by_hash keys db (hash key)
  unfolding validate
  validate_blank s db key e = rw (blank_cached s (cache_key (hash key)) e) (
      remember-found (redis.get s (cache_key (hash key))).0 (hash key)
        (ApiKeys.find_by_hash keys db (hash key)))

  pub deleted :
      (s : Store) (db : keys.Db) (id key : String) (old : ApiKey)
      → ApiKeys.find_by_id keys db id ≡ ok (some old)
      → old.key_hash ≡ hash key
      → (redis.set s (cache_key (hash key)) "" 0).1 ≡ none
      → invalidate_cache redis keys json hash s db id ≡ (redis.set s (cache_key (hash key)) "" 0).0
  unfolding invalidate_cache
  deleted s db id key old found same set_ = rw (found, same) refl

module _ (redis : RedisClient) (values : Values redis) (keys : Keys) (rows : Rows keys)
    (json : KeyJson) (hash : String → String) where
  open redis use {Store}
  open values use {stored}

  -- If the row that a deletion finds has the hash of the key's text, and its write to the cache and its
  -- query succeed, the validation of that text that follows does not return the deleted row.
  pub validate-delete :
      (s : Store) (db : keys.Db) (id key : String) (old new : ApiKey)
      → ApiKeys.find_by_id keys db id ≡ ok (some old)
      → old.key_hash ≡ hash key
      → (redis.set s (cache_key (hash key)) "" 0).1 ≡ none
      → let (s', (db', failure)) = delete redis keys json hash s db id in
        failure ≡ none → (validate redis keys json hash s' db' key).1 ≡ ok (some new) → new.id ≢ id
  unfolding delete invalidate_cache ApiKeys.delete ApiKeys.find_by_hash
  validate-delete s db id key old new found same set_ done valid =
      let db' = (keys.remove db (id_is id ∷ [])).0 in
      let same_store = deleted redis values keys json hash s db id key old found same set_ in
      let blank =
        subst (λ x. stored x (cache_key (hash key)) ≡ some "") (sym same_store)
          (values.set_ok s (cache_key (hash key)) "" 0 set_) in
      let answer = sym (validate_blank redis values keys json hash _ db' key blank) ∙ valid in
      rows.removed db id (key_hash_is (hash key) ∷ is_active_is true ∷ []) new done
        (row_of_find (keys.first db' (key_hash_is (hash key) ∷ is_active_is true ∷ [])) new answer)
