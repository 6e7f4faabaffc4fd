-- ===== src/Service/ApiKeys/Tests.antt =====
-- Examples: a table in memory with one key, and a Redis server that holds texts in memory.
use api_gateway.Common.{
  if◌then◌else◌, String, str_eq, eq_iff, List, [], ◌∷◌, length, filter, Bool, true, false, not,
  ◌&&◌, Option, none, some, ok, Bool-cases, ◌≡◌, refl, ◌≢◌, inl, inr, arith,
}
use api_gateway.Storage.Texts.{texts, texts_values}
use api_gateway.Repository.{Found, row, record_not_found, no_row_is_nil}
use api_gateway.Repository.ApiKeys
use api_gateway.Repository.ApiKeys.{
  ApiKey, Keys, Condition, Change, set_tier, set_is_active, set_last_used_at, key_hash_is, id_is,
  tier_is, is_active_is, find_by_hash, find_by_id,
}
use api_gateway.Service.ApiKeys.{
  KeyJson, cache_key, validate, invalidate_cache, delete, update, without_hash,
}
use api_gateway.Service.ApiKeys.Cache.{Rows, validate-delete}
use api_gateway.Service.ApiKeys.Deactivation.{active_entry, Updates, validate-update}
use api_gateway.Service.ApiKeys.Revival.{Answers, validate-revival}

abbrev key_one : ApiKey
key_one = record {
  id = "1";
  key_hash = "h";
  name = "one";
  created_by = "";
  tier = "basic";
  is_active = true;
  created_at = 0;
  last_used_at = none;
}

abbrev meets : ApiKey → Condition → Bool
meets key (key_hash_is h) = str_eq key.key_hash h
meets key (id_is id) = str_eq key.id id
meets key (tier_is tier) = str_eq key.tier tier
meets key (is_active_is b) = if b then key.is_active else not key.is_active

abbrev meets_all : ApiKey → List Condition → Bool
meets_all key [] = true
meets_all key (c ∷ cs) = meets key c && meets_all key cs

abbrev found_in : List ApiKey → List Condition → Found Bool ApiKey
found_in [] cs = record_not_found
found_in (key ∷ rest) cs =
    let others = found_in rest cs in if meets_all key cs then row key else others

abbrev without : String → List ApiKey → List ApiKey
without id keys = filter (λ key. not (str_eq key.id id)) keys

abbrev remove_from : List ApiKey → List Condition → List ApiKey × Option Bool
remove_from keys (id_is id ∷ []) = (without id keys, none)
remove_from keys _ = (keys, some false)

abbrev changed : ApiKey → List Change → ApiKey
changed key [] = key
changed key (set_tier t ∷ rest) = record (changed key rest) { tier = t }
changed key (set_is_active b ∷ rest) = record (changed key rest) { is_active = b }
changed key (set_last_used_at now ∷ rest) = record (changed key rest) { last_used_at = some now }

abbrev update_at : String → List Change → List ApiKey → List ApiKey
update_at id changes [] = []
update_at id changes (key ∷ rest) =
    (if str_eq key.id id then changed key changes else key) ∷ update_at id changes rest

abbrev update_in : List ApiKey → List Condition → List Change → List ApiKey × Option Bool
update_in keys (id_is id ∷ []) changes = (update_at id changes keys, none)
update_in keys _ changes = (keys, some false)

abbrev table : Keys
table = record {
  Db = List ApiKey;
  Fault = Bool;
  first = found_in;
  find_by_created_at_desc = λ db. ok db;
  count = λ db cs. ok (length (filter (λ key. meets_all key cs) db));
  insert = λ db key. (key ∷ db, none);
  updates = update_in;
  remove = remove_from;
}

not_found-id :
    (db : List ApiKey) (id : String) (cs : List Condition) (key : ApiKey)
    → found_in (without id db) cs ≡ row key
    → key.id ≢ id
not_found-id [] id cs key e = absurd (cc)
not_found-id (k ∷ rest) id cs key e = elim (Bool-cases (str_eq k.id id)) [
  | inl same ↦ not_found-id rest id cs key (ground (arith, same, e))
  | inr other ↦ elim (Bool-cases (meets_all k cs)) [
    | inl met ↦ ground (arith, other, met, e, eq_iff k.id id)
    | inr unmet ↦ not_found-id rest id cs key (ground (arith, other, unmet, e))
  ]
]

abbrev table_rows : Rows table
table_rows = record { removed = λ db id cs key done e. not_found-id db id cs key e }

changed-inactive :
    (key : ApiKey) (changes : List Change)
    → active_entry changes ≡ some false
    → (changed key changes).is_active ≡ false
unfolding active_entry
changed-inactive key [] e = absurd (cc)
changed-inactive key (set_tier t ∷ rest) e = changed-inactive key rest e
changed-inactive key (set_is_active b ∷ rest) e = cc
changed-inactive key (set_last_used_at now ∷ rest) e = changed-inactive key rest e

not_found-active :
    (db : List ApiKey) (id h : String) (changes : List Change) (key : ApiKey)
    → active_entry changes ≡ some false
    → found_in (update_at id changes db) (key_hash_is h ∷ is_active_is true ∷ []) ≡ row key
    → key.id ≢ id
not_found-active [] id h changes key off e = absurd (cc)
not_found-active (k ∷ rest) id h changes key off e = elim (Bool-cases (str_eq k.id id)) [
  | inl same ↦
      let inactive = changed-inactive k changes off in
      elim (Bool-cases (str_eq (changed k changes).key_hash h)) [
        | inl met ↦
            not_found-active rest id h changes key off (ground (arith, same, met, inactive, e))
        | inr unmet ↦ not_found-active rest id h changes key off (ground (arith, same, unmet, e))
      ]
  | inr other ↦ elim (Bool-cases (meets_all k (key_hash_is h ∷ is_active_is true ∷ []))) [
    | inl met ↦ ground (arith, other, met, e, eq_iff k.id id)
    | inr unmet ↦ not_found-active rest id h changes key off (ground (arith, other, unmet, e))
  ]
]

abbrev table_updates : Updates table
table_updates = record {
  deactivated = λ db id h changes key off done e. not_found-active db id h changes key off e;
}

abbrev fixed : KeyJson
fixed = record {
  marshal = λ key. "one";
  unmarshal = λ text. if str_eq text "one" then some (without_hash key_one) else none;
}

abbrev hash : String → String
hash text = "h"

abbrev empty : String → Option String
empty key = none

found_one : find_by_id table (key_one ∷ []) "1" ≡ ok (some key_one)
unfolding find_by_id no_row_is_nil
found_one = refl

active_one : find_by_hash table (key_one ∷ []) "h" ≡ ok (some key_one)
unfolding find_by_hash no_row_is_nil
active_one = refl

abbrev two : ApiKey
two = record key_one { id = "2" }

abbrev twins : List ApiKey
twins = key_one ∷ two ∷ []

-- A table whose two keys have one hash, which shows what a validation finds after a deletion.
deleted_valid :
    (validate texts table fixed hash
      (delete texts table fixed hash empty twins "1").0
      (two ∷ [])
      "k").1
    ≡ ok (some two)
unfolding validate delete invalidate_cache find_by_hash find_by_id no_row_is_nil cache_key
deleted_valid = refl

validate-delete_example : two.id ≢ key_one.id
unfolding find_by_id delete ApiKeys.delete no_row_is_nil
validate-delete_example =
    validate-delete texts texts_values table table_rows fixed hash empty twins "1" "k" key_one two
      refl refl refl refl deleted_valid

abbrev deactivation : List Change
deactivation = set_tier "premium" ∷ set_is_active false ∷ []

updated_valid :
    (validate texts table fixed hash
      (update texts table fixed hash empty twins "1" deactivation).0
      (update texts table fixed hash empty twins "1" deactivation).1.0
      "k").1
    ≡ ok (some two)
unfolding validate update ApiKeys.update invalidate_cache find_by_hash find_by_id no_row_is_nil
    cache_key
updated_valid = refl

validate-update_example : two.id ≢ key_one.id
unfolding find_by_id update ApiKeys.update no_row_is_nil active_entry
validate-update_example =
    validate-update texts texts_values table table_updates fixed hash empty twins "1" "k" key_one
      two deactivation refl refl (λ t. refl) refl refl updated_valid

validate-revival_example :
    let invalidated = invalidate_cache texts table fixed hash empty (key_one ∷ []) "1" in
    let between = validate texts table fixed hash invalidated (key_one ∷ []) "k" in
    (between.1 ≡ ok (some key_one))
    × ((validate texts table fixed hash between.0 [] "k").1 ≡ ok (some (without_hash key_one)))
unfolding Answers
validate-revival_example =
    validate-revival texts texts_values table fixed hash empty (key_one ∷ []) [] "1" "k" key_one
      (λ s key text e. rw (e) refl, λ s key. refl, λ s key text d. refl)
      (ground (arith, eq_iff "one" ""), refl) found_one refl active_one
