-- ===== src/Storage/Texts.antt =====
-- A Redis server for the examples that holds texts in memory, which never expire.
use api_gateway.Common.{
  ℤ, String, assign, assign_self, Bool, false, Option, none, some, err, Option-cases, ◌≡◌, refl,
  inl, inr, arith,
}
use api_gateway.Storage.{RedisClient, Reply, nil, value}
use api_gateway.Storage.Values.{Values}

abbrev pub reply_of : Option String → Reply Bool
reply_of none = nil
reply_of (some text) = value text

abbrev pub texts : RedisClient
texts = record {
  Store = String → Option String;
  Fault = Bool;
  Score = ℤ;
  score = λ n. n;
  get = λ s key. (s, reply_of (s key));
  set = λ s key text duration. (assign s key (some text), none);
  incr = λ s key. (s, err false);
  expire = λ s key duration. (s, none);
  exec = λ s commands. (s, err false);
  z_add = λ s key score member. (s, none);
  z_count = λ s key low high. (s, err false);
  z_range = λ s key start stop. (s, err false);
  ping = λ s. (s, none);
}

pub texts_get :
    (s : String → Option String) (key text : String)
    → reply_of (s key) ≡ value text
    → s key ≡ some text
texts_get s key text h = elim (Option-cases (s key)) [
  | inl e ↦ ground (arith, e)
  | inr (a, e) ↦ ground (arith, e)
]

abbrev pub texts_values : Values texts
texts_values = record {
  stored = λ s key. s key;
  get_value = texts_get;
  get_keeps = λ s key. inl refl;
  set_stores = λ s key text duration. inl (assign_self s key (some text));
  set_ok = λ s key text duration done. assign_self s key (some text);
}
