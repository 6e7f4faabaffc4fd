-- ===== src/RateLimit/TokenBucket/Bounded.antt =====
-- The tokens of a bucket stay between 0 and its capacity.
use api_gateway.Common.{
  ℕ, ◌-◌, ◌*◌, ◌≤◌, pos, max_int, elapsed, leb, String, true, Option, none, some, Bool-cases, ◌≡◌,
  sym, subst, ◌⊎◌, inl, inr, arith,
}
use api_gateway.RateLimit.FixedWindow.{second}
use api_gateway.Storage.{RedisClient, Reply-cases}
use api_gateway.RateLimit.TokenBucket.{
  Floats, BucketState, Json, TokenBucket, Instants, refill, consume, allow, allow_from, bucket_key,
}
use api_gateway.Storage.Values.{Values}
use api_gateway.RateLimit.TokenBucket.Laws.{FloatLaws, JsonLaws}

elapsed_pos : (now last : ℕ) → last ≤ now → (d : ℕ) × (elapsed now last ≡ pos d)
unfolding elapsed
elapsed_pos now last h = elim (Bool-cases (leb max_int (now - last))) [
  | inl e ↦ (max_int, ground (arith, e))
  | inr e ↦ (now - last, ground (arith, e))
]

module _ (floats : Floats) (float_laws : FloatLaws floats) where
  open floats use {Float, of_int, le}
  open float_laws use {
    le_trans, of_int_nonneg, le_refl, add_nonneg, product_nonneg, min_nonneg, sub_one,
  }

  -- A state of a bucket of capacity `c` that was written by `last`.
  unfoldable pub Bounded : ℕ → ℕ → BucketState floats → Type 0
  Bounded c last state =
      (le (of_int (pos 0)) state.tokens ≡ true)
      × (le state.tokens (of_int (pos c)) ≡ true)
      × (state.last_refill ≤ last)

  refill-Bounded :
      (t : TokenBucket) (c r last now : ℕ) (state : BucketState floats)
      → t.capacity ≡ pos c
      → t.refill_rate ≡ pos r
      → last ≤ now
      → Bounded c last state
      → Bounded c now (refill floats t state now)
  unfolding refill Bounded
  refill-Bounded t c r last now state ec er le_now (nonneg, capped, early) =
      let (d, passed) = elapsed_pos now state.last_refill (omega arith) in
      let added = floats.add state.tokens (floats.mul (floats.seconds (pos d)) (of_int (pos r))) in
      let grown =
        add_nonneg state.tokens (floats.mul (floats.seconds (pos d)) (of_int (pos r))) nonneg
          (product_nonneg d r) in
      ground (arith, ec, er, passed, min_nonneg added (of_int (pos c)) grown (of_int_nonneg c))

  -- One request's part of the bucket: what is left is within the bounds, whether it was let through or
  -- not.
  consume-Bounded :
      (c now : ℕ) (state : BucketState floats)
      → Bounded c now state
      → Bounded c now (consume floats state).1
  unfolding consume Bounded
  consume-Bounded c now state (nonneg, capped, early) =
      elim (Bool-cases (le (of_int (pos 1)) state.tokens)) [
        | inl e ↦
            let (rest, less) = sub_one state.tokens e in
            ground (
              arith,
              e,
              rest,
              le_trans (floats.sub state.tokens (of_int (pos 1))) state.tokens (of_int (pos c)) less
                  capped,
            )
        | inr e ↦ ground (arith, e)
      ]

  module _ (json : Json floats) (json_laws : JsonLaws floats json) (redis : RedisClient)
      (values : Values redis) where
    open redis use {Store, Fault}
    open values use {stored, get_value, get_keeps, set_stores}

    -- What is stored, if anything, is the state of a bucket of capacity `c`, written by `last`.
    unfoldable pub Holds : ℕ → ℕ → Option String → Type 0
    Holds c last none = Unit
    Holds c last (some text) = Bounded c last (json.unmarshal text)

    Holds-later : (c last now : ℕ) (o : Option String) → last ≤ now → Holds c last o → Holds c now o
    unfolding Holds Bounded
    Holds-later c last now none h held = tt
    Holds-later c last now (some text) h (nonneg, capped, early) = (nonneg, capped, omega arith)

    Holds-or_none :
        (c last : ℕ) (o o' : Option String)
        → (o' ≡ o) ⊎ (o' ≡ none)
        → Holds c last o
        → Holds c last o'
    unfolding Holds
    Holds-or_none c last o o' (inl e) held = subst (Holds c last) (sym e) held
    Holds-or_none c last o o' (inr e) held = subst (Holds c last) (sym e) tt

    Holds-marshal :
        (c now : ℕ) (state : BucketState floats)
        → Bounded c now state
        → Holds c now (some (json.marshal state))
    unfolding Holds Bounded
    Holds-marshal c now state b =
        subst (Bounded c now) (sym (json_laws.unmarshal-marshal state b.0)) b

    Holds-set :
        (c now duration : ℕ) (s : Store) (key : String) (state : BucketState floats)
        → Bounded c now state
        → Holds c now (stored s key)
        → Holds c now (stored (redis.set s key (json.marshal state) duration).0 key)
    Holds-set c now duration s key state b held =
        elim (set_stores s key (json.marshal state) duration) [
          | inl e ↦ subst (Holds c now) (sym e) (Holds-marshal c now state b)
          | inr kept ↦ Holds-or_none c now (stored s key) _ kept held
        ]

    full_Bounded :
        (c now : ℕ) → Bounded c now (record { tokens = of_int (pos c); last_refill = now })
    unfolding Bounded
    full_Bounded c now = (of_int_nonneg c, le_refl (pos c), omega arith)

    save_from :
        (t : TokenBucket) (c r last : ℕ) (at : Instants floats json redis) (s : Store) (k : String)
        (state : BucketState floats)
        → t.capacity ≡ pos c
        → t.refill_rate ≡ pos r
        → last ≤ at.now
        → Bounded c last state
        → Holds c at.now (stored s k)
        → Holds c at.now (stored (allow_from floats json redis t s at k state).0 k)
    save_from t c r last at s k state ec er h b later =
        let refilled = refill floats t state at.now in
        Holds-set c at.now (3600 * second) s k (consume floats refilled).1
          (consume-Bounded c at.now refilled (refill-Bounded t c r last at.now state ec er h b))
          later

    -- If what is stored is nothing or a bucket within its bounds, so is what a request leaves, whether it
    -- is let through or not, with calls that fail and keys that expire; for a capacity and a rate that
    -- are not negative, and a clock that does not go back.
    pub allow-Holds :
        (t : TokenBucket) (c r last : ℕ) (at : Instants floats json redis) (s : Store)
        (key : String)
        → t.capacity ≡ pos c
        → t.refill_rate ≡ pos r
        → last ≤ at.initial
        → at.initial ≤ at.now
        → Holds c last (stored s (bucket_key key))
        → Holds c at.now (stored (allow floats json redis t s at key).0 (bucket_key key))
    unfolding allow Bounded Holds
    allow-Holds t c r last at s key ec er h1 h2 held =
        let k = bucket_key key in
        let s1 = (redis.get s k).0 in
        let kept = Holds-or_none c last (stored s k) (stored s1 k) (get_keeps s k) held in
        let later = Holds-later c last at.now (stored s1 k) (omega arith) kept in
        elim (Reply-cases (redis.get s k).1) [
          | inl e ↦
              let full : BucketState floats = record {
                tokens = of_int (pos c);
                last_refill = at.initial;
              } in
              ground (
                arith,
                e,
                ec,
                save_from t c r at.initial at s1 k full ec er h2 (full_Bounded c at.initial) later,
              )
          | inr (inl (f, e)) ↦ ground (arith, e, later)
          | inr (inr (text, e)) ↦
              let found = subst (Holds c last) (get_value s k text e) held in
              ground (
                arith,
                e,
                save_from t c r last at s1 k (json.unmarshal text) ec er (omega arith) found later,
              )
        ]
