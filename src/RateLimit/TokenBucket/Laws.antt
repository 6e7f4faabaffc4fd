-- ===== src/RateLimit/TokenBucket/Laws.antt =====
-- What the token bucket relies on: of `float64` arithmetic, of encoding/json, and of the texts that
-- Redis stores.
use api_gateway.Common.{ℕ, ℤ, pos, true, ◌≡◌}
use api_gateway.RateLimit.TokenBucket.{Floats, BucketState, Json}

module _ (floats : Floats) where
  open floats use {Float, of_int, seconds, add, sub, mul, min, le}

  -- IEEE 754 arithmetic with rounding: a float that is at least 0 is a number.
  pub record FloatLaws : Type 0 where
    pub le_trans : (a b c : Float) → le a b ≡ true → le b c ≡ true → le a c ≡ true
    pub of_int_nonneg : (n : ℕ) → le (of_int (pos 0)) (of_int (pos n)) ≡ true
    pub le_refl : (n : ℤ) → le (of_int n) (of_int n) ≡ true
    pub add_nonneg :
        (a b : Float)
        → le (of_int (pos 0)) a ≡ true
        → le (of_int (pos 0)) b ≡ true
        → le (of_int (pos 0)) (add a b) ≡ true
    pub product_nonneg :
        (d r : ℕ) → le (of_int (pos 0)) (mul (seconds (pos d)) (of_int (pos r))) ≡ true
    pub min_nonneg :
        (a b : Float)
        → le (of_int (pos 0)) a ≡ true
        → le (of_int (pos 0)) b ≡ true
        → (le (of_int (pos 0)) (min a b) ≡ true) × (le (min a b) b ≡ true)
    pub sub_one :
        (a : Float)
        → le (of_int (pos 1)) a ≡ true
        → (le (of_int (pos 0)) (sub a (of_int (pos 1))) ≡ true)
          × (le (sub a (of_int (pos 1))) a ≡ true)

-- A state with a number of tokens survives the round trip.
pub record JsonLaws (floats : Floats) (json : Json floats) : Type 0 where
  pub unmarshal-marshal :
      (state : BucketState floats)
      → floats.le (floats.of_int (pos 0)) state.tokens ≡ true
      → json.unmarshal (json.marshal state) ≡ state
