-- ===== src/RateLimit/TokenBucket/Whole.antt =====
-- Whole numbers of tokens in place of `float64`, for the examples.
use Prim.Native.Nat
use api_gateway.Common.{ℕ, ◌+◌, ◌-◌, ◌*◌, ◌/◌, pos, pos_part, leb}
use api_gateway.RateLimit.TokenBucket.{Floats}

abbrev pub whole : Floats
whole = record {
  Float = ℕ;
  of_int = pos_part;
  to_int = λ n. pos n;
  seconds = λ d. pos_part d / 1000000000;
  add = λ a b. a + b;
  sub = λ a b. a - b;
  mul = λ a b. a * b;
  div = λ a b. a / b;
  min = λ a b. Nat.min a b;
  le = leb;
}
