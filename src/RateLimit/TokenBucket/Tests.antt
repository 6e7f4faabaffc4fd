-- ===== src/RateLimit/TokenBucket/Tests.antt =====
-- Examples: whole numbers of tokens in place of `float64`, and states written in unary.
use Prim.Native.Nat
use Prim.Native.Char.{code}
use api_gateway.Common.{
  ℕ, zero, suc, ◌+◌, ◌-◌, ◌*◌, ◌/◌, pos, pos_part, leb, ◌==◌, if◌then◌else◌, String, true, none,
  ◌≡◌, refl, ap, arith,
}
use api_gateway.RateLimit.TokenBucket.{BucketState, Json, TokenBucket, Instants, allow, bucket_key}
use api_gateway.Storage.Texts.{texts, texts_values}
use api_gateway.RateLimit.TokenBucket.Whole.{whole}
use api_gateway.RateLimit.TokenBucket.Laws.{FloatLaws, JsonLaws}
use api_gateway.RateLimit.TokenBucket.Bounded.{Holds, allow-Holds}

whole_trans : (a b c : ℕ) → leb a b ≡ true → leb b c ≡ true → leb a c ≡ true
whole_trans a b c h k = ground arith

whole_nonneg : (a : ℕ) → leb 0 a ≡ true
whole_nonneg a = ground arith

whole_refl : (a : ℕ) → leb a a ≡ true
whole_refl a = ground arith

whole_min : (a b : ℕ) → leb (Nat.min a b) b ≡ true
whole_min a b = ground arith

whole_sub : (a : ℕ) → leb (a - 1) a ≡ true
whole_sub a = ground arith

abbrev whole_laws : FloatLaws whole
whole_laws = record {
  le_trans = whole_trans;
  of_int_nonneg = whole_nonneg;
  le_refl = λ n. whole_refl (pos_part n);
  add_nonneg = λ a b h k. whole_nonneg (a + b);
  product_nonneg = λ d r. whole_nonneg (d / 1000000000 * r);
  min_nonneg = λ a b h k. (whole_nonneg (Nat.min a b), whole_min a b);
  sub_one = λ a h. (whole_nonneg (a - 1), whole_sub a);
}

-- As many ones, before a text.
ones : ℕ → String → String
ones zero s = s
ones (suc n) s = String.◌∷◌ "1" (ones n s)

-- The ones that a text begins with, and what follows the sign after them.
count_ones : String → ℕ × String
count_ones String.[] = (0, "")
count_ones (String.◌∷◌ c s) =
    let rest = count_ones s in if code c == 49 then (suc rest.0, rest.1) else (0, s)

count_ones-ones : (n : ℕ) (s : String) → count_ones (ones n (String.◌∷◌ "," s)) ≡ (n, s)
unfolding ones count_ones
count_ones-ones zero s = refl
count_ones-ones (suc n) s = ap (λ r. (suc r.0, r.1)) (count_ones-ones n s)

abbrev unary : Json whole
unary = record {
  marshal = λ state. ones state.tokens (String.◌∷◌ "," (ones state.last_refill ","));
  unmarshal = λ text.
      let (n, rest) = count_ones text in record { tokens = n; last_refill = (count_ones rest).0 };
}

unary_trip : (state : BucketState whole) → unary.unmarshal (unary.marshal state) ≡ state
unary_trip state = rw (
  count_ones-ones state.tokens (ones state.last_refill ","),
  count_ones-ones state.last_refill "",
)

abbrev unary_laws : JsonLaws whole unary
unary_laws = record { unmarshal-marshal = λ state h. unary_trip state }

abbrev bucket : TokenBucket
bucket = record { capacity = pos 5; refill_rate = pos 1; refill_every = 1000000000 }

abbrev at_seven : Instants whole unary texts
at_seven = record { initial = 7; now = 8 }

allow-Holds_example :
    Holds whole whole_laws unary unary_laws texts texts_values 5 8
      ((allow whole unary texts bucket (λ key. none) at_seven "k").0 (bucket_key "k"))
unfolding Holds
allow-Holds_example =
    allow-Holds whole whole_laws unary unary_laws texts texts_values bucket 5 1 0 at_seven
      (λ key. none) "k" refl refl (omega arith) (omega arith) tt
