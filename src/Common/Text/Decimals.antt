-- ===== src/Common/Text/Decimals.antt =====
-- What is written in decimal is read back.
use Prim.Native.Char.{Char, code}
use Prim.Native.String
use Prim.Native.String.{String}
use Prim.Native.Nat.{ℕ, zero, suc, ◌+◌, ◌-◌, ◌*◌, ◌/◌, ◌%◌, ◌≤◌, ◌<◌}
use mathlib.Core.Bool.{Bool, ◌&&◌}
use mathlib.Core.Option.{some}
use mathlib.Core.Logic.{inl, inr}
use mathlib.Core.Path.{◌≡◌, refl, ap, ◌∙◌}
use native.Mathlib.Omega.{arith}
use text.Mathlib.TextLemmas.{nil-append, cons-append}
use api_gateway.Common.Tests.{ltb, leb, Bool-cases}
use api_gateway.Common.Int.{pos, max_int}
use api_gateway.Common.Text.{
  digit, decimal_from, decimal, decimal_int, parse_digits, scan_digits, scan_signed, scan_int, atoi,
  clamp, unsigned,
}

parse_digit : (acc d : ℕ) → d < 10 → parse_digits acc (digit d) ≡ some (acc * 10 + d)
unfolding parse_digits digit
parse_digit acc zero h = refl
parse_digit acc (suc zero) h = refl
parse_digit acc (suc (suc zero)) h = refl
parse_digit acc (suc (suc (suc zero))) h = refl
parse_digit acc (suc (suc (suc (suc zero)))) h = refl
parse_digit acc (suc (suc (suc (suc (suc zero))))) h = refl
parse_digit acc (suc (suc (suc (suc (suc (suc zero)))))) h = refl
parse_digit acc (suc (suc (suc (suc (suc (suc (suc zero))))))) h = refl
parse_digit acc (suc (suc (suc (suc (suc (suc (suc (suc zero)))))))) h = refl
parse_digit acc (suc (suc (suc (suc (suc (suc (suc (suc (suc zero))))))))) h = refl
parse_digit acc (suc (suc (suc (suc (suc (suc (suc (suc (suc (suc d)))))))))) h =
    absurd (omega arith)

is_digit : Char → Bool
is_digit c = leb b'0' (code c) && leb (code c) b'9'

-- One more digit at the end.
parse_digits-append :
    (acc m d : ℕ) (s : String)
    → d < 10
    → parse_digits acc s ≡ some m
    → parse_digits acc (String.◌++◌ s (digit d)) ≡ some (m * 10 + d)
unfolding parse_digits is_digit
parse_digits-append acc m d String.[] h e =
    let same : acc ≡ m = cc in
    ap (parse_digits acc) (nil-append (digit d))
    ∙ parse_digit acc d h
    ∙ ap (λ n. some (n * 10 + d)) same
parse_digits-append acc m d (String.◌∷◌ c s) h e =
    ap (parse_digits acc) (cons-append c s (digit d)) ∙ elim (Bool-cases (is_digit c)) [
      | inl y ↦
          rw (y) (parse_digits-append (acc * 10 + (code c - b'0')) m d s h (ground (arith, y, e)))
      | inr n ↦ absurd (ground (arith, n, e))
    ]

-- 10 ^ n
power : ℕ → ℕ
power zero = 1
power (suc n) = 10 * power n

parse_digits-decimal_from :
    (fuel n : ℕ) → n < power fuel → parse_digits 0 (decimal_from fuel n) ≡ some n
unfolding decimal_from power parse_digits
parse_digits-decimal_from zero n h = ap some (omega (arith, h))
parse_digits-decimal_from (suc fuel) n h = elim (Bool-cases (ltb n 10)) [
  | inl y ↦ rw (y) (parse_digit 0 n (ground (arith, y)) ∙ ap some (omega arith))
  | inr o ↦ rw (o) (
      parse_digits-append 0 (n / 10) (n % 10) (decimal_from fuel (n / 10)) (omega arith)
        (parse_digits-decimal_from fuel (n / 10) (omega (arith, h)))
      ∙ ap some (omega arith))
]

parse_digits-decimal : (n : ℕ) → n ≤ suc max_int → parse_digits 0 (decimal n) ≡ some n
unfolding decimal power
parse_digits-decimal n h = parse_digits-decimal_from 20 n (omega (arith, h))

-- What is parsed is scanned.
scan_digits-parse_digits :
    (acc n : ℕ) (s : String) → parse_digits acc s ≡ some n → scan_digits acc s ≡ n
unfolding parse_digits scan_digits is_digit
scan_digits-parse_digits acc n String.[] e = cc
scan_digits-parse_digits acc n (String.◌∷◌ c s) e = elim (Bool-cases (is_digit c)) [
  | inl y ↦
      rw (y) (scan_digits-parse_digits (acc * 10 + (code c - b'0')) n s (ground (arith, y, e)))
  | inr o ↦ absurd (ground (arith, o, e))
]

scan_int-parse_digits :
    (n : ℕ) (s : String) → n ≤ max_int → parse_digits 0 s ≡ some n → scan_int s ≡ pos n
unfolding scan_int scan_signed parse_digits is_digit
scan_int-parse_digits n String.[] h e = cc
scan_int-parse_digits n (String.◌∷◌ c s) h e =
    let scanned = scan_digits-parse_digits 0 n (String.◌∷◌ c s) e in
    elim (Bool-cases (is_digit c)) [
      | inl y ↦ ground (arith, y, h, scanned)
      | inr o ↦ absurd (ground (arith, o, e))
    ]

-- What `fmt.Sprintf("%d")` writes of a number that is not negative is what `fmt.Sscanf` reads.
pub scan_int-decimal_int : (n : ℕ) → n ≤ max_int → scan_int (decimal_int (pos n)) ≡ pos n
unfolding decimal_int
scan_int-decimal_int n h =
    scan_int-parse_digits n (decimal n) h (parse_digits-decimal n (omega (arith, h)))

atoi-parse_digits : (n : ℕ) (s : String) → n ≤ max_int → parse_digits 0 s ≡ some n → atoi s ≡ pos n
unfolding atoi clamp unsigned parse_digits is_digit
atoi-parse_digits n String.[] h e = cc
atoi-parse_digits n (String.◌∷◌ c s) h e = elim (Bool-cases (is_digit c)) [
  | inl y ↦ ground (arith, y, h, e)
  | inr o ↦ absurd (ground (arith, o, e))
]

-- And it is what `strconv.Atoi` reads.
pub atoi-decimal : (n : ℕ) → n ≤ max_int → atoi (decimal n) ≡ pos n
atoi-decimal n h = atoi-parse_digits n (decimal n) h (parse_digits-decimal n (omega (arith, h)))
