-- ===== src/Common/Int.antt =====
-- Go's `int` and `int64`: signed integers with the wrap-around of 64 bits.
use Prim.Native.Nat.{ℕ, zero, suc, ◌+◌, ◌-◌, ◌*◌, ◌%◌, ◌/◌, ◌≤◌, ◌<◌}
use mathlib.Core.Path.{◌≡◌, refl}
use mathlib.Core.Bool.{Bool}
use native.Mathlib.Omega.{arith}
use api_gateway.Common.Tests.{ltb, leb, ◌==◌, if◌then◌else◌}

-- `negsuc n` is -(n + 1).
pub data ℤ : Type 0 where
  pos : ℕ → ℤ
  negsuc : ℕ → ℤ

abbrev pub pos_part : ℤ → ℕ
pos_part (pos n) = n
pos_part (negsuc n) = 0

abbrev pub neg_part : ℤ → ℕ
neg_part (pos n) = 0
neg_part (negsuc n) = suc n

-- a - b, as an integer.
abbrev pub sub_ℕ : ℕ → ℕ → ℤ
sub_ℕ a b = if leb b a then pos (a - b) else negsuc (b - a - 1)

infix 50 ◌≤ℤ◌ ◌<ℤ◌
abbrev pub ◌≤ℤ◌ : ℤ → ℤ → Type 0
a ≤ℤ b = pos_part a + neg_part b ≤ pos_part b + neg_part a

abbrev pub ◌<ℤ◌ : ℤ → ℤ → Type 0
a <ℤ b = pos_part a + neg_part b < pos_part b + neg_part a

abbrev pub ltb_ℤ : ℤ → ℤ → Bool
ltb_ℤ a b = ltb (pos_part a + neg_part b) (pos_part b + neg_part a)

abbrev pub leb_ℤ : ℤ → ℤ → Bool
leb_ℤ a b = leb (pos_part a + neg_part b) (pos_part b + neg_part a)

abbrev pub eq_ℤ : ℤ → ℤ → Bool
eq_ℤ a b = pos_part a + neg_part b == pos_part b + neg_part a

-- The largest `int`, 2 ^ 63 - 1.
abbrev pub max_int : ℕ
max_int = 9223372036854775807

-- The `int` with the same 64 bits, for an integer in the range of a sum or difference of two.
abbrev pub wrap_int : ℤ → ℤ
wrap_int (pos n) = if leb n max_int then pos n else sub_ℕ n 18446744073709551616
wrap_int (negsuc n) = if leb n max_int then negsuc n else pos (18446744073709551615 - n)

-- `a - b` of two `int`s.
abbrev pub minus_int : ℤ → ℤ → ℤ
minus_int a b = wrap_int (sub_ℕ (pos_part a + neg_part b) (neg_part a + pos_part b))

-- `n++` on an `int`: past the largest it goes on with the smallest.
unfoldable pub increment : ℤ → ℤ
increment (pos n) = if leb max_int n then negsuc max_int else pos (n + 1)
increment (negsuc zero) = pos 0
increment (negsuc (suc n)) = negsuc n

-- `n--` on an `int`.
unfoldable pub decrement : ℤ → ℤ
decrement (pos zero) = negsuc 0
decrement (pos (suc n)) = pos n
decrement (negsuc n) = if leb max_int n then pos max_int else negsuc (n + 1)

-- `a % m` of Go, whose sign is that of `a`, for `m` not 0.
unfoldable pub remainder : ℤ → ℕ → ℤ
remainder (pos n) m = pos (n % m)
remainder (negsuc n) m = sub_ℕ 0 (suc n % m)

-- `a / m` of Go, which rounds toward 0, for `m` not 0.
unfoldable pub quotient : ℤ → ℕ → ℤ
quotient (pos n) m = pos (n / m)
quotient (negsuc n) m = sub_ℕ 0 (suc n / m)

-- The 64 bits of an integer as a natural number, and the `int` with such bits.
abbrev pub residue : ℤ → ℕ
residue (pos n) = n % 18446744073709551616
residue (negsuc n) = 18446744073709551615 - n % 18446744073709551616

abbrev pub to_signed : ℕ → ℤ
to_signed n = if leb n max_int then pos n else negsuc (18446744073709551615 - n)

-- `a * b` of two `int`s.
unfoldable pub mul_int : ℤ → ℤ → ℤ
mul_int a b = to_signed (residue a * residue b % 18446744073709551616)

-- `a / b` of two `int`s, for `b` not 0.
unfoldable pub div_int : ℤ → ℤ → ℤ
unfolding quotient
div_int a (pos m) = quotient a m
div_int a (negsuc m) = mul_int (negsuc 0) (quotient a (suc m))

-- a + b, as an integer.
abbrev pub add_ℕ : ℤ → ℕ → ℤ
add_ℕ (pos n) b = pos (n + b)
add_ℕ (negsuc n) b = sub_ℕ b (suc n)

abbrev pub add_ℤ : ℤ → ℤ → ℤ
add_ℤ a (pos n) = add_ℕ a n
add_ℤ (pos n) (negsuc m) = sub_ℕ n (suc m)
add_ℤ (negsuc n) (negsuc m) = negsuc (suc (n + m))

-- `t.Sub(u)` of two instants in nanoseconds: it saturates at the ends of a `time.Duration`.
unfoldable pub elapsed : ℕ → ℕ → ℤ
elapsed t u =
    if leb u t
    then (if leb max_int (t - u) then pos max_int else pos (t - u))
    else (if leb max_int (u - t - 1) then negsuc max_int else negsuc (u - t - 1))

pub increment_pos : (n : ℕ) → n < max_int → increment (pos n) ≡ pos (n + 1)
unfolding increment
increment_pos n h = ground arith

pub decrement-increment :
    (a : ℤ) → pos_part a < max_int → neg_part a ≤ suc max_int → decrement (increment a) ≡ a
unfolding increment decrement
decrement-increment (pos n) h k = ground arith
decrement-increment (negsuc zero) h k = refl
decrement-increment (negsuc (suc n)) h k = ground arith
