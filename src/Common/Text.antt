-- ===== src/Common/Text.antt =====
-- Decimal texts, as `fmt.Sprintf("%d")` writes them and `strconv.Atoi` reads them.
pub mod Decimals
use Prim.Native.Char.{code}
use Prim.Native.String
use Prim.Native.String.{String}
use Prim.Native.Nat.{ℕ, zero, suc, ◌+◌, ◌-◌, ◌*◌, ◌/◌, ◌%◌}
use mathlib.Core.Bool.{Bool, true, false, ◌&&◌}
use mathlib.Core.Option.{Option, none, some}
use mathlib.Core.Path.{◌≡◌, refl}
use api_gateway.Common.Tests.{ltb, leb, ◌==◌, if◌then◌else◌}
use api_gateway.Common.Int.{ℤ, pos, negsuc, max_int}

-- The text of a digit.
digit : ℕ → String
digit zero = "0"
digit (suc zero) = "1"
digit (suc (suc zero)) = "2"
digit (suc (suc (suc zero))) = "3"
digit (suc (suc (suc (suc zero)))) = "4"
digit (suc (suc (suc (suc (suc zero))))) = "5"
digit (suc (suc (suc (suc (suc (suc zero)))))) = "6"
digit (suc (suc (suc (suc (suc (suc (suc zero))))))) = "7"
digit (suc (suc (suc (suc (suc (suc (suc (suc zero)))))))) = "8"
digit n = "9"

-- With one round of fuel for each digit.
decimal_from : ℕ → ℕ → String
decimal_from zero n = ""
decimal_from (suc fuel) n =
    let rest = decimal_from fuel (n / 10) in
    if ltb n 10 then digit n else String.◌++◌ rest (digit (n % 10))

-- 64-bit numbers have at most 20 digits.
unfoldable pub decimal : ℕ → String
unfolding decimal_from digit
decimal n = decimal_from 20 n

unfoldable pub decimal_int : ℤ → String
decimal_int (pos n) = decimal n
decimal_int (negsuc n) = String.◌++◌ "-" (decimal (suc n))

-- The number that a text of digits stands for, after `acc`.
parse_digits : ℕ → String → Option ℕ
parse_digits acc String.[] = some acc
parse_digits acc (String.◌∷◌ c s) =
    let rest = parse_digits (acc * 10 + (code c - b'0')) s in
    if leb b'0' (code c) && leb (code c) b'9' then rest else none

unsigned : String → Option ℕ
unsigned String.[] = none
unsigned (String.◌∷◌ c s) = parse_digits 0 (String.◌∷◌ c s)

-- The number that `strconv.Atoi` returns: 0 beside a syntax error, the nearest `int` beside a range
-- error.
clamp : Option ℕ → Bool → ℤ
clamp none negative = pos 0
clamp (some n) false = if leb n max_int then pos n else pos max_int
clamp (some zero) true = pos 0
clamp (some (suc n)) true = if leb n max_int then negsuc n else negsuc max_int

unfoldable pub atoi : String → ℤ
unfolding parse_digits unsigned clamp
atoi String.[] = pos 0
atoi (String.◌∷◌ c s) =
    if code c == b'-'
    then clamp (unsigned s) true
    else if code c == b'+'
    then clamp (unsigned s) false
    else clamp (unsigned (String.◌∷◌ c s)) false

-- `strconv.Atoi` and `strconv.ParseInt(text, 10, 64)`: no number for a syntax error or out of range.
in_range : Option ℕ → Bool → Option ℤ
in_range none negative = none
in_range (some n) false = if leb n max_int then some (pos n) else none
in_range (some zero) true = some (pos 0)
in_range (some (suc n)) true = if leb n max_int then some (negsuc n) else none

unfoldable pub parse_int : String → Option ℤ
unfolding parse_digits unsigned in_range
parse_int String.[] = none
parse_int (String.◌∷◌ c s) =
    if code c == b'-'
    then in_range (unsigned s) true
    else if code c == b'+'
    then in_range (unsigned s) false
    else in_range (unsigned (String.◌∷◌ c s)) false

-- What `fmt.Sscanf(text, "%d", &n)` leaves in an `n` that was 0: the number that the text begins with,
-- 0 if there is none or it is out of range. The texts read so have no leading blanks.
scan_digits : ℕ → String → ℕ
scan_digits acc String.[] = acc
scan_digits acc (String.◌∷◌ c s) =
    let rest = scan_digits (acc * 10 + (code c - b'0')) s in
    if leb b'0' (code c) && leb (code c) b'9' then rest else acc

scan_signed : ℕ → Bool → ℤ
scan_signed n false = if leb n max_int then pos n else pos 0
scan_signed zero true = pos 0
scan_signed (suc n) true = if leb n max_int then negsuc n else pos 0

unfoldable pub scan_int : String → ℤ
unfolding scan_digits scan_signed
scan_int String.[] = pos 0
scan_int (String.◌∷◌ c s) =
    if code c == b'-'
    then scan_signed (scan_digits 0 s) true
    else if code c == b'+'
    then scan_signed (scan_digits 0 s) false
    else scan_signed (scan_digits 0 (String.◌∷◌ c s)) false

scan_text : scan_int "1700000042" ≡ pos 1700000042
unfolding scan_int
scan_text = refl

decimal_text : decimal 1700000042 ≡ "1700000042"
unfolding decimal
decimal_text = refl

atoi_text : atoi "-42" ≡ negsuc 41
unfolding atoi
atoi_text = refl
