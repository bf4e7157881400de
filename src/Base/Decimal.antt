-- ===== src/Base/Decimal.antt =====
-- Package strconv and fmt on decimal numbers: ParseInt in base 10 at 64 bits, and the verb %v.
pub mod RoundTrip
use Prim.Native.Nat.{ℕ, zero, suc, ◌+◌, ◌-◌, ◌*◌, ◌/◌, ◌%◌, ◌^◌}
use mathlib.Core.Path.{◌≡◌, refl}
use mathlib.Core.Bool.{◌||◌}
use mathlib.Core.Option.{Option, none, some}
use mathlib.Core.List.{[], ◌∷◌, ◌++◌}
use ubuntu_insights.Base.Tests.{ltb, leb, ◌==◌, if◌then◌else◌}
use ubuntu_insights.Base.Text.{Bytes, codes}
use ubuntu_insights.Base.Int.{ℤ, pos, negsuc}

-- The decimal digits of a number below 10^fuel, with no leading zero but that of 0.
unfoldable pub digits : ℕ → ℕ → Bytes
digits zero n = []
digits (suc fuel) n =
    let rest = digits fuel (n / 10) in
    if ltb n 10 then (b'0' + n) ∷ [] else rest ++ ((b'0' + n % 10) ∷ [])

-- Every number that an int64 or a uint64 holds has at most 20 digits.
abbrev pub max_digits : ℕ
max_digits = 20

unfoldable pub format_ℕ : ℕ → Bytes
format_ℕ n = digits max_digits n

-- fmt.Sprintf("%v", t) of an int64
unfoldable pub format_int : ℤ → Bytes
format_int (pos n) = format_ℕ n
format_int (negsuc n) = b'-' ∷ format_ℕ (suc n)

unfoldable pub scan : ℕ → Bytes → Option ℕ
scan n [] = some n
scan n (c ∷ s) = if ltb c b'0' || ltb b'9' c then none else scan (n * 10 + (c - b'0')) s

-- The digits after the sign: one at least.
unfoldable pub parse_digits : Bytes → Option ℕ
parse_digits [] = none
parse_digits (c ∷ s) = scan 0 (c ∷ s)

-- A magnitude out of range is an error (ErrRange), as is a syntax error.
abbrev in_range : ℕ → (ℕ → ℤ) → Option ℕ → Option ℤ
in_range top f none = none
in_range top f (some n) = if leb n top then some (f n) else none

abbrev pub negate : ℕ → ℤ
negate zero = pos 0
negate (suc n) = negsuc n

-- strconv.ParseInt(s, 10, 64)
unfoldable pub parse_int : Bytes → Option ℤ
parse_int [] = none
parse_int (c ∷ s) =
    if c == b'-'
    then in_range (2 ^ 63) negate (parse_digits s)
    else if c == b'+'
    then in_range (2 ^ 63 - 1) pos (parse_digits s)
    else in_range (2 ^ 63 - 1) pos (parse_digits (c ∷ s))

parse_int_tests :
    (parse_int (codes "-12") ≡ some (negsuc 11))
    × (parse_int (codes "+007") ≡ some (pos 7))
    × (parse_int (codes "9223372036854775808") ≡ none)
    × (parse_int (codes "-9223372036854775808") ≡ some (negsuc (2 ^ 63 - 1)))
    × (parse_int (codes "1_0") ≡ none)
unfolding parse_int parse_digits scan
parse_int_tests = (refl, refl, refl, refl, refl)

format_int_tests : (format_int (negsuc 119) ≡ codes "-120") × (format_int (pos 1732) ≡ codes "1732")
unfolding format_int format_ℕ digits
format_int_tests = (refl, refl)
