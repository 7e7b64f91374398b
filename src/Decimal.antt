-- ===== src/Decimal.antt =====
-- What the source uses of `strconv`: `ParseInt(s, 10, 64)`, and the decimal print of an int64 that
-- `FormatInt(n, 10)` and the verb %d share.
pub mod RoundTrip
pub mod Length
use spongix.Base.{
  ℕ, zero, suc, ◌+◌, ◌-◌, ◌*◌, ◌/◌, ◌%◌, ◌^◌, Bool, true, false, ◌||◌, [], ◌∷◌, Option, none, some,
  Bytes, ℤ, pos, negsuc, ltb, leb, ◌==◌, if◌then◌else◌, ◌≤◌, ◌<◌,
}

abbrev pub max_u64 : ℕ
max_u64 = 2 ^ 64 - 1

-- A number is multiplied by ten only below this.
abbrev mul_limit : ℕ
mul_limit = max_u64 / 10 + 1

-- The loop of `ParseUint` over the digits: `none` is a syntax error or one of range.
unfoldable pub scan : Bytes → ℕ → Option ℕ
scan [] n = some n
scan (c ∷ s) n =
    let d = c - b'0' in
    let rest = scan s (n * 10 + d) in
    if ltb c b'0' || ltb b'9' c
    then none
    else if leb mul_limit n
    then none
    else if ltb max_u64 (n * 10 + d)
    then none
    else rest

unfoldable pub parse_uint : Bytes → Option ℕ
unfolding scan
parse_uint [] = none
parse_uint (c ∷ s) = scan (c ∷ s) 0

-- `ParseInt` compares the magnitude with 2^63.
abbrev positive : Option ℕ → Option ℤ
positive none = none
positive (some n) = if leb (2 ^ 63) n then none else some (pos n)

abbrev pub minus : ℕ → ℤ
minus zero = pos 0
minus (suc n) = negsuc n

abbrev negative : Option ℕ → Option ℤ
negative none = none
negative (some n) = if ltb (2 ^ 63) n then none else some (minus n)

unfoldable pub parse_int : Bytes → Option ℤ
unfolding parse_uint
parse_int [] = none
parse_int (c ∷ s) =
    if c == b'+'
    then positive (parse_uint s)
    else if c == b'-'
    then negative (parse_uint s)
    else positive (parse_uint (c ∷ s))

-- The digits of a number in front of `out`; a round divides by ten, so `n + 1` rounds are enough.
digits : ℕ → ℕ → Bytes → Bytes
digits zero n out = out
digits (suc fuel) n out = elim (ltb n 10) [
  | true ↦ (b'0' + n) ∷ out
  | false ↦ digits fuel (n / 10) ((b'0' + n % 10) ∷ out)
]

unfoldable pub format_uint : ℕ → Bytes
unfolding digits
format_uint n = digits (suc n) n []

unfoldable pub format_int : ℤ → Bytes
unfolding format_uint
format_int (pos n) = format_uint n
format_int (negsuc n) = b'-' ∷ format_uint (suc n)

-- The range of an int64.
abbrev pub InRange : ℤ → Type 0
InRange (pos n) = n < 2 ^ 63
InRange (negsuc n) = n < 2 ^ 63
