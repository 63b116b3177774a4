-- ===== src/Text/Decimal.antt =====
-- The decimal numbers of package strconv: `ParseInt` at base 10 and 64 bits, which is `Atoi` on a
-- 64-bit machine, and `Itoa`.
pub mod Parsing
use recipe_reader.Common.{
  ℕ, zero, suc, ◌+◌, ◌-◌, ◌*◌, ◌/◌, ◌%◌, ◌^◌, Bool, true, false, ℤ, pos, negsuc, ◌&&◌, List, [],
  ◌∷◌, ◌++◌, Option, none, some, if◌then◌else◌, ltb, leb, ◌==◌,
}
use recipe_reader.Text.{Text}

abbrev pub is_decimal : ℕ → Bool
is_decimal c = leb b'0' c && leb c b'9'

-- The value of some digits behind those of `n`; any other rune is a syntax error.
unfoldable pub digits_from : ℕ → Text → Option ℕ
digits_from n [] = some n
digits_from n (c ∷ s) = elim (is_decimal c) [
  | true ↦ digits_from (n * 10 + (c - b'0')) s
  | false ↦ none
]

-- `strconv.ParseUint`, with no bound
abbrev pub parse_digits : Text → Option ℕ
parse_digits [] = none
parse_digits (c ∷ s) = digits_from 0 (c ∷ s)

-- A number that fits 64 bits with its sign.
abbrev pub positive : Option ℕ → Option ℤ
positive none = none
positive (some n) = if ltb n (2 ^ 63) then some (pos n) else none

abbrev pub negative : Option ℕ → Option ℤ
negative none = none
negative (some zero) = some (pos 0)
negative (some (suc n)) = if ltb n (2 ^ 63) then some (negsuc n) else none

-- `strconv.ParseInt(s, 10, 64)`, `strconv.Atoi(s)`
unfoldable pub parse_int : Text → Option ℤ
parse_int [] = none
parse_int (c ∷ s) =
    if c == b'-'
    then negative (parse_digits s)
    else if c == b'+'
    then positive (parse_digits s)
    else positive (parse_digits (c ∷ s))

-- The digits of a number, of at most `fuel` digits, in front of a text.
unfoldable pub show_from : ℕ → ℕ → Text → Text
show_from zero n s = s
show_from (suc fuel) n s =
    let more = show_from fuel (n / 10) ((b'0' + n % 10) ∷ s) in
    if ltb n 10 then (b'0' + n) ∷ s else more

-- `strconv.Itoa` of a number that is not negative: it has at most as many digits as its value.
unfoldable pub itoa : ℕ → Text
itoa n = show_from (suc n) n []
