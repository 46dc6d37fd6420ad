-- ===== src/Strconv.antt =====
-- What the program uses of Go's `strconv` and `strings`: `FormatInt` and `ParseInt` in base 10 at
-- 64 bits, `Cut` at a byte, and the wrap-around of an `int64`.
pub mod RoundTrip
use ggskit.Common.{
  ℕ, zero, suc, ◌+◌, ◌-◌, ◌*◌, ◌/◌, ◌%◌, ◌^◌, Bool, ◌||◌, Option, none, some, [], ◌∷◌, Text, Result,
  ok, err, ◌>>=◌, ltb, leb, nat_eq, ◌==◌, if◌then◌else◌,
}
use ggskit.Common.Int.{ℤ, pos, negsuc}

pub data ParseError : Type 0 where
  syntax range : ParseError

-- One digit for each round; `n` rounds and one more are enough for `n`.
pub digits : ℕ → ℕ → Text → Text
digits zero n out = out
digits (suc f) n out =
    let rest = digits f (n / 10) ((b'0' + n % 10) ∷ out) in
    if ltb n 10 then (b'0' + n) ∷ out else rest

pub format_uint : ℕ → Text
format_uint n = digits (suc n) n []

pub format_int : ℤ → Text
unfolding format_uint
format_int (pos n) = format_uint n
format_int (negsuc n) = b'-' ∷ format_uint (suc n)

pub scan : Text → ℕ → Result ParseError ℕ
scan [] n = ok n
scan (c ∷ s) n =
    if ltb c b'0' || ltb b'9' c
    then err syntax
    else if leb (2 ^ 64) (n * 10 + (c - b'0'))
    then err range
    else scan s (n * 10 + (c - b'0'))

pub parse_uint : Text → Result ParseError ℕ
parse_uint [] = err syntax
parse_uint (c ∷ s) = scan (c ∷ s) 0

non_negative : ℕ → Result ParseError ℤ
non_negative n = if leb (2 ^ 63) n then err range else ok (pos n)

negative : ℕ → Result ParseError ℤ
negative zero = ok (pos 0)
negative (suc n) = if leb (2 ^ 63) n then err range else ok (negsuc n)

unfoldable pub parse_int : Text → Result ParseError ℤ
unfolding parse_uint scan non_negative negative
parse_int [] = err syntax
parse_int (c ∷ s) =
    if c == b'-'
    then parse_uint s >>= negative
    else if c == b'+'
    then parse_uint s >>= non_negative
    else parse_uint (c ∷ s) >>= non_negative

-- `strings.Cut` at a separator of one byte.
unfoldable pub cut : ℕ → Text → Option (Text × Text)
cut c [] = none
cut c (x ∷ xs) =
    if x == c
    then some ([], xs)
    else elim (cut c xs) [ none ↦ none | some (before, after) ↦ some (x ∷ before, after) ]

-- The `int64` that an integer wraps around to.
unfoldable pub to_int64 : ℤ → ℤ
to_int64 (pos n) = let m = n % 2 ^ 64 in if ltb m (2 ^ 63) then pos m else negsuc (2 ^ 64 - 1 - m)
to_int64 (negsuc n) =
    let m = n % 2 ^ 64 in if ltb m (2 ^ 63) then negsuc m else pos (2 ^ 64 - 1 - m)
