-- ===== src/Strconv.antt =====
-- strconv.FormatInt, strconv.ParseInt and strconv.Atoi in base ten and at 64 bits, which the handlers
-- use on route parameters, headers, queries and cache keys.
pub mod RoundTrip
use weiyeston.Base.{
  ℕ, zero, suc, ◌+◌, ◌-◌, ◌*◌, ◌/◌, ◌%◌, ◌^◌, ◌≤◌, ◌≡◌, refl, Bool, ◌||◌, Option, none, some, [],
  ◌∷◌, ◌++◌, ℤ, pos, negsuc, neg, Text, codes, ltb, leb, if◌then◌else◌, ◌==◌, nat_eq,
}

-- Digits behind the number read so far.
unfoldable pub scan : Text → ℕ → Option ℕ
scan [] n = some n
scan (c ∷ s) n = if ltb c b'0' || ltb b'9' c then none else scan s (n * 10 + (c - b'0'))

unfoldable pub parse_uint : Text → Option ℕ
unfolding scan
parse_uint [] = none
parse_uint (c ∷ s) = scan (c ∷ s) 0

abbrev positive : Option ℕ → Option ℤ
positive none = none
positive (some n) = if ltb n (2 ^ 63) then some (pos n) else none

abbrev negative : Option ℕ → Option ℤ
negative none = none
negative (some n) = if leb n (2 ^ 63) then some (neg n) else none

-- A sign, then digits; `none` is a syntax error or a number out of range.
unfoldable pub parse_int : Text → Option ℤ
unfolding parse_uint
parse_int [] = none
parse_int (c ∷ s) =
    if c == b'-'
    then negative (parse_uint s)
    else if c == b'+'
    then positive (parse_uint s)
    else positive (parse_uint (c ∷ s))

-- ParseUint at 64 bits: digits that pass the greatest number end the scan with it.
unfoldable pub scan_or_max : Text → ℕ → Option ℕ
scan_or_max [] n = some n
scan_or_max (c ∷ s) n =
    let rest = scan_or_max s (n * 10 + (c - b'0')) in
    if ltb c b'0' || ltb b'9' c
    then none
    else if ltb (n * 10 + (c - b'0')) (2 ^ 64)
    then rest
    else some (2 ^ 64 - 1)

abbrev at_most : ℕ → Option ℕ → ℕ
at_most bound none = 0
at_most bound (some n) = if ltb bound n then bound else n

unfoldable pub scan_digits : Text → Option ℕ
unfolding scan_or_max
scan_digits [] = none
scan_digits (c ∷ s) = scan_or_max (c ∷ s) 0

-- The number that strconv.Atoi returns, also beside an error: 0 for a text that is no number, else
-- the nearest number of 64 bits.
unfoldable pub atoi : Text → ℤ
unfolding scan_digits
atoi [] = pos 0
atoi (c ∷ s) =
    if c == b'-'
    then neg (at_most (2 ^ 63) (scan_digits s))
    else if c == b'+'
    then pos (at_most (2 ^ 63 - 1) (scan_digits s))
    else pos (at_most (2 ^ 63 - 1) (scan_digits (c ∷ s)))

-- The fuel is the number itself, which is at least the number of its digits.
pub digits : ℕ → ℕ → Text
digits zero n = (b'0' + n) ∷ []
digits (suc f) n =
    let more = digits f (n / 10) ++ (b'0' + n % 10) ∷ [] in
    if ltb n 10 then (b'0' + n) ∷ [] else more

unfoldable pub format_uint : ℕ → Text
unfolding digits
format_uint n = digits n n

unfoldable pub format_int : ℤ → Text
unfolding format_uint
format_int (pos n) = format_uint n
format_int (negsuc n) = b'-' ∷ format_uint (suc n)

format_examples : format_int (pos 4096) ++ format_int (negsuc 6) ≡ codes "4096-7"
unfolding format_int
format_examples = refl

parse_examples :
    (parse_int (codes "-12") ≡ some (negsuc 11))
    × (parse_int (codes "12a") ≡ none)
    × (parse_int [] ≡ none)
unfolding parse_int
parse_examples = (refl, refl, refl)
