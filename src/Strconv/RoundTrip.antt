-- ===== src/Strconv/RoundTrip.antt =====
-- FormatInt and then ParseInt.
use weiyeston.Base.{
  ℕ, zero, suc, ◌+◌, ◌-◌, ◌*◌, ◌/◌, ◌%◌, ◌^◌, ◌≤◌, ◌<◌, ◌≡◌, refl, Option, none, some, [], ◌∷◌,
  ◌++◌, ℤ, pos, negsuc, pos_part, neg_part, Text, arith, ◌∙◌, Bool-cases, ltb, inl, inr,
}
use weiyeston.Strconv.{positive, scan, parse_uint, parse_int, digits, format_uint, format_int}

abbrev extend : ℕ → Option ℕ → Option ℕ
extend d none = none
extend d (some n) = some (n * 10 + d)

scan-append_digit :
    (s : Text) (n d : ℕ) → d < 10 → scan (s ++ (b'0' + d) ∷ []) n ≡ extend d (scan s n)
unfolding scan
scan-append_digit [] n d h = ground arith
scan-append_digit (c ∷ s) n d h = ground (arith, scan-append_digit s (n * 10 + (c - b'0')) d h)

scan-digits : (f n : ℕ) → n < 10 + f → scan (digits f n) 0 ≡ some n
unfolding scan digits
scan-digits zero n h = ground arith
scan-digits (suc f) n h =
    ground (
      arith,
      scan-append_digit (digits f (n / 10)) 0 (n % 10) (omega arith),
      scan-digits f (n / 10),
    )

-- The first byte is a digit, so it is no sign.
data StartsWithDigit : Text → Type 0 where
  digit : (c : ℕ) (s : Text) → b'0' ≤ c → StartsWithDigit (c ∷ s)

StartsWithDigit-append : {s : Text} (t : Text) → StartsWithDigit s → StartsWithDigit (s ++ t)
StartsWithDigit-append t (digit c s h) = digit c (s ++ t) h

digits-StartsWithDigit : (f n : ℕ) → StartsWithDigit (digits f n)
unfolding digits
digits-StartsWithDigit zero n = digit (b'0' + n) [] (omega arith)
digits-StartsWithDigit (suc f) n = elim (Bool-cases (ltb n 10)) [
  | inl short ↦ rw short (digit (b'0' + n) [] (omega arith))
  | inr long ↦
      rw long (StartsWithDigit-append ((b'0' + n % 10) ∷ []) (digits-StartsWithDigit f (n / 10)))
]

parse_uint_of_digit : {s : Text} → StartsWithDigit s → parse_uint s ≡ scan s 0
unfolding parse_uint
parse_uint_of_digit (digit c s h) = refl

parse_uint-format_uint : (n : ℕ) → parse_uint (format_uint n) ≡ some n
unfolding format_uint
parse_uint-format_uint n =
    parse_uint_of_digit (digits-StartsWithDigit n n) ∙ scan-digits n n (omega arith)

parse_int_of_digit : {s : Text} → StartsWithDigit s → parse_int s ≡ positive (parse_uint s)
unfolding parse_int
parse_int_of_digit (digit c s h) = ground arith

-- Every 64-bit integer is read back from the text that it is printed as.
pub parse_int-format_int :
    (z : ℤ) → pos_part z < 2 ^ 63 → neg_part z ≤ 2 ^ 63 → parse_int (format_int z) ≡ some z
unfolding parse_int format_int format_uint
parse_int-format_int (pos n) h k =
    parse_int_of_digit (digits-StartsWithDigit n n) ∙ ground (arith, parse_uint-format_uint n)
parse_int-format_int (negsuc n) h k = ground (arith, parse_uint-format_uint (suc n))
