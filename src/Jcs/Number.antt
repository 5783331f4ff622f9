-- ===== src/Jcs/Number.antt =====
-- `_format_number` and `_shortest_digits`: ECMAScript's `Number::toString` from the digits of `repr`.
use aitp_verifier_py.Prelude.{
  ℕ, zero, suc, ◌+◌, ◌-◌, ◌*◌, ◌^◌, Bool, ◌/◌, ◌%◌, ◌&&◌, none, some, [], ◌∷◌, ◌++◌, ltb, ◌==◌,
  if◌then◌else◌, length, replicate, take, drop,
}
use aitp_verifier_py.Prelude.Int.{ℤ, pos, negsuc, ◌-ℤ◌, abs, leb_ℤ, ltb_ℤ}
use aitp_verifier_py.Text.{Text, txt, partition}
use aitp_verifier_py.Json.{Value, int, float, Float, dyadic, infinity, nan}
use aitp_verifier_py.Outcome.{Result, ok, raised, jcs_error, value_error, ◌>>=◌}
use aitp_verifier_py.Platform.{Platform}

-- The decimal text of a number, on fuel above it.
unfoldable pub show_on : ℕ → ℕ → Text
show_on zero n = []
show_on (suc f) n =
    let front = show_on f (n / 10) in
    if ltb n 10 then (n + b'0') ∷ [] else front ++ ((n % 10 + b'0') ∷ [])

unfoldable pub show : ℕ → Text
unfolding show_on
show n = show_on (suc n) n

-- `int(exp_part)` of the exponent in `repr`: a sign and digits.
unfoldable pub read : ℕ → Text → ℕ
read acc [] = acc
read acc (c ∷ cs) = read (acc * 10 + (c - b'0')) cs

unfoldable pub negated : ℕ → ℤ
negated zero = pos 0
negated (suc n) = negsuc n

unfoldable pub exponent_of : Text → ℤ
unfolding read negated
exponent_of [] = pos 0
exponent_of (c ∷ cs) =
    if c == b'-'
    then negated (read 0 cs)
    else if c == b'+'
    then pos (read 0 cs)
    else pos (read 0 (c ∷ cs))

-- `lstrip("0")` and `rstrip("0")`
unfoldable pub lstrip : Text → Text
lstrip [] = []
lstrip (c ∷ cs) = let rest = lstrip cs in if c == b'0' then rest else c ∷ cs

unfoldable pub cons_unless_zeros : ℕ → Text → Text
cons_unless_zeros c [] = if c == b'0' then [] else c ∷ []
cons_unless_zeros c (d ∷ ds) = c ∷ d ∷ ds

unfoldable pub rstrip : Text → Text
unfolding cons_unless_zeros
rstrip [] = []
rstrip (c ∷ cs) = cons_unless_zeros c (rstrip cs)

-- `_shortest_digits`: the digits, and the place of the decimal point from their left.
unfoldable pub shortest_digits : Text → Result (Text × ℤ)
unfolding exponent_of lstrip rstrip partition ◌-ℤ◌
shortest_digits repr =
    let (mantissa, scaled, exp_part) = partition b'e' repr in
    let exp = if scaled then exponent_of exp_part else pos 0 in
    let (int_part, dotted, frac_part) = partition b'.' mantissa in
    let all_digits = int_part ++ frac_part in
    let stripped = lstrip all_digits in
    let digits = rstrip stripped in
    let shift = pos (length all_digits - length stripped) in
    let n = exp -ℤ (shift -ℤ pos (length int_part)) in
    if length digits == 0 then raised jcs_error else ok (digits, n)

-- `e+21` or `e-7`.
unfoldable pub exponent_text : ℤ → Text
unfolding txt show
exponent_text (pos e) = txt "e+" ++ show e
exponent_text (negsuc e) = txt "e-" ++ show (suc e)

-- The bands of ECMA-262 for `digits` with the point at `n`.
unfoldable pub layout : Text → ℤ → Text
unfolding exponent_text txt ◌-ℤ◌
layout digits n =
    let k = pos (length digits) in
    if leb_ℤ k n && leb_ℤ n (pos 21)
    then digits ++ replicate (abs (n -ℤ k)) b'0'
    else if ltb_ℤ (pos 0) n && leb_ℤ n (pos 21)
    then take (abs n) digits ++ (b'.' ∷ drop (abs n) digits)
    else if ltb_ℤ (negsuc 5) n && leb_ℤ n (pos 0)
    then txt "0." ++ (replicate (abs n) b'0' ++ digits)
    else if length digits == 1
    then digits ++ exponent_text (n -ℤ pos 1)
    else take 1 digits ++ (b'.' ∷ (drop 1 digits ++ exponent_text (n -ℤ pos 1)))

-- `str(n)` of an integer, which CPython refuses above 4300 digits.
unfoldable pub is_printable : ℤ → Bool
is_printable n = ltb (abs n) (10 ^ 4300)

module _ ⦃π : Platform⦄ where
  unfoldable pub positive_text : Float → Result Text
  unfolding layout shortest_digits
  positive_text f = shortest_digits (π.float_repr f) >>= λ (digits, n). ok (layout digits n)

  unfoldable pub format_float : Float → Result Text
  unfolding positive_text txt
  format_float (infinity s) = raised jcs_error
  format_float nan = raised jcs_error
  format_float (dyadic (pos zero) k) = ok (txt "0")
  format_float (dyadic (pos (suc n)) k) = positive_text (dyadic (pos (suc n)) k)
  format_float (dyadic (negsuc n) k) = do t ← positive_text (dyadic (pos (suc n)) k); ok (b'-' ∷ t)

  -- An integer outside the doubles' range is in the error's message: one with too many digits to print
  -- raises another `ValueError` there.
  unfoldable pub format_number : Value → Result Text
  unfolding format_float is_printable
  format_number (int n) = elim (π.float_of_int n) [
    | none ↦ if is_printable n then raised jcs_error else raised value_error
    | some f ↦ format_float f
  ]
  format_number (float f) = format_float f
  format_number v = raised jcs_error
