-- ===== src/Json/Decode.antt =====
-- `jcs.loads`: Python's `json.loads` with the two hooks of aitp_verifier/jcs.py, as one pass over the
-- text with an explicit stack. Nesting is not limited here: where CPython runs out of stack, the one
-- caller, `jws.parse_compact`, treats the `RecursionError` as it treats every other failure.
mod Utf8
use mathlib.Core.List.{reverse}
use aitp_verifier_py.Prelude.{
  ℕ, zero, suc, ◌+◌, ◌-◌, ◌*◌, Bool, true, false, not, ◌&&◌, ◌||◌, Option, none, some, List, [],
  ◌∷◌, ltb, ◌==◌, if◌then◌else◌, all, leb, length,
}
use aitp_verifier_py.Prelude.Int.{ℤ, pos, negsuc}
use aitp_verifier_py.Text.{Text, Bytes, txt, in_range, mem_text}
use aitp_verifier_py.Json.{
  Value, null, bool, int, float, str, list, obj, Float, of_list, of_members,
}
use aitp_verifier_py.Outcome.{Result, ok, raised, jcs_error, value_error}
use Utf8.{decode_utf8}

-- An open container: what it has so far, newest first, and the name that waits for its value.
pub data Frame : Type 0 where
  in_list : List Value → Frame
  in_obj : List (Text × Value) → Frame
  at_name : Text → List (Text × Value) → Frame

-- What the next character may be.
pub data Mode : Type 0 where
  value value_or_close name name_or_close colon : Mode
  after : Value → Mode
  in_text in_escape : Bool → Text → Mode
  in_hex : Bool → Text → ℕ → ℕ → Mode
  in_number : Text → Mode
  in_word : Text → Value → Mode
  failed unreadable : Mode

is_space : ℕ → Bool
is_space c = c == 0x20 || c == 0x09 || c == 0x0A || c == 0x0D

is_digit : ℕ → Bool
is_digit c = in_range b'0' b'9' c

-- `_reject_duplicate_keys`
unfoldable pub has_duplicates : List (Text × Value) → Bool
unfolding mem_text
has_duplicates [] = false
has_duplicates ((k, v) ∷ m) = mem_text k (keys m) || has_duplicates m
  where
    keys : List (Text × Value) → List Text
    keys [] = []
    keys ((j, w) ∷ r) = j ∷ keys r

-- A `\u` escape: the second half of a surrogate pair joins the first.
add_point : ℕ → Text → Text
add_point c [] = c ∷ []
add_point c (d ∷ ds) =
    if in_range 0xDC00 0xDFFF c && in_range 0xD800 0xDBFF d
    then (0x10000 + (d - 0xD800) * 0x400 + (c - 0xDC00)) ∷ ds
    else c ∷ d ∷ ds

hex_digit : ℕ → Option ℕ
unfolding is_digit
hex_digit c =
    if is_digit c
    then some (c - b'0')
    else if in_range b'a' b'f' c
    then some (c - b'a' + 10)
    else if in_range b'A' b'F' c
    then some (c - b'A' + 10)
    else none

-- The number grammar: `-?(0|[1-9][0-9]*)(\.[0-9]+)?([eE][+-]?[0-9]+)?`, by its states.
pub data NumState : Type 0 where
  start minus zero_int int_digits dot frac_digits exp exp_sign exp_digits bad : NumState

num_step : NumState → ℕ → NumState
unfolding is_digit
num_step start c =
    if c == b'-'
    then minus
    else if c == b'0'
    then zero_int
    else if is_digit c
    then int_digits
    else bad
num_step minus c = if c == b'0' then zero_int else if is_digit c then int_digits else bad
num_step zero_int c = if c == b'.' then dot else if c == b'e' || c == b'E' then exp else bad
num_step int_digits c =
    if is_digit c
    then int_digits
    else if c == b'.'
    then dot
    else if c == b'e' || c == b'E'
    then exp
    else bad
num_step dot c = if is_digit c then frac_digits else bad
num_step frac_digits c =
    if is_digit c then frac_digits else if c == b'e' || c == b'E' then exp else bad
num_step exp c = if is_digit c then exp_digits else if c == b'+' || c == b'-' then exp_sign else bad
num_step exp_sign c = if is_digit c then exp_digits else bad
num_step exp_digits c = if is_digit c then exp_digits else bad
num_step bad c = bad

num_state : NumState → Text → NumState
unfolding num_step
num_state q [] = q
num_state q (c ∷ cs) = num_state (num_step q c) cs

decimal : ℕ → Text → ℕ
decimal acc [] = acc
decimal acc (c ∷ cs) = decimal (acc * 10 + (c - b'0')) cs

negative : ℕ → ℤ
negative zero = pos 0
negative (suc n) = negsuc n

int_text : Text → ℤ
unfolding decimal negative
int_text [] = pos 0
int_text (c ∷ cs) = if c == b'-' then negative (decimal 0 cs) else pos (decimal 0 (c ∷ cs))

-- CPython's default limit on the digits of an integer that is read.
few_digits : Text → Bool
few_digits [] = true
few_digits (c ∷ cs) = if c == b'-' then leb (length cs) 4300 else leb (length (c ∷ cs)) 4300

-- A number, or what reading it raises. (Of an integer over the limit that is also malformed at its end,
-- such as a point without digits after it, the error is taken to be the malformed text's.)
number : (Text → Float) → Text → Result Value
unfolding num_state int_text few_digits
number to_float t = elim (num_state start t) [
  | zero_int ↦ ok (int (int_text t))
  | int_digits ↦ if few_digits t then ok (int (int_text t)) else raised value_error
  | frac_digits ↦ ok (float (to_float t))
  | exp_digits ↦ ok (float (to_float t))
  | _ ↦ raised jcs_error
]

abbrev Machine : Type 0
Machine = Mode × List Frame

-- A value may begin with this character. `NaN` and `Infinity` are what `_reject_constant` refuses.
begin_value : ℕ → List Frame → Machine
unfolding is_digit txt
begin_value c fs =
    if c == b'"'
    then (in_text false [], fs)
    else if c == b'['
    then (value_or_close, in_list [] ∷ fs)
    else if c == b'{'
    then (name_or_close, in_obj [] ∷ fs)
    else if c == b't'
    then (in_word (txt "rue") (bool true), fs)
    else if c == b'f'
    then (in_word (txt "alse") (bool false), fs)
    else if c == b'n'
    then (in_word (txt "ull") null, fs)
    else if c == b'-' || is_digit c
    then (in_number (c ∷ []), fs)
    else (failed, fs)

-- A member's value is complete: its container takes it.
end_value : Value → ℕ → List Frame → Machine
unfolding is_space has_duplicates
end_value v c [] = if is_space c then (after v, []) else (failed, [])
end_value v c (in_list vs ∷ fs) =
    if is_space c
    then (after v, in_list vs ∷ fs)
    else if c == b','
    then (value, in_list (v ∷ vs) ∷ fs)
    else if c == b']'
    then (after (list (of_list (reverse (v ∷ vs)))), fs)
    else (failed, fs)
end_value v c (in_obj m ∷ fs) = (failed, fs)
end_value v c (at_name k m ∷ fs) =
    if is_space c
    then (after v, at_name k m ∷ fs)
    else if c == b','
    then (name, in_obj ((k, v) ∷ m) ∷ fs)
    else if c == b'}'
    then (let all = (k, v) ∷ m in
        if has_duplicates all then (failed, fs) else (after (obj (of_members (reverse all))), fs))
    else (failed, fs)

end_number : Result Value → ℕ → List Frame → Machine
unfolding end_value
end_number (ok v) c fs = end_value v c fs
end_number (raised value_error) c fs = (unreadable, fs)
end_number r c fs = (failed, fs)

end_text : Bool → Text → List Frame → Machine
end_text true t (in_obj m ∷ fs) = (colon, at_name (reverse t) m ∷ fs)
end_text true t fs = (failed, fs)
end_text false t fs = (after (str (reverse t)), fs)

escape : ℕ → Option ℕ
escape c =
    if c == b'"' || c == 0x5C || c == b'/'
    then some c
    else if c == b'b'
    then some 0x08
    else if c == b'f'
    then some 0x0C
    else if c == b'n'
    then some 0x0A
    else if c == b'r'
    then some 0x0D
    else if c == b't'
    then some 0x09
    else none

module _ (to_float : Text → Float) where
  step : Machine → ℕ → Machine
  unfolding begin_value end_value end_number end_text escape hex_digit add_point number is_space
  step (value, fs) c = if is_space c then (value, fs) else begin_value c fs
  step (value_or_close, fs) c =
      if is_space c
      then (value_or_close, fs)
      else if c == b']'
      then close_list fs
      else begin_value c fs
    where
      close_list : List Frame → Machine
      close_list (in_list [] ∷ gs) = (after (list (of_list [])), gs)
      close_list gs = (failed, gs)
  step (name, fs) c =
      if is_space c then (name, fs) else if c == b'"' then (in_text true [], fs) else (failed, fs)
  step (name_or_close, fs) c =
      if is_space c
      then (name_or_close, fs)
      else if c == b'"'
      then (in_text true [], fs)
      else if c == b'}'
      then close_obj fs
      else (failed, fs)
    where
      close_obj : List Frame → Machine
      close_obj (in_obj [] ∷ gs) = (after (obj (of_members [])), gs)
      close_obj gs = (failed, gs)
  step (colon, fs) c =
      if is_space c then (colon, fs) else if c == b':' then (value, fs) else (failed, fs)
  step (after v, fs) c = end_value v c fs
  step (in_text is_name t, fs) c =
      if c == b'"'
      then end_text is_name t fs
      else if c == 0x5C
      then (in_escape is_name t, fs)
      else if ltb c 0x20
      then (failed, fs)
      else (in_text is_name (c ∷ t), fs)
  step (in_escape is_name t, fs) c =
      if c == b'u'
      then (in_hex is_name t 0 4, fs)
      else elim (escape c) [ none ↦ (failed, fs) | some d ↦ (in_text is_name (d ∷ t), fs) ]
  step (in_hex is_name t n left, fs) c = elim (hex_digit c) [
    | none ↦ (failed, fs)
    | some d ↦
        if left == 1
        then (in_text is_name (add_point (n * 16 + d) t), fs)
        else (in_hex is_name t (n * 16 + d) (left - 1), fs)
  ]
  step (in_number t, fs) c =
      if is_digit_or_mark c
      then (in_number (c ∷ t), fs)
      else end_number (number to_float (reverse t)) c fs
    where
      is_digit_or_mark : ℕ → Bool
      is_digit_or_mark d =
          in_range b'0' b'9' d || d == b'+' || d == b'-' || d == b'.' || d == b'e' || d == b'E'
  step (in_word [] v, fs) c = end_value v c fs
  step (in_word (w ∷ ws) v, fs) c = if c == w then (in_word ws v, fs) else (failed, fs)
  step (failed, fs) c = (failed, fs)
  step (unreadable, fs) c = (unreadable, fs)

  run : Machine → Text → Machine
  unfolding step
  run m [] = m
  run m (c ∷ cs) = run (step m c) cs

  -- The document ends in a number: it is read, and then no container is open.
  last_number : List Frame → Result Value → Result Value
  last_number [] r = r
  last_number (f ∷ fs) (raised value_error) = raised value_error
  last_number (f ∷ fs) r = raised jcs_error

  -- The document ends where no container is open.
  finish : Machine → Result Value
  unfolding number last_number
  finish (after v, []) = ok v
  finish (in_word [] v, []) = ok v
  finish (in_number t, fs) = last_number fs (number to_float (reverse t))
  finish (unreadable, fs) = raised value_error
  finish m = raised jcs_error

  unfoldable pub loads_text : Text → Result Value
  unfolding run finish
  loads_text t = finish (run (value, []) t)

  -- `loads` on `bytes`.
  unfoldable pub loads : Bytes → Result Value
  unfolding decode_utf8 loads_text
  loads b = elim (decode_utf8 b) [ none ↦ raised jcs_error | some t ↦ loads_text t ]
