-- ===== src/Envelope/Contains.antt =====
-- Python's `==` and `in` on JSON values, as the capability policy of aitp_verifier/envelope.py uses
-- them. `True` is 1, and a float equals the integer it is worth.
use aitp_verifier_py.Prelude.{
  ℕ, ◌*◌, ◌^◌, Bool, true, false, not, ◌&&◌, ◌||◌, Option, none, some, ◌==◌, length, if◌then◌else◌,
}
use aitp_verifier_py.Prelude.Int.{ℤ, pos, negsuc}
use aitp_verifier_py.Text.{text_eq, contains_text}
use aitp_verifier_py.Json.{
  Value, null, bool, int, float, str, list, obj, Float, dyadic, infinity, Items, nil, item, Members,
  end, member, get, has, names, magnitude,
}
use aitp_verifier_py.Outcome.{Result, ok, raised, type_error}

same_sign : ℤ → ℤ → Bool
same_sign (pos m) (pos n) = true
same_sign (negsuc m) (negsuc n) = true
same_sign _ _ = false

-- m / 2^j = n / 2^k
same_ratio : ℤ → ℕ → ℤ → ℕ → Bool
unfolding same_sign
same_ratio m j n k = same_sign m n && (magnitude m * 2 ^ k == magnitude n * 2 ^ j)

same_bool : Bool → Bool → Bool
same_bool true b = b
same_bool false b = not b

-- The number that a value is, if it is one.
number_of : Value → Option Float
number_of (bool true) = some (dyadic (pos 1) 0)
number_of (bool false) = some (dyadic (pos 0) 0)
number_of (int n) = some (dyadic n 0)
number_of (float f) = some f
number_of _ = none

same_float : Float → Float → Bool
unfolding same_ratio same_bool
same_float (dyadic m j) (dyadic n k) = same_ratio m j n k
same_float (infinity s) (infinity t) = same_bool s t
same_float _ _ = false

same_number : Float → Option Float → Bool
unfolding same_float
same_number f none = false
same_number f (some g) = same_float f g

is_null : Value → Bool
is_null null = true
is_null _ = false

unfoldable mutual
  unfolding is_null same_number number_of

  pub equal : Value → Value → Bool
  equal null w = is_null w
  equal (bool b) w = same_number (if b then dyadic (pos 1) 0 else dyadic (pos 0) 0) (number_of w)
  equal (int n) w = same_number (dyadic n 0) (number_of w)
  equal (float f) w = same_number f (number_of w)
  equal (str s) (str t) = text_eq s t
  equal (str s) w = false
  equal (list l) (list m) = equal_items l m
  equal (list l) w = false
  equal (obj d) (obj e) = (length (names d) == length (names e)) && equal_members d e
  equal (obj d) w = false

  equal_items : Items → Items → Bool
  equal_items nil nil = true
  equal_items (item v l) (item w m) = equal v w && equal_items l m
  equal_items _ _ = false

  equal_members : Members → Members → Bool
  equal_members end e = true
  equal_members (member k v d) e =
      elim (get k e) [ none ↦ false | some w ↦ equal v w ] && equal_members d e

unfoldable pub in_items : Value → Items → Bool
in_items v nil = false
in_items v (item w l) = equal v w || in_items v l

-- `requested in container`: a `list` or a `dict` is not hashable, and only a `str` is in a `str`.
unfoldable pub contains : Value → Value → Result Bool
contains v (list l) = ok (in_items v l)
contains (str s) (str t) = ok (contains_text s t)
contains v (str t) = raised type_error
contains (list l) (obj d) = raised type_error
contains (obj m) (obj d) = raised type_error
contains (str s) (obj d) = ok (has s d)
contains v (obj d) = ok false
contains v _ = raised type_error
