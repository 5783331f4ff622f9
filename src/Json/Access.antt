-- ===== src/Json/Access.antt =====
-- How the verifiers read members that a shape check has passed: `int(d[key])`, `d[key]` as a string,
-- and the loop over a list.
pub mod Laws
use aitp_verifier_py.Prelude.{Bool, true, false, Option, none, some, List}
use aitp_verifier_py.Prelude.Int.{ℤ, pos}
use aitp_verifier_py.Text.{Text}
use aitp_verifier_py.Json.{
  Value, null, bool, int, float, str, list, obj, Members, get, at, items, int_of_float, all_texts,
}
use aitp_verifier_py.Outcome.{Result, ok, raised, or_raise, type_error, value_error, ◌>>=◌}
use aitp_verifier_py.Platform.{Platform}

-- `for x in value`. Every loop of the verifiers runs over a member that was checked to be a list.
unfoldable pub iterate : Value → Result (List Value)
iterate (list l) = ok (items l)
iterate _ = raised type_error

unfoldable pub list_at : Text → Members → Result (List Value)
list_at k m = do v ← at k m; iterate v

-- A member that was checked to be a string, and one that was checked to be an object.
unfoldable pub as_text : Value → Result Text
as_text (str s) = ok s
as_text _ = raised type_error

unfoldable pub text_at : Text → Members → Result Text
text_at k m = do v ← at k m; as_text v

unfoldable pub as_members : Value → Result Members
as_members (obj d) = ok d
as_members _ = raised type_error

unfoldable pub members_at : Text → Members → Result Members
members_at k m = do v ← at k m; as_members v

-- `all(isinstance(x, str) for x in value)`
unfoldable pub are_texts : List Value → Bool
are_texts l = elim (all_texts l) [ none ↦ false | some ss ↦ true ]

-- A member that was checked to be an array of strings.
unfoldable pub texts_at : Text → Members → Result (List Text)
texts_at k m = do l ← list_at k m; or_raise type_error (all_texts l)

module _ ⦃π : Platform⦄ where
  -- `int(value)`
  unfoldable pub to_int : Value → Result ℤ
  to_int null = raised type_error
  to_int (bool true) = ok (pos 1)
  to_int (bool false) = ok (pos 0)
  to_int (int n) = ok n
  to_int (float f) = int_of_float f
  to_int (str s) = or_raise value_error (π.int_of_text s)
  to_int (list l) = raised type_error
  to_int (obj m) = raised type_error

  unfoldable pub int_at : Text → Members → Result ℤ
  int_at k m = do v ← at k m; to_int v
