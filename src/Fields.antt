-- ===== src/Fields.antt =====
-- aitp_verifier/fields.py: the boundary checks on a JSON object's members.
pub mod Laws
pub mod Boundary
use aitp_verifier_py.Prelude.{
  Bool, true, false, not, ◌&&◌, ◌||◌, Option, none, some, List, [], ◌∷◌, if◌then◌else◌, any, all,
}
use aitp_verifier_py.Text.{Text, Bytes, mem_text}
use aitp_verifier_py.Json.{
  Value, float, bool, obj, Members, get, has, names, PyType, bool_type, int_type, is_instance,
  is_integer,
}
use aitp_verifier_py.Outcome.{
  Code, Exc, Result, Check, err, raised, raise_if, unknown_field, jcs_error, on_value_error,
}
use aitp_verifier_py.B64.{b64url_decode}

-- Whether a member outside `allowed` is there: the comprehension `extra`.
unfoldable pub has_extra : Members → List Text → Bool
unfolding any mem_text
has_extra m allowed = any (λ k. not (mem_text k allowed)) (names m)

-- `reject_unknown_fields` on an object.
unfoldable pub reject_unknown_members : Members → List Text → Check
reject_unknown_members m allowed = raise_if (has_extra m allowed) unknown_field

unfoldable pub reject_unknown_fields : Value → List Text → Code → Check
reject_unknown_fields (obj m) allowed shape_code = reject_unknown_members m allowed
reject_unknown_fields _ allowed shape_code = err shape_code

unfoldable pub require_members : Members → List Text → Code → Check
require_members m required shape_code = raise_if (not (all (λ k. has k m) required)) shape_code

-- A table of declared types, `dict[str, tuple[type, ...]]`.
abbrev pub Types : Type 0
Types = List (Text × List PyType)

abbrev is_type : PyType → PyType → Bool
is_type PyType.str_type PyType.str_type = true
is_type PyType.int_type PyType.int_type = true
is_type PyType.bool_type PyType.bool_type = true
is_type PyType.list_type PyType.list_type = true
is_type PyType.dict_type PyType.dict_type = true
is_type _ _ = false

-- `type in allowed`.
unfoldable pub allows : PyType → List PyType → Bool
allows t [] = false
allows t (u ∷ us) = is_type t u || allows t us

-- `isinstance(value, allowed)`.
unfoldable pub is_instance_of : Value → List PyType → Bool
unfolding is_instance
is_instance_of v [] = false
is_instance_of v (t ∷ ts) = is_instance v t || is_instance_of v ts

-- The body of the loop in `check_types`: whether the value passes.
unfoldable pub has_type : Value → List PyType → Bool
unfolding is_instance_of allows is_integer
has_type (bool b) allowed = allows bool_type allowed && is_instance_of (bool b) allowed
has_type (float f) allowed =
    (allows int_type allowed && is_integer f) || is_instance_of (float f) allowed
has_type v allowed = is_instance_of v allowed

-- `key not in obj`, or its value passes.
unfoldable pub member_has_type : Members → Text × List PyType → Bool
unfolding get has_type
member_has_type m (k, allowed) = elim (get k m) [ none ↦ true | some v ↦ has_type v allowed ]

unfoldable pub check_types : Members → Types → Code → Check
check_types m types shape_code = raise_if (not (all (member_has_type m) types)) shape_code

-- `canonical_bytes`, given what `canonicalize` came to.
unfoldable pub canonical_bytes_of : Result Bytes → Code → Result Bytes
canonical_bytes_of (raised jcs_error) shape_code = err shape_code
canonical_bytes_of r shape_code = r

unfoldable pub decode_b64url : Text → Code → Result Bytes
decode_b64url text code = on_value_error code (b64url_decode text)
