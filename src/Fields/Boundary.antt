-- ===== src/Fields/Boundary.antt =====
-- None of the boundary checks raises a Python exception.
use aitp_verifier_py.Prelude.{List}
use aitp_verifier_py.Text.{Text}
use aitp_verifier_py.Json.{Value, obj, Members}
use aitp_verifier_py.Outcome.{Code, IsVerdict, refused, raise_if-IsVerdict}
use aitp_verifier_py.Fields.{
  Types, require_members, check_types, reject_unknown_members, reject_unknown_fields,
}

pub require_members-IsVerdict :
    (m : Members) (required : List Text) (c : Code) → IsVerdict (require_members m required c)
unfolding require_members
require_members-IsVerdict m required c = raise_if-IsVerdict _ c

pub check_types-IsVerdict :
    (m : Members) (types : Types) (c : Code) → IsVerdict (check_types m types c)
unfolding check_types
check_types-IsVerdict m types c = raise_if-IsVerdict _ c

pub reject_unknown_members-IsVerdict :
    (m : Members) (allowed : List Text) → IsVerdict (reject_unknown_members m allowed)
unfolding reject_unknown_members
reject_unknown_members-IsVerdict m allowed = raise_if-IsVerdict _ _

pub reject_unknown_fields-IsVerdict :
    (v : Value) (allowed : List Text) (c : Code) → IsVerdict (reject_unknown_fields v allowed c)
unfolding reject_unknown_fields
reject_unknown_fields-IsVerdict (obj m) allowed c = reject_unknown_members-IsVerdict m allowed
reject_unknown_fields-IsVerdict _ allowed c = refused c

pub ruleset boundary_rules = (
  require_members-IsVerdict, check_types-IsVerdict, reject_unknown_members-IsVerdict,
  reject_unknown_fields-IsVerdict,
)
