-- ===== src/Dispatch.antt =====
-- aitp_verifier/verify.py: the operations, and the arguments that a request must carry.
pub mod Arguments
use aitp_verifier_py.Prelude.{
  ℕ, ◌+◌, Bool, true, false, not, ◌||◌, ◌&&◌, Option, none, some, List, [], ◌∷◌, ltb, ◌==◌, any,
  length, if◌then◌else◌,
}
use aitp_verifier_py.Text.{Text, txt, text_eq, mem_text}
use aitp_verifier_py.Json.{Value, null, bool, int, float, str, list, obj, Members, get, has}

-- An alternative argument set: each required name with its JSON type, or none where the operation
-- itself judges the type.
abbrev pub Arguments : Type 0
Arguments = List (Text × Option Text)

abbrev argument : Text → Text → Text × Option Text
argument name type = (name, some type)

abbrev pub operations : List Text
operations =
    txt "verify_envelope"
    ∷ txt "verify_manifest"
    ∷ txt "verify_tct"
    ∷ txt "verify_tct_as_issuer"
    ∷ txt "verify_attestation"
    ∷ txt "verify_grant_voucher"
    ∷ txt "verify_delegation_token"
    ∷ txt "verify_revocation_snapshot"
    ∷ txt "verify_handshake_payload"
    ∷ txt "verify_session_bundle"
    ∷ []

abbrev pub required_arguments : List (Text × List Arguments)
required_arguments =
    (
      txt "verify_envelope",
      (argument (txt "envelope") (txt "object") ∷ [])
          ∷ (argument (txt "active_tct") (txt "string")
              ∷ argument (txt "requested_capability") (txt "string")
              ∷ [])
          ∷ (argument (txt "manifest_fetch") (txt "object") ∷ [])
          ∷ (argument (txt "needed_key_for") (txt "string") ∷ [])
          ∷ [],
    )
    ∷ (txt "verify_manifest", (argument (txt "manifest") (txt "object") ∷ []) ∷ [])
    ∷ (txt "verify_tct", (argument (txt "tct_token") (txt "string") ∷ []) ∷ [])
    ∷ (
      txt "verify_tct_as_issuer",
      (argument (txt "tct_token") (txt "string") ∷ argument (txt "self_aid") (txt "string") ∷ [])
          ∷ [],
    )
    ∷ (
      txt "verify_attestation",
      (argument (txt "tct_token") (txt "string")
            ∷ argument (txt "expected_ext_key") (txt "string")
            ∷ [])
          ∷ [],
    )
    ∷ (txt "verify_grant_voucher", (argument (txt "voucher_token") (txt "string") ∷ []) ∷ [])
    ∷ (
      txt "verify_delegation_token",
      ((txt "delegation_token", none) ∷ [])
          ∷ (argument (txt "delegation") (txt "object") ∷ [])
          ∷ [],
    )
    ∷ (txt "verify_revocation_snapshot", (argument (txt "snapshot") (txt "object") ∷ []) ∷ [])
    ∷ (
      txt "verify_handshake_payload",
      (argument (txt "envelope") (txt "object") ∷ [])
          ∷ (argument (txt "peer_a") (txt "object") ∷ argument (txt "peer_b") (txt "object") ∷ [])
          ∷ [],
    )
    ∷ (
      txt "verify_session_bundle",
      (argument (txt "self_aid") (txt "string")
            ∷ argument (txt "session_bundle") (txt "object")
            ∷ [])
          ∷ [],
    )
    ∷ []

unfoldable pub supported : Text → Bool
unfolding mem_text
supported operation = mem_text operation operations

-- `table.get(operation)`
unfoldable pub look_up_sets : Text → List (Text × List Arguments) → Option (List Arguments)
look_up_sets operation [] = none
look_up_sets operation ((name, sets) ∷ table) =
    if text_eq operation name then some sets else look_up_sets operation table

-- `REQUIRED_ARGUMENTS.get(operation, ({},))` and `REQUIRED_ARGUMENTS.get(operation, ())`
unfoldable pub sets_or_empty_set : Option (List Arguments) → List Arguments
sets_or_empty_set none = [] ∷ []
sets_or_empty_set (some sets) = sets

unfoldable pub sets_or_nothing : Option (List Arguments) → List Arguments
sets_or_nothing none = []
sets_or_nothing (some sets) = sets

-- `[a for a in names if a not in params]`
unfoldable pub missing_of : Members → Arguments → List Text
missing_of params [] = []
missing_of params ((name, type) ∷ arguments) =
    let rest = missing_of params arguments in if has name params then rest else name ∷ rest

unfoldable pub none_missing : List Text → Bool
none_missing [] = true
none_missing (name ∷ names) = false

-- What `min` compares: the names missing less those of the set, then the names missing. A candidate
-- is the missing names with the number of names in the set.
unfoldable pub is_better : List Text × ℕ → List Text × ℕ → Bool
is_better (m, s) (n, t) =
    ltb (length m + t) (length n + s)
    || ((length m + t == length n + s) && ltb (length m) (length n))

unfoldable pub best_of : List Text × ℕ → List (List Text × ℕ) → List Text
best_of best [] = best.0
best_of best (next ∷ rest) = best_of (if is_better next best then next else best) rest

unfoldable pub sized : Members → List Arguments → List (List Text × ℕ)
sized params [] = []
sized params (arguments ∷ sets) =
    (missing_of params arguments, length arguments) ∷ sized params sets

unfoldable pub first_name : List Text → Option Text
first_name [] = none
first_name (name ∷ names) = some name

unfoldable pub first_of_best : List (List Text × ℕ) → Option Text
first_of_best [] = none
first_of_best (best ∷ rest) = first_name (best_of best rest)

unfoldable pub missing_in : Members → List Arguments → Option Text
missing_in params sets =
    if any (λ arguments. none_missing (missing_of params arguments)) sets
    then none
    else first_of_best (sized params sets)

unfoldable pub missing_argument : Text → Members → Option Text
missing_argument operation params =
    missing_in params (sets_or_empty_set (look_up_sets operation required_arguments))

-- `json_types.get(type(value))`
unfoldable pub json_type : Value → Text
json_type null = txt "null"
json_type (bool b) = txt "boolean"
json_type (int n) = txt "number"
json_type (float f) = txt "number"
json_type (str s) = txt "string"
json_type (list l) = txt "array"
json_type (obj m) = txt "object"

-- What the message says of the first wrong-typed argument: its name, the type it must have, and the
-- type it has.
pub record WrongType : Type 0 where
  pub name : Text
  pub expected : Text
  pub actual : Text

-- The body of the loop, for an argument that is there and has a declared type.
unfoldable pub mismatch : Text → Option Text → Option Value → Option WrongType
mismatch name (some expected) (some v) =
    if text_eq (json_type v) expected
    then none
    else some (record { name = name; expected = expected; actual = json_type v })
mismatch name _ _ = none

unfoldable pub or_next : Option WrongType → Option WrongType → Option WrongType
or_next (some w) rest = some w
or_next none rest = rest

unfoldable pub first_mismatch : Members → Arguments → Option WrongType
first_mismatch params [] = none
first_mismatch params ((name, expected) ∷ arguments) =
    or_next (mismatch name expected (get name params)) (first_mismatch params arguments)

unfoldable pub mismatch_in : Members → List Arguments → Option WrongType
mismatch_in params [] = none
mismatch_in params (arguments ∷ sets) =
    or_next (first_mismatch params arguments) (mismatch_in params sets)

unfoldable pub invalid_argument : Text → Members → Option WrongType
invalid_argument operation params =
    mismatch_in params (sets_or_nothing (look_up_sets operation required_arguments))
