-- ===== src/Revocation.antt =====
-- aitp_verifier/revocation.py: revocation snapshots (RFC-AITP-0008).
pub mod Trust
pub mod Boundary
pub mod Verdict
use aitp_verifier_py.Prelude.{
  ℕ, Bool, true, false, not, ◌&&◌, ◌||◌, Option, none, some, List, [], ◌∷◌, any, if◌then◌else◌,
}
use aitp_verifier_py.Prelude.Int.{ℤ, ◌-ℤ◌, leb_ℤ, ltb_ℤ}
use aitp_verifier_py.Text.{Text, txt, text_eq}
use aitp_verifier_py.Json.{
  Value, null, str, obj, Members, end, get, get_or_null, at, is_text, PyType, str_type, int_type,
  list_type, dict_type,
}
use aitp_verifier_py.Json.Access.{list_at, text_at, int_at, to_int}
use aitp_verifier_py.Outcome.{
  Code, Result, Check, ok, err, raised, raise_if, on_value_error, ◌>>=◌, ◌>>◌,
  revocation_snapshot_invalid, revocation_snapshot_signature_invalid, tct_revoked,
}
use aitp_verifier_py.Platform.{Platform}
use aitp_verifier_py.Fields.{
  Types, require_members, check_types, reject_unknown_members, reject_unknown_fields,
  canonical_bytes_of,
}
use aitp_verifier_py.Jcs.{canonicalize}
use aitp_verifier_py.Crypto.{verify_digest}
use aitp_verifier_py.Aid.{Aid, parse_aid}
use aitp_verifier_py.Sigfield.{decode_tagged_signature}

-- aitp_verifier/version.py
abbrev pub protocol_version : Text
protocol_version = txt "aitp/0.3"

abbrev pub snapshot_fields : List Text
snapshot_fields = txt "revocation_list" ∷ txt "signature" ∷ []

abbrev pub body_fields : List Text
body_fields =
    txt "version"
    ∷ txt "issuer"
    ∷ txt "published_at"
    ∷ txt "expires_at"
    ∷ txt "entries"
    ∷ txt "extensions"
    ∷ []

abbrev pub entry_fields : List Text
entry_fields = txt "jti" ∷ txt "revoked_at" ∷ txt "reason" ∷ []

abbrev pub body_types : Types
body_types =
    (txt "version", str_type ∷ [])
    ∷ (txt "issuer", str_type ∷ [])
    ∷ (txt "published_at", int_type ∷ [])
    ∷ (txt "expires_at", int_type ∷ [])
    ∷ (txt "entries", list_type ∷ [])
    ∷ (txt "extensions", dict_type ∷ [])
    ∷ []

abbrev pub entry_types : Types
entry_types =
    (txt "jti", str_type ∷ [])
    ∷ (txt "revoked_at", int_type ∷ [])
    ∷ (txt "reason", str_type ∷ [])
    ∷ []

abbrev pub required_body_fields : List Text
required_body_fields =
    txt "version" ∷ txt "issuer" ∷ txt "published_at" ∷ txt "expires_at" ∷ txt "entries" ∷ []

abbrev pub required_entry_fields : List Text
required_entry_fields = txt "jti" ∷ txt "revoked_at" ∷ []

-- `FAIL_MODES`
pub data FailMode : Type 0 where
  fail_closed fail_open soft_fail : FailMode

unfoldable pub resolve_fail_mode : Value → FailMode
resolve_fail_mode (str s) =
    if text_eq s (txt "fail_open")
    then fail_open
    else if text_eq s (txt "soft_fail")
    then soft_fail
    else fail_closed
resolve_fail_mode _ = fail_closed

-- the value, if it is a `dict`, and `{}` otherwise
abbrev dict_or_empty : Option Value → Members
dict_or_empty (some (obj p)) = p
dict_or_empty _ = end

unfoldable pub policy_of : Members → Members
policy_of inp = dict_or_empty (get (txt "policy") inp)

-- An absent `fail_mode` is the default `fail_closed`, as any value outside the three is.
unfoldable pub policy_fail_mode : Members → FailMode
policy_fail_mode inp = resolve_fail_mode (get_or_null (txt "fail_mode") (policy_of inp))

-- `except (TypeError, ValueError, OverflowError): return True`: these are all that `int` raises.
abbrev older_than : ℤ → Result ℤ → Bool
older_than age (ok bound) = ltb_ℤ bound age
older_than age _ = true

module _ ⦃π : Platform⦄ where
  -- `max_staleness_secs` against the age of the snapshot.
  unfoldable pub past_bound : Value → ℤ → Members → Result Bool
  past_bound null now body = ok false
  past_bound max_staleness now body = do
    published ← int_at (txt "published_at") body
    ok (older_than (now -ℤ published) (to_int max_staleness))

  unfoldable pub snapshot_is_stale : Members → Members → ℤ → Result Bool
  snapshot_is_stale body policy now = do
    expires ← int_at (txt "expires_at") body
    if leb_ℤ expires now
        then ok true
        else past_bound (get_or_null (txt "max_staleness_secs") policy) now body

-- The loop over `entries` of `_validate_shape`.
unfoldable pub check_entry : Value → Check
check_entry (obj e) = do
  require_members e required_entry_fields revocation_snapshot_invalid
  check_types e entry_types revocation_snapshot_invalid
check_entry _ = err revocation_snapshot_invalid

unfoldable pub check_entries : List Value → Check
check_entries [] = ok tt
check_entries (e ∷ es) = do check_entry e; check_entries es

unfoldable pub validate_body : Value → Result Members
validate_body (obj body) = do
  require_members body required_body_fields revocation_snapshot_invalid
  check_types body body_types revocation_snapshot_invalid
  raise_if (not (is_text protocol_version (get_or_null (txt "version") body)))
      revocation_snapshot_invalid
  entries ← list_at (txt "entries") body
  check_entries entries
  ok body
validate_body _ = err revocation_snapshot_invalid

unfoldable pub is_str : Value → Bool
is_str (str s) = true
is_str _ = false

-- `_validate_shape`
unfoldable pub validate_shape : Value → Result Members
validate_shape (obj snapshot) = do
  require_members snapshot snapshot_fields revocation_snapshot_invalid
  signature ← at (txt "signature") snapshot
  raise_if (not (is_str signature)) revocation_snapshot_invalid
  body ← at (txt "revocation_list") snapshot
  validate_body body
validate_shape _ = err revocation_snapshot_invalid

unfoldable pub check_entry_fields : List Value → Check
check_entry_fields [] = ok tt
check_entry_fields (e ∷ es) = do
  reject_unknown_fields e entry_fields revocation_snapshot_invalid
  check_entry_fields es

-- Stage 2, the member sets.
unfoldable pub check_fields : Value → Members → Check
check_fields snapshot body = do
  reject_unknown_fields snapshot snapshot_fields revocation_snapshot_invalid
  reject_unknown_members body body_fields
  entries ← list_at (txt "entries") body
  check_entry_fields entries

abbrev signature_of : Value → Value
signature_of (obj m) = get_or_null (txt "signature") m
signature_of _ = null

module _ ⦃π : Platform⦄ where
  -- Stage 3, the signature.
  unfoldable pub check_signature : Value → Members → Check
  check_signature snapshot body = do
    issuer_text ← text_at (txt "issuer") body
    issuer ← on_value_error revocation_snapshot_invalid (parse_aid issuer_text)
    raw ←
        decode_tagged_signature (signature_of snapshot) issuer.alg
          revocation_snapshot_signature_invalid
    bytes ← canonical_bytes_of (canonicalize (obj body)) revocation_snapshot_invalid
    raise_if (not (verify_digest issuer.public_key (π.sha256 bytes) raw))
        revocation_snapshot_signature_invalid

  unfoldable pub verify_snapshot_trust : Value → Result Members
  verify_snapshot_trust snapshot = do
    body ← validate_shape snapshot
    check_fields snapshot body
    check_signature snapshot body
    ok body

-- `{"revoked": False}`, without and with `"stale": True`.
pub data Status : Type 0 where
  not_revoked stale : Status

-- Whether a snapshot's `entries` name the `jti`: `any(e.get("jti") == jti for e in entries)`.
unfoldable pub names_jti : Text → Value → Bool
names_jti jti (obj e) = is_text jti (get_or_null (txt "jti") e)
names_jti jti _ = false

unfoldable pub lists_jti : Text → List Value → Bool
lists_jti jti entries = any (names_jti jti) entries

-- What the mode answers about an absent snapshot.
unfoldable pub absent : FailMode → Result Status
absent fail_closed = err tct_revoked
absent _ = ok stale

-- `queried is not None and any(...)`. An entry's `jti` is a string, so no other value equals it.
unfoldable pub look_up : Value → List Value → Result Status
look_up (str queried) entries = do raise_if (lists_jti queried entries) tct_revoked; ok not_revoked
look_up _ entries = ok not_revoked

-- `now`, or `int(inp["now"])` where the caller gave none.
unfoldable pub clock : ⦃π : Platform⦄ → Members → Option ℤ → Result ℤ
clock inp none = int_at (txt "now") inp
clock inp (some now) = ok now

module _ ⦃π : Platform⦄ where
  -- Stage 4, on a trusted body: absence first, then the deny list. The members of a trusted body can
  -- all be read, so that reading them up front changes nothing.
  unfoldable pub evaluate : Members → Members → ℤ → Result Status
  evaluate inp body now = do
    issuer ← text_at (txt "issuer") body
    is_old ← snapshot_is_stale body (policy_of inp) now
    entries ← list_at (txt "entries") body
    let issuer_ok = is_text issuer (get_or_null (txt "expected_issuer") inp)
    if not (issuer_ok && not is_old)
        then absent (policy_fail_mode inp)
        else look_up (get_or_null (txt "queried_jti") inp) entries

  unfoldable pub verify_revocation_snapshot : Members → Option ℤ → Result Status
  verify_revocation_snapshot inp now = do
    time ← clock inp now
    snapshot ← at (txt "snapshot") inp
    body ← verify_snapshot_trust snapshot
    evaluate inp body time
