-- ===== src/Envelope.antt =====
-- aitp_verifier/envelope.py: signed envelopes (RFC-AITP-0001 §5.4, §5.5).
pub mod Contains
pub mod Sound
pub mod Window
use aitp_verifier_py.Prelude.{
  ℕ, Bool, true, false, not, ◌&&◌, ◌||◌, Option, none, some, List, [], ◌∷◌, ◌++◌, ltb, ◌==◌,
  replicate, if◌then◌else◌,
}
use aitp_verifier_py.Prelude.Int.{ℤ, pos, negsuc, ◌-ℤ◌, abs, ltb_ℤ}
use aitp_verifier_py.Text.{Text, Bytes, txt, strip_prefix, in_range, full_match}
use aitp_verifier_py.Json.{
  Value, null, int, float, str, list, obj, dyadic, Items, nil, Members, get, get_or_null, at, has,
  without, is_text, str_type, int_type, dict_type,
}
use aitp_verifier_py.Json.Access.{text_at, members_at, to_int}
use aitp_verifier_py.Outcome.{
  Code, Result, Check, ok, err, raised, raise_if, on_value_error, ◌>>=◌, ◌>>◌, unknown_version,
  invalid_envelope, invalid_signature, timestamp_expired, policy_violation, key_resolution_failed,
}
use aitp_verifier_py.Platform.{Platform}
use aitp_verifier_py.Fields.{
  Types, require_members, check_types, reject_unknown_members, canonical_bytes_of,
}
use aitp_verifier_py.Jcs.{canonicalize}
use aitp_verifier_py.Crypto.{verify_digest}
use aitp_verifier_py.Aid.{Aid, parse_aid}
use aitp_verifier_py.Jws.{parse_compact}
use aitp_verifier_py.Sigfield.{decode_tagged_signature}
use aitp_verifier_py.Revocation.{protocol_version}
use aitp_verifier_py.Envelope.Contains.{contains}

abbrev pub envelope_fields : List Text
envelope_fields =
    txt "version"
    ∷ txt "message_type"
    ∷ txt "message_id"
    ∷ txt "timestamp"
    ∷ txt "sender"
    ∷ txt "payload"
    ∷ txt "signature"
    ∷ txt "extensions"
    ∷ []

abbrev pub required_envelope_fields : List Text
required_envelope_fields =
    txt "version"
    ∷ txt "message_type"
    ∷ txt "message_id"
    ∷ txt "timestamp"
    ∷ txt "sender"
    ∷ txt "payload"
    ∷ txt "signature"
    ∷ []

abbrev pub envelope_types : Types
envelope_types =
    (txt "version", str_type ∷ [])
    ∷ (txt "message_type", str_type ∷ [])
    ∷ (txt "message_id", str_type ∷ [])
    ∷ (txt "timestamp", int_type ∷ [])
    ∷ (txt "sender", dict_type ∷ [])
    ∷ (txt "payload", dict_type ∷ [])
    ∷ (txt "signature", str_type ∷ [])
    ∷ (txt "extensions", dict_type ∷ [])
    ∷ []

abbrev pub sender_fields : List Text
sender_fields = txt "agent_id" ∷ []

abbrev pub sender_types : Types
sender_types = (txt "agent_id", str_type ∷ []) ∷ []

-- `ENVELOPE_DOMAIN_TAG`
unfoldable pub envelope_domain_tag : Bytes
unfolding txt
envelope_domain_tag = txt "aitp-envelope-v2" ++ (0 ∷ [])

-- `[A-Za-z0-9_-]`
unfoldable pub base64url_char : ℕ → Bool
base64url_char c =
    in_range b'A' b'Z' c
    || (in_range b'a' b'z' c || (in_range b'0' b'9' c || ((c == b'_') || (c == b'-'))))

unfoldable pub signature_body : Text → Bool
signature_body s = full_match (replicate 86 base64url_char) s

-- `_SIGNATURE_PATTERN.fullmatch`: its three readings, by the tag.
unfoldable pub tagged_body : Text → Text → Bool
tagged_body tag s = elim (strip_prefix tag s) [ none ↦ false | some body ↦ signature_body body ]

unfoldable pub signature_pattern : Text → Bool
signature_pattern s =
    signature_body s || (tagged_body (txt "ed25519.") s || tagged_body (txt "p256.") s)

-- `env["timestamp"] < 0` of a number that passed the type check.
unfoldable pub is_negative : Value → Bool
is_negative (int (negsuc n)) = true
is_negative (float (dyadic (negsuc n) k)) = true
is_negative _ = false

unfoldable pub validate_members : Members → Check
validate_members env = do
  raise_if (not (is_text protocol_version (get_or_null (txt "version") env))) unknown_version
  require_members env required_envelope_fields invalid_envelope
  check_types env envelope_types invalid_envelope
  reject_unknown_members env envelope_fields
  timestamp ← at (txt "timestamp") env
  raise_if (is_negative timestamp) invalid_envelope
  signature ← text_at (txt "signature") env
  raise_if (not (signature_pattern signature)) invalid_envelope
  sender ← members_at (txt "sender") env
  require_members sender sender_fields invalid_envelope
  check_types sender sender_types invalid_envelope
  reject_unknown_members sender sender_fields

unfoldable pub validate_envelope_shape : Value → Result Members
validate_envelope_shape (obj env) = do validate_members env; ok env
validate_envelope_shape _ = err invalid_envelope

-- `raw_env.get("timestamp") if isinstance(raw_env, dict) else None`
unfoldable pub timestamp_of : Value → Value
timestamp_of (obj env) = get_or_null (txt "timestamp") env
timestamp_of _ = null

-- The replay window, which runs on a Python `int` only.
unfoldable pub outside_window : Value → ℤ → ℤ → Bool
outside_window (int ts) now tolerance = ltb_ℤ tolerance (pos (abs (now -ℤ ts)))
outside_window _ now tolerance = false

module _ ⦃π : Platform⦄ where
  unfoldable pub envelope_signing_input : Members → Result Bytes
  envelope_signing_input env = do
    canonical ←
        canonical_bytes_of (canonicalize (obj (without (txt "signature") env))) invalid_envelope
    ok (envelope_domain_tag ++ canonical)

  -- `int(inp.get("tolerance_seconds", 300))`
  unfoldable pub to_tolerance : Option Value → Result ℤ
  to_tolerance none = ok (pos 300)
  to_tolerance (some v) = to_int v

  unfoldable pub check_sender_signature : Members → Check
  check_sender_signature env = do
    sender ← members_at (txt "sender") env
    agent_id ← text_at (txt "agent_id") sender
    aid ← on_value_error invalid_envelope (parse_aid agent_id)
    raw ← decode_tagged_signature (get_or_null (txt "signature") env) aid.alg invalid_signature
    signed ← envelope_signing_input env
    raise_if (not (verify_digest aid.public_key (π.sha256 signed) raw)) invalid_signature

  unfoldable pub check_signed : Members → ℤ → Check
  check_signed inp now = do
    raw_env ← at (txt "envelope") inp
    tolerance ← to_tolerance (get (txt "tolerance_seconds") inp)
    raise_if (outside_window (timestamp_of raw_env) now tolerance) timestamp_expired
    env ← validate_envelope_shape raw_env
    check_sender_signature env

  -- `claims.get("grants", [])`
  unfoldable pub grants_of : Option Value → Value
  grants_of none = list nil
  grants_of (some v) = v

  unfoldable pub check_capability : Members → Check
  check_capability inp = do
    active_tct ← at (txt "active_tct") inp
    parsed ← parse_compact active_tct invalid_signature
    requested ← at (txt "requested_capability") inp
    granted ← contains requested (grants_of (get (txt "grants") parsed.claims))
    raise_if (not granted) policy_violation

  unfoldable pub verify_envelope : Members → ℤ → Check
  verify_envelope inp now =
      if has (txt "manifest_fetch") inp || has (txt "needed_key_for") inp
      then err key_resolution_failed
      else if has (txt "active_tct") inp && has (txt "requested_capability") inp
      then check_capability inp
      else check_signed inp now
