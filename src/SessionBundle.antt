-- ===== src/SessionBundle.antt =====
-- aitp_verifier/sessionbundle.py: Session Trust Bundles (RFC-AITP-0010 §5).
pub mod Participants
pub mod Least
pub mod Sound
pub mod Bundle
use aitp_verifier_py.Prelude.{
  Bool, true, false, not, ◌||◌, Option, none, some, List, [], ◌∷◌, any, if◌then◌else◌,
}
use aitp_verifier_py.Prelude.Int.{ℤ, leb_ℤ, eqb_ℤ}
use aitp_verifier_py.Text.{Text, Bytes, txt}
use aitp_verifier_py.Json.{
  Value, str, obj, Members, get_or_null, at, has, without, is_text, str_type, int_type, list_type,
  dict_type,
}
use aitp_verifier_py.Json.Access.{list_at, text_at, int_at}
use aitp_verifier_py.Outcome.{
  Code, Result, Check, ok, err, raise_if, on_value_error, ◌>>=◌, ◌>>◌, session_bundle_invalid,
  bundle_version_mismatch, bundle_expired, bundle_empty_participants,
  bundle_expiry_window_invariant, bundle_invalid_signature, bundle_not_member,
}
use aitp_verifier_py.Platform.{Platform}
use aitp_verifier_py.Fields.{
  Types, has_extra, require_members, check_types, reject_unknown_members, canonical_bytes_of,
}
use aitp_verifier_py.Jcs.{canonicalize}
use aitp_verifier_py.Crypto.{verify_digest}
use aitp_verifier_py.Aid.{Aid, parse_aid}
use aitp_verifier_py.Jws.{as_object}
use aitp_verifier_py.Sigfield.{decode_tagged_signature}
use aitp_verifier_py.Revocation.{protocol_version, clock}
use aitp_verifier_py.Envelope.Contains.{equal}
use aitp_verifier_py.Manifest.{resolve_manifest}
use aitp_verifier_py.SessionBundle.Participants.{
  shape_entries, token_exps, least, verify_participants, is_member,
}

abbrev pub bundle_fields : List Text
bundle_fields =
    txt "version"
    ∷ txt "session_id"
    ∷ txt "coordinator"
    ∷ txt "issued_at"
    ∷ txt "expires_at"
    ∷ txt "participants"
    ∷ txt "extensions"
    ∷ txt "signature"
    ∷ []

abbrev pub required_bundle_fields : List Text
required_bundle_fields =
    txt "version"
    ∷ txt "session_id"
    ∷ txt "coordinator"
    ∷ txt "issued_at"
    ∷ txt "expires_at"
    ∷ txt "participants"
    ∷ txt "signature"
    ∷ []

abbrev pub bundle_types : Types
bundle_types =
    (txt "version", str_type ∷ [])
    ∷ (txt "session_id", str_type ∷ [])
    ∷ (txt "coordinator", str_type ∷ [])
    ∷ (txt "issued_at", int_type ∷ [])
    ∷ (txt "expires_at", int_type ∷ [])
    ∷ (txt "participants", list_type ∷ [])
    ∷ (txt "extensions", dict_type ∷ [])
    ∷ (txt "signature", str_type ∷ [])
    ∷ []

-- The wrapper has the one member `session_bundle`, an object; then the body's own shape.
unfoldable pub open_wrapper : Value → Result Members
open_wrapper wrapper = do
  outer ← as_object session_bundle_invalid wrapper
  raise_if (not (has (txt "session_bundle") outer)) session_bundle_invalid
  raise_if (has_extra outer (txt "session_bundle" ∷ [])) session_bundle_invalid
  inner ← at (txt "session_bundle") outer
  body ← as_object session_bundle_invalid inner
  require_members body required_bundle_fields session_bundle_invalid
  check_types body bundle_types session_bundle_invalid
  reject_unknown_members body bundle_fields
  ok body

unfoldable pub is_empty {ℓ} : {A : Type ℓ} → List A → Bool
is_empty [] = true
is_empty (x ∷ xs) = false

module _ ⦃π : Platform⦄ where
  -- The version, the expiry before any signature, and the expiry window: `expires_at` is the least
  -- `exp` of the participants' tokens.
  unfoldable pub check_window : Members → List Members → ℤ → Check
  check_window body participants now = do
    raise_if (not (is_text protocol_version (get_or_null (txt "version") body)))
        bundle_version_mismatch
    expires ← int_at (txt "expires_at") body
    raise_if (leb_ℤ expires now) bundle_expired
    raise_if (is_empty participants) bundle_empty_participants
    exps ← token_exps participants
    first ← least exps
    raise_if (not (eqb_ℤ expires first)) bundle_expiry_window_invariant

  -- The coordinator's signature, under the key that its verified Manifest designates.
  unfoldable pub check_coordinator : Members → Aid → Check
  check_coordinator body coord = do
    signature ← at (txt "signature") body
    raw ← decode_tagged_signature signature coord.alg bundle_invalid_signature
    canonical ←
        canonical_bytes_of (canonicalize (obj (without (txt "signature") body)))
          session_bundle_invalid
    raise_if (not (verify_digest coord.public_key (π.sha256 canonical) raw))
        bundle_invalid_signature

  -- From the resolution of the coordinator on.
  unfoldable pub check_signed_bundle : Members → Members → List Members → Value → ℤ → Check
  check_signed_bundle inp body participants self_aid now = do
    coordinator ← text_at (txt "coordinator") body
    parsed ← on_value_error session_bundle_invalid (parse_aid coordinator)
    resolve_manifest coordinator (get_or_null (txt "coordinator_manifest") inp) now
        >>= λ (coord, coord_manifest).
            check_coordinator body coord
            >> verify_participants coordinator coord_manifest participants
            >> (is_member self_aid participants >>= λ belongs.
                raise_if (not belongs) bundle_not_member)

  unfoldable pub verify_session_bundle : Members → Option ℤ → Check
  verify_session_bundle inp given = do
    now ← clock inp given
    self_aid ← at (txt "self_aid") inp
    wrapper ← at (txt "session_bundle") inp
    body ← open_wrapper wrapper
    entries ← list_at (txt "participants") body
    participants ← shape_entries entries
    check_window body participants now
    check_signed_bundle inp body participants self_aid now
