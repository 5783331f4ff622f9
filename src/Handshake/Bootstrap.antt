-- ===== src/Handshake/Bootstrap.antt =====
-- `_verify_bootstrap` of aitp_verifier/handshake.py: round 1, the Manifest and the identity.
pub mod Sound
use aitp_verifier_py.Prelude.{
  Bool, true, false, not, ◌&&◌, Option, none, some, List, [], ◌∷◌, ◌++◌, if◌then◌else◌,
}
use aitp_verifier_py.Prelude.Int.{ℤ}
use aitp_verifier_py.Text.{Text, txt, text_eq, mem_text}
use aitp_verifier_py.Json.{
  Value, null, str, list, obj, nil, Members, end, get, get_or_null, at, has, items, is_text,
}
use aitp_verifier_py.Json.Access.{text_at, members_at}
use aitp_verifier_py.Outcome.{
  Code, Result, Check, ok, err, raise_if, ◌>>=◌, ◌>>◌, invalid_envelope, invalid_signature,
  identity_failed, peer_mismatch, nonce_mismatch, incompatible_identity_type,
}
use aitp_verifier_py.Platform.{Platform}
use aitp_verifier_py.Fields.{require_members, reject_unknown_members}
use aitp_verifier_py.Crypto.{verify_digest}
use aitp_verifier_py.Aid.{parse_aid}
use aitp_verifier_py.Jws.{as_object}
use aitp_verifier_py.Sigfield.{decode_tagged_signature}
use aitp_verifier_py.Envelope.{envelope_signing_input}
use aitp_verifier_py.Envelope.Contains.{equal}
use aitp_verifier_py.Manifest.{texts_in, manifest_input, verify_manifest}
use aitp_verifier_py.Identity.Binding.{Policy, verify_identity}

abbrev pub hello_payload_fields : List Text
hello_payload_fields =
    txt "identity"
    ∷ txt "manifest"
    ∷ txt "requested_grants"
    ∷ txt "pop_nonce"
    ∷ txt "extensions"
    ∷ []

abbrev pub hello_ack_payload_fields : List Text
hello_ack_payload_fields = txt "pop_nonce_echo" ∷ hello_payload_fields

abbrev pub hello_required_payload_fields : List Text
hello_required_payload_fields =
    txt "identity" ∷ txt "manifest" ∷ txt "requested_grants" ∷ txt "pop_nonce" ∷ []

abbrev pub is_ack : Text → Bool
is_ack mtype = text_eq mtype (txt "mutual_hello_ack")

unfoldable pub allowed_fields : Text → List Text
allowed_fields mtype = if is_ack mtype then hello_ack_payload_fields else hello_payload_fields

-- `_string_list`
unfoldable pub string_list : Value → List Text
string_list (list l) = texts_in (items l)
string_list _ = []

-- `inp.get("self_accepted_identity_types", ("oidc",))`
unfoldable pub accepted_types : Option Value → List Text
accepted_types none = txt "oidc" ∷ []
accepted_types (some v) = string_list v

-- `config.get("spiffe_bundles", []) if isinstance(config, dict) else []`
unfoldable pub configured_bundles : Value → Value
configured_bundles (obj config) = elim (get (txt "spiffe_bundles") config) [
  | none ↦ list nil
  | some v ↦ v
]
configured_bundles _ = list nil

-- `_spiffe_bundles`
unfoldable pub spiffe_bundles_of : Members → Value
spiffe_bundles_of inp =
    if is_text (txt "experimental-spiffe-identity") (get_or_null (txt "_feature") inp)
    then configured_bundles (get_or_null (txt "trust_anchors_config") inp)
    else null

-- The receiver's policy in the input.
unfoldable pub policy_in : Members → Policy
policy_in inp = record {
  self_aid = elim (get (txt "self_aid") inp) [ none ↦ str [] | some v ↦ v ];
  trust_anchors = string_list (get_or_null (txt "self_trust_anchors") inp);
  trust_store = get_or_null (txt "trust_store") inp;
  issuer_keys = elim (get (txt "resolved_issuer_keys") inp) [ none ↦ obj end | some v ↦ v ];
  spiffe_bundles = spiffe_bundles_of inp;
}

-- `identity["type"] not in accepted`
unfoldable pub is_accepted : Value → List Text → Bool
is_accepted (str itype) accepted = mem_text itype accepted
is_accepted _ accepted = false

-- An ACK comes from the peer that was addressed, where the input names one.
unfoldable pub check_peer : Members → Text → Text → Check
check_peer inp mtype agent_id =
    raise_if
      (is_ack mtype
        && (has (txt "peer_aid") inp && not (is_text agent_id (get_or_null (txt "peer_aid") inp))))
      peer_mismatch

-- An ACK echoes the nonce that was sent, where the input has it.
unfoldable pub check_echo : Members → Members → Text → Check
check_echo inp payload mtype =
    raise_if
      (is_ack mtype
        && (has (txt "sent_pop_nonce") inp
            && not (
                equal (get_or_null (txt "pop_nonce_echo") payload)
                  (get_or_null (txt "sent_pop_nonce") inp))))
      nonce_mismatch

-- The members of the payload, before anything is verified.
unfoldable pub check_hello_payload : Members → Text → Check
check_hello_payload payload mtype = do
  reject_unknown_members payload (allowed_fields mtype)
  require_members payload hello_required_payload_fields invalid_envelope

-- The hint in the Manifest names the type of the identity.
unfoldable pub check_hint : Members → Members → Check
check_hint man identity = do
  hint ← members_at (txt "identity_hint") man
  raise_if (not (equal (get_or_null (txt "type") hint) (get_or_null (txt "type") identity)))
      identity_failed

module _ ⦃π : Platform⦄ where
  -- Step 7: the envelope's own signature, under the sender's key.
  unfoldable pub check_envelope_signature : Members → Text → Check
  check_envelope_signature env agent_id = do
    aid ← parse_aid agent_id
    signature ← at (txt "signature") env
    raw ← decode_tagged_signature signature aid.alg invalid_signature
    signed ← envelope_signing_input env
    raise_if (not (verify_digest aid.public_key (π.sha256 signed) raw)) invalid_signature

module _ ⦃π : Platform⦄ (verify_spiffe : Members → Members → Value → Value → ℤ → Check) where
  -- What follows the Manifest.
  unfoldable pub check_identity : Members → Members → Members → Value → Text → Text → ℤ → Check
  check_identity inp env payload manifest mtype agent_id now = do
    man ← as_object invalid_envelope manifest
    raise_if (not (is_text agent_id (get_or_null (txt "aid") man))) invalid_envelope
    supplied ← at (txt "identity") payload
    identity ← as_object identity_failed supplied
    check_hint man identity
    verify_identity verify_spiffe identity env (policy_in inp) now
    check_envelope_signature env agent_id
    itype ← at (txt "type") identity
    raise_if
        (not (is_accepted itype (accepted_types (get (txt "self_accepted_identity_types") inp))))
        incompatible_identity_type
    check_echo inp payload mtype

  unfoldable pub verify_bootstrap : Members → Members → Text → ℤ → Check
  verify_bootstrap inp env mtype now = do
    payload ← members_at (txt "payload") env
    check_hello_payload payload mtype
    manifest ← at (txt "manifest") payload
    sender ← members_at (txt "sender") env
    agent_id ← text_at (txt "agent_id") sender
    check_peer inp mtype agent_id
    verified ← verify_manifest (manifest_input manifest now) now
    check_identity inp env payload manifest mtype agent_id now
