-- ===== src/Manifest.antt =====
-- aitp_verifier/manifest.py: Agent Manifests (RFC-AITP-0003 §5).
pub mod Uri
pub mod Sound
pub mod Resolve
pub mod Readable
pub mod Boundary
pub mod Hint
use aitp_verifier_py.Prelude.{
  ℕ, Bool, true, false, not, ◌&&◌, ◌||◌, Option, none, some, List, [], ◌∷◌, ltb, ◌==◌, ◌^◌,
  replicate, length, all, if◌then◌else◌,
}
use aitp_verifier_py.Prelude.Int.{ℤ, pos, negsuc, leb_ℤ}
use aitp_verifier_py.Text.{Text, txt, mem_text, text_eq, strip_prefix, in_range, full_match}
use aitp_verifier_py.Json.{
  Value, null, int, float, str, list, obj, dyadic, item, nil, Members, end, member, get,
  get_or_null, at, has, without, items, is_text, str_type, int_type, list_type, dict_type,
}
use aitp_verifier_py.Json.Access.{iterate, text_at, members_at, int_at, to_int}
use aitp_verifier_py.Outcome.{
  Code, Result, Check, ok, err, raised, raise_if, on_value_error, ◌>>=◌, ◌>>◌, unknown_field,
  key_error, manifest_invalid, manifest_version_unknown, manifest_expired, manifest_pop_failed,
  manifest_signature_invalid, key_resolution_failed,
}
use aitp_verifier_py.Platform.{Platform}
use aitp_verifier_py.Fields.{
  Types, require_members, check_types, reject_unknown_members, canonical_bytes_of,
}
use aitp_verifier_py.B64.{b64url_decode}
use aitp_verifier_py.Jcs.{canonicalize}
use aitp_verifier_py.Crypto.{verify_digest}
use aitp_verifier_py.Aid.{Aid, parse_aid}
use aitp_verifier_py.Sigfield.{decode_tagged_signature}
use aitp_verifier_py.Revocation.{protocol_version}
use aitp_verifier_py.Envelope.{base64url_char, signature_pattern, is_negative}
use aitp_verifier_py.Envelope.Contains.{contains}
use aitp_verifier_py.Regex.{matches}
use aitp_verifier_py.Manifest.Uri.{is_uri, capability_pattern, spiffe_hint_subject, aid_pattern}

abbrev pub manifest_fields : List Text
manifest_fields =
    txt "version"
    ∷ txt "aid"
    ∷ txt "display_name"
    ∷ txt "identity_hint"
    ∷ txt "handshake_endpoint"
    ∷ txt "accepted_trust_anchors"
    ∷ txt "offered_capabilities"
    ∷ txt "required_peer_capabilities"
    ∷ txt "accepted_identity_types"
    ∷ txt "accepted_signature_algorithms"
    ∷ txt "proof_of_possession"
    ∷ txt "published_at"
    ∷ txt "expires_at"
    ∷ txt "extensions"
    ∷ txt "signature"
    ∷ []

abbrev pub pop_fields : List Text
pop_fields = txt "challenge" ∷ txt "signature" ∷ []

abbrev pub manifest_types : Types
manifest_types =
    (txt "version", str_type ∷ [])
    ∷ (txt "aid", str_type ∷ [])
    ∷ (txt "display_name", str_type ∷ [])
    ∷ (txt "identity_hint", dict_type ∷ [])
    ∷ (txt "handshake_endpoint", str_type ∷ [])
    ∷ (txt "accepted_trust_anchors", list_type ∷ [])
    ∷ (txt "offered_capabilities", list_type ∷ [])
    ∷ (txt "required_peer_capabilities", list_type ∷ [])
    ∷ (txt "accepted_identity_types", list_type ∷ [])
    ∷ (txt "accepted_signature_algorithms", list_type ∷ [])
    ∷ (txt "proof_of_possession", dict_type ∷ [])
    ∷ (txt "published_at", int_type ∷ [])
    ∷ (txt "expires_at", int_type ∷ [])
    ∷ (txt "extensions", dict_type ∷ [])
    ∷ (txt "signature", str_type ∷ [])
    ∷ []

abbrev pub pop_types : Types
pop_types = (txt "challenge", str_type ∷ []) ∷ (txt "signature", str_type ∷ []) ∷ []

abbrev pub identity_hint_types : Types
identity_hint_types =
    (txt "type", str_type ∷ [])
    ∷ (txt "issuer", str_type ∷ [])
    ∷ (txt "subject", str_type ∷ [])
    ∷ (txt "public_key", str_type ∷ [])
    ∷ []

abbrev pub required_manifest_fields : List Text
required_manifest_fields =
    txt "version"
    ∷ txt "aid"
    ∷ txt "identity_hint"
    ∷ txt "handshake_endpoint"
    ∷ txt "accepted_trust_anchors"
    ∷ txt "offered_capabilities"
    ∷ txt "proof_of_possession"
    ∷ txt "published_at"
    ∷ txt "expires_at"
    ∷ txt "signature"
    ∷ []

abbrev pub identity_hint_fields : List Text
identity_hint_fields = txt "type" ∷ txt "issuer" ∷ txt "subject" ∷ txt "public_key" ∷ []

abbrev pub required_identity_hint_fields : List Text
required_identity_hint_fields = txt "type" ∷ txt "subject" ∷ []

abbrev pub identity_hint_type_values : List Text
identity_hint_type_values = txt "oidc" ∷ txt "pinned_key" ∷ txt "spiffe" ∷ []

abbrev pub signature_algorithms : List Text
signature_algorithms = txt "ed25519" ∷ txt "p256" ∷ []

-- `_shape`, with the object it passed.
unfoldable pub shape : Value → List Text → Types → Result Members
shape (obj m) required types = do
  require_members m required manifest_invalid
  check_types m types manifest_invalid
  ok m
shape _ required types = err manifest_invalid

-- An item of an array: a string that its rule takes.
unfoldable pub item_passes : (Text → Bool) → Value → Bool
item_passes rule (str s) = rule s
item_passes rule _ = false

-- `len(set(items)) == len(items)`, on strings.
unfoldable pub no_repeats : List Text → Bool
unfolding mem_text
no_repeats [] = true
no_repeats (s ∷ ss) = not (mem_text s ss) && no_repeats ss

unfoldable pub texts_in : List Value → List Text
texts_in [] = []
texts_in (str s ∷ vs) = s ∷ texts_in vs
texts_in (v ∷ vs) = texts_in vs

-- `man.get(member, [])`
unfoldable pub items_of : Members → Text → Result (List Value)
items_of man name = elim (get name man) [ none ↦ ok [] | some v ↦ iterate v ]

-- One round of the loop over `_ARRAY_ITEM_RULES`.
unfoldable pub check_array : Members → Text → (Text → Bool) → Check
check_array man name rule = do
  values ← items_of man name
  raise_if (not (all (item_passes rule) values)) manifest_invalid
  raise_if (not (no_repeats (texts_in values))) manifest_invalid

-- `value < 1` of a number that passed the type check.
unfoldable pub below_one : Value → Bool
unfolding is_negative
below_one (int (pos n)) = n == 0
below_one (float (dyadic (pos m) k)) = ltb m (2 ^ k)
below_one v = is_negative v

-- `len(man.get("display_name", "")) > 128`
unfoldable pub long_name : Value → Bool
long_name (str name) = ltb 128 (length name)
long_name _ = false

-- `_CHALLENGE_PATTERN` and `_PUBLIC_KEY_PATTERN`
unfoldable pub challenge_pattern : Text → Bool
challenge_pattern s = full_match (replicate 22 base64url_char) s

unfoldable pub public_key_pattern : Text → Bool
public_key_pattern s =
    full_match (replicate 43 base64url_char) s || full_match (replicate 44 base64url_char) s

unfoldable pub starts_with : Text → Text → Bool
starts_with p s = elim (strip_prefix p s) [ none ↦ false | some rest ↦ true ]

-- The bounds and the patterns at the end of `_validate_grammar`.
unfoldable pub check_bounds : Members → Members → Check
check_bounds man pop = do
  published ← at (txt "published_at") man
  raise_if (is_negative published) manifest_invalid
  expires ← at (txt "expires_at") man
  raise_if (below_one expires) manifest_invalid
  challenge ← text_at (txt "challenge") pop
  raise_if (not (challenge_pattern challenge)) manifest_invalid
  pop_signature ← text_at (txt "signature") pop
  raise_if (not (signature_pattern pop_signature)) manifest_invalid
  signature ← text_at (txt "signature") man
  raise_if (not (signature_pattern signature)) manifest_invalid

-- The member of a hint that the type of the hint needs, and those it forbids.
unfoldable pub check_oidc_hint : Members → Check
check_oidc_hint hint = do
  raise_if (not (has (txt "issuer") hint)) manifest_invalid
  raise_if (has (txt "public_key") hint) manifest_invalid

unfoldable pub check_spiffe_hint : Members → Check
check_spiffe_hint hint = do
  raise_if (has (txt "issuer") hint) manifest_invalid
  raise_if (has (txt "public_key") hint) manifest_invalid
  subject ← text_at (txt "subject") hint
  raise_if (ltb 2048 (length subject) || not (matches spiffe_hint_subject subject)) manifest_invalid

unfoldable pub check_hint_type : Text → Members → Check
check_hint_type hint_type hint =
    if text_eq hint_type (txt "oidc")
    then check_oidc_hint hint
    else if text_eq hint_type (txt "spiffe")
    then check_spiffe_hint hint
    else raise_if (not (has (txt "public_key") hint)) manifest_invalid

-- `member in hint and not rule(hint[member])`, where a present member is a string.
unfoldable pub outside_rule : (Text → Bool) → Option Value → Bool
outside_rule rule none = false
outside_rule rule (some (str s)) = not (rule s)
outside_rule rule (some v) = true

-- `manifests if isinstance(manifests, list) else [manifests]`
unfoldable pub candidates_of : Value → List Value
candidates_of (list l) = items l
candidates_of v = v ∷ []

-- `{"manifest": man, "now": now}`
unfoldable pub manifest_input : Value → ℤ → Members
manifest_input man now = member (txt "manifest") man (member (txt "now") (int now) end)

module _ ⦃π : Platform⦄ where
  -- `_validate_grammar`
  unfoldable pub validate_grammar : Members → Members → Check
  validate_grammar man pop = do
    aid ← text_at (txt "aid") man
    raise_if (not (matches aid_pattern aid)) manifest_invalid
    raise_if (long_name (get_or_null (txt "display_name") man)) manifest_invalid
    endpoint ← text_at (txt "handshake_endpoint") man
    raise_if (not (starts_with (txt "https://") endpoint && is_uri endpoint)) manifest_invalid
    check_array man (txt "accepted_trust_anchors") is_uri
    check_array man (txt "offered_capabilities") (matches capability_pattern)
    check_array man (txt "required_peer_capabilities") (matches capability_pattern)
    check_array man (txt "accepted_identity_types") (λ s. mem_text s identity_hint_type_values)
    check_array man (txt "accepted_signature_algorithms") (λ s. mem_text s signature_algorithms)
    check_bounds man pop

  -- `_validate_identity_hint`
  unfoldable pub validate_identity_hint : Members → Check
  validate_identity_hint hint = do
    hint_type ← text_at (txt "type") hint
    raise_if (not (mem_text hint_type identity_hint_type_values)) manifest_invalid
    subject ← text_at (txt "subject") hint
    raise_if (text_eq subject []) manifest_invalid
    raise_if (outside_rule is_uri (get (txt "issuer") hint)) manifest_invalid
    check_hint_type hint_type hint
    raise_if (outside_rule public_key_pattern (get (txt "public_key") hint)) manifest_invalid

  -- `int(inp.get("now", now))`
  unfoldable pub manifest_clock : Option Value → ℤ → Result ℤ
  manifest_clock none now = ok now
  manifest_clock (some v) now = to_int v

  -- `man.get("version") not in supported`
  unfoldable pub check_version : Members → Members → Check
  check_version inp man = do
    is_supported ← elim (get (txt "supported_versions") inp) [
      | none ↦ contains (get_or_null (txt "version") man) (list (item (str protocol_version) nil))
      | some supported ↦ contains (get_or_null (txt "version") man) supported
    ]
    raise_if (not is_supported) manifest_version_unknown

  -- The proof of possession, under the key of the Manifest's AID.
  unfoldable pub check_possession : Members → Aid → Check
  check_possession pop aid = do
    signature ← at (txt "signature") pop
    raw ← decode_tagged_signature signature aid.alg manifest_pop_failed
    challenge ← text_at (txt "challenge") pop
    bytes ← b64url_decode challenge
    raise_if (not (verify_digest aid.public_key (π.sha256 bytes) raw)) manifest_pop_failed

  -- The signature, over the canonical form of every other member.
  unfoldable pub check_manifest_signature : Members → Aid → Check
  check_manifest_signature man aid = do
    signature ← at (txt "signature") man
    raw ← decode_tagged_signature signature aid.alg manifest_signature_invalid
    canonical ←
        canonical_bytes_of (canonicalize (obj (without (txt "signature") man))) manifest_invalid
    raise_if (not (verify_digest aid.public_key (π.sha256 canonical) raw))
        manifest_signature_invalid

  -- From the version on, on objects of the right shape.
  unfoldable pub check_manifest : Members → Members → Members → Members → ℤ → Result Text
  check_manifest inp man pop hint now = do
    check_version inp man
    validate_grammar man pop
    validate_identity_hint hint
    reject_unknown_members man manifest_fields
    reject_unknown_members pop pop_fields
    reject_unknown_members hint identity_hint_fields
    expires ← int_at (txt "expires_at") man
    raise_if (leb_ℤ expires now) manifest_expired
    text ← text_at (txt "aid") man
    aid ← on_value_error manifest_invalid (parse_aid text)
    check_possession pop aid
    check_manifest_signature man aid
    ok text

  -- It returns the Manifest's `aid`.
  unfoldable pub verify_manifest : Members → ℤ → Result Text
  verify_manifest inp now = do
    manifest ← at (txt "manifest") inp
    man ← shape manifest required_manifest_fields manifest_types
    proof ← at (txt "proof_of_possession") man
    pop ← shape proof pop_fields pop_types
    identity_hint ← at (txt "identity_hint") man
    hint ← shape identity_hint required_identity_hint_fields identity_hint_types
    time ← manifest_clock (get (txt "now") inp) now
    check_manifest inp man pop hint time

  -- `verify_manifest(...); return parse_aid(aid), man`
  unfoldable pub designated_key : Text → Members → ℤ → Result Aid
  designated_key aid man now = do
    verified ← verify_manifest (manifest_input (obj man) now) now
    parse_aid aid

  -- `except (AitpError, ValueError)`
  unfoldable pub on_failure : Result Aid → Result Aid
  on_failure (err c) = err key_resolution_failed
  on_failure r = on_value_error key_resolution_failed r

  -- The loop of `resolve_manifest`.
  unfoldable pub first_designated : Text → List Value → ℤ → Result (Aid × Members)
  first_designated aid [] now = err key_resolution_failed
  first_designated aid (obj man ∷ rest) now =
      if is_text aid (get_or_null (txt "aid") man)
      then (do key ← on_failure (designated_key aid man now); ok (key, man))
      else first_designated aid rest now
  first_designated aid (v ∷ rest) now = first_designated aid rest now

  unfoldable pub resolve_manifest : Text → Value → ℤ → Result (Aid × Members)
  resolve_manifest aid manifests now = first_designated aid (candidates_of manifests) now

  -- `resolve_key_from_manifests(str(iss), manifests, now)`, whose key the callers in
  -- aitp_verifier/delegation.py drop: what `str` makes of another value is no Manifest's `aid` that
  -- verifies.
  unfoldable pub resolve_key_from_manifests : Value → Value → ℤ → Check
  resolve_key_from_manifests (str iss) manifests now = do
    found ← resolve_manifest iss manifests now
    ok tt
  resolve_key_from_manifests v manifests now = err key_resolution_failed
