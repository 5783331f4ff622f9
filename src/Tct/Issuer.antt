-- ===== src/Tct/Issuer.antt =====
-- aitp_verifier/tct.py: a token presented back to its issuer (RFC-AITP-0005 §6.2, §10.5), and the
-- relying party's check of a self-attestation (§5.3).
use aitp_verifier_py.Prelude.{
  Bool, true, false, not, ◌&&◌, Option, none, some, List, [], ◌∷◌, if◌then◌else◌,
}
use aitp_verifier_py.Prelude.Int.{ℤ, leb_ℤ}
use aitp_verifier_py.Text.{Text, txt, text_eq}
use aitp_verifier_py.Json.{
  Value, null, bool, int, str, list, obj, nil, item, Members, get_or_null, at, is_text, truthy,
}
use aitp_verifier_py.Json.Access.{text_at, members_at, int_at}
use aitp_verifier_py.Outcome.{
  Result, Check, ok, err, raised, value_error, key_error, raise_if, on_value_error, on_aitp_error,
  ◌>>=◌, ◌>>◌, unknown_version, tct_signature_invalid, tct_expired, pop_response_invalid,
  pop_challenge_invalid,
}
use aitp_verifier_py.Platform.{Platform}
use aitp_verifier_py.B64.{b64url_decode}
use aitp_verifier_py.Crypto.{verify_digest}
use aitp_verifier_py.Aid.{Aid, parse_aid}
use aitp_verifier_py.Jwk.{thumbprint}
use aitp_verifier_py.Jws.{parse_compact, verify_jws}
use aitp_verifier_py.Sigfield.{decode_tagged_signature}
use aitp_verifier_py.Revocation.{protocol_version}
use aitp_verifier_py.Envelope.{envelope_signing_input, validate_envelope_shape}
use aitp_verifier_py.Envelope.Contains.{equal, contains}
use aitp_verifier_py.Delegation.Hops.{entries_of}
use aitp_verifier_py.Identity.{trust_store_entry, is_trusted}
use aitp_verifier_py.Tct.{
  attestation_marker, check_tct_claims_shape, check_grant_context, check_binding,
  check_manifest_cap, check_revocation, tct_codes,
}

-- `for x in value or []`
unfoldable pub iterate_or_empty : Value → Result (List Value)
iterate_or_empty v = if truthy v then entries_of v else ok []

unfoldable pub is_a_text : Value → Bool
is_a_text (str s) = true
is_a_text _ = false

-- The filter of `challenges`.
unfoldable pub answers : Text → Text → Value → Bool
answers jti nonce (obj c) =
    is_text jti (get_or_null (txt "tct_jti") c) && is_text nonce (get_or_null (txt "nonce") c)
answers jti nonce _ = false

-- `challenges[0]`'s members, where there is one.
unfoldable pub first_answer : Text → Text → List Value → Option Value
first_answer jti nonce [] = none
first_answer jti nonce (c ∷ cs) = if answers jti nonce c then some c else first_answer jti nonce cs

-- `isinstance(expires_at, int)`, no `bool`, and not reached by `now`.
unfoldable pub still_open : ℤ → Value → Bool
still_open now (int expires) = not (leb_ℤ expires now)
still_open now _ = false

unfoldable pub check_challenge : ℤ → Option Value → Check
check_challenge now (some (obj c)) =
    raise_if (not (still_open now (get_or_null (txt "expires_at") c))) pop_challenge_invalid
check_challenge now _ = err pop_response_invalid

-- `message_type` and the three strings of the payload.
unfoldable pub is_pop_response : Members → Members → Bool
is_pop_response env payload =
    is_text (txt "pop_response") (get_or_null (txt "message_type") env)
    && (is_a_text (get_or_null (txt "tct_jti") payload)
        && (is_a_text (get_or_null (txt "nonce_echo") payload)
            && is_a_text (get_or_null (txt "pop_signature") payload)))

-- `ext[key]` of a key that is in the object, hence a string.
unfoldable pub value_at : Members → Value → Result Value
value_at ext (str key) = at key ext
value_at ext _ = raised key_error

module _ ⦃π : Platform⦄ where
  -- The `try` block: the envelope's members and its sender.
  unfoldable pub read_response : Value → Result (Members × Aid)
  read_response envelope = do
    env ← validate_envelope_shape envelope
    sender ← members_at (txt "sender") env
    agent_id ← text_at (txt "agent_id") sender
    aid ← parse_aid agent_id
    ok (env, aid)

  -- §6.2 step 1.
  unfoldable pub check_response_signature : Members → Aid → Check
  check_response_signature env sender = do
    raw ←
        decode_tagged_signature (get_or_null (txt "signature") env) sender.alg pop_response_invalid
    signed ← envelope_signing_input env
    raise_if (not (verify_digest sender.public_key (π.sha256 signed) raw)) pop_response_invalid

  -- §6.2 steps 2 to 4: the challenge, and the signature over its nonce under the key in `sub`.
  unfoldable pub check_pop : Members → Members → Members → ℤ → Result Text
  check_pop inp claims payload now = do
    jti ← text_at (txt "jti") claims
    raise_if (not (is_text jti (get_or_null (txt "tct_jti") payload))) pop_response_invalid
    nonce_echo ← text_at (txt "nonce_echo") payload
    challenges ← iterate_or_empty (get_or_null (txt "outstanding_pop_challenges") inp)
    check_challenge now (first_answer jti nonce_echo challenges)
    nonce ← on_value_error pop_challenge_invalid (b64url_decode nonce_echo)
    sub ← text_at (txt "sub") claims
    sub_aid ← parse_aid sub
    sig ←
        decode_tagged_signature (get_or_null (txt "pop_signature") payload) sub_aid.alg
          pop_response_invalid
    raise_if (not (verify_digest sub_aid.public_key (π.sha256 nonce) sig)) pop_response_invalid
    ok sub

  unfoldable pub presenter_from_pop : Members → Members → ℤ → Result Text
  presenter_from_pop inp claims now = do
    envelope ← at (txt "envelope") inp
    on_aitp_error (err pop_response_invalid)
          (on_value_error pop_response_invalid (read_response envelope))
        >>= λ (env, sender). members_at (txt "payload") env >>= λ payload.
            raise_if (not (is_pop_response env payload)) pop_response_invalid
            >> (check_response_signature env sender >> check_pop inp claims payload now)

  -- Items 3 and 4: `envelope` and `channel_bound_aid`, of which `None` is absence.
  unfoldable pub presenter_of : Members → Members → ℤ → Value → Value → Result Value
  presenter_of inp claims now null null = err pop_response_invalid
  presenter_of inp claims now null bound = ok bound
  presenter_of inp claims now envelope bound = do s ← presenter_from_pop inp claims now; ok (str s)

  -- Item 2, on verified claims.
  unfoldable pub check_own_claims : Members → ℤ → Check
  check_own_claims claims now = do
    raise_if (not (is_text protocol_version (get_or_null (txt "ver") claims))) unknown_version
    aud ← text_at (txt "aud") claims
    sub ← text_at (txt "sub") claims
    raise_if (not (text_eq aud sub)) tct_signature_invalid
    exp ← int_at (txt "exp") claims
    raise_if (leb_ℤ exp now) tct_expired
    check_grant_context claims
    check_binding claims

  -- Item 1: a token of our own, under our own key.
  unfoldable pub verify_own_token : Value → Value → Result Members
  verify_own_token token self_aid = do
    parsed ← parse_compact token tct_signature_invalid
    raise_if (not (equal (get_or_null (txt "iss") parsed.claims) self_aid)) tct_signature_invalid
    verify_jws token self_aid (txt "aitp-tct+jwt") tct_codes
        (λ c. check_tct_claims_shape c tct_signature_invalid)

  -- The presenter's AID and the grants.
  unfoldable pub verify_tct_as_issuer : Members → ℤ → Result (Value × Value)
  verify_tct_as_issuer inp now = do
    token ← at (txt "tct_token") inp
    self_aid ← at (txt "self_aid") inp
    claims ← verify_own_token token self_aid
    check_own_claims claims now
    presenter ←
        presenter_of inp claims now (get_or_null (txt "envelope") inp)
          (get_or_null (txt "channel_bound_aid") inp)
    sub ← text_at (txt "sub") claims
    raise_if (not (is_text sub presenter)) pop_response_invalid
    check_revocation claims inp now
    grants ← at (txt "grants") claims
    ok (presenter, grants)

  -- `_attestation_pre_signature`
  unfoldable pub attestation_pre_signature : Members → Value → Check
  attestation_pre_signature claims trust_store = do
    check_tct_claims_shape claims tct_signature_invalid
    entries ← iterate_or_empty trust_store
    raise_if (not (is_trusted (trust_store_entry (get_or_null (txt "iss") claims)) entries))
        tct_signature_invalid

  -- The decision on the Manifest cap: `issuer_manifest`, or `waive_manifest_cap is True`.
  unfoldable pub undecided : Value → Value → Bool
  undecided null (bool true) = false
  undecided null _ = true
  undecided manifest _ = false

  -- `grants == ["aitp.attestation"]`
  unfoldable pub only_marker : Value → Bool
  only_marker (list (item (str g) nil)) = text_eq g attestation_marker
  only_marker _ = false

  -- `iss == sub == aud`, the exact grants, and `cnf.jkt` of the key in `sub`.
  unfoldable pub check_attested : Members → Check
  check_attested claims = do
    iss ← text_at (txt "iss") claims
    sub ← text_at (txt "sub") claims
    aud ← text_at (txt "aud") claims
    raise_if (not (text_eq iss sub && text_eq sub aud)) tct_signature_invalid
    raise_if (not (only_marker (get_or_null (txt "grants") claims))) tct_signature_invalid
    cnf ← members_at (txt "cnf") claims
    sub_aid ← parse_aid sub
    raise_if (not (is_text (thumbprint sub_aid) (get_or_null (txt "jkt") cnf)))
        tct_signature_invalid

  -- `ext[statement_key]`, where `ext` is an object that has it.
  unfoldable pub statement_of : Value → Value → Result Value
  statement_of key (obj ext) = do
    present ← contains key (obj ext)
    raise_if (not present) tct_signature_invalid
    value_at ext key
  statement_of key _ = err tct_signature_invalid

  unfoldable pub verify_attestation : Members → ℤ → Result Value
  verify_attestation inp now = do
    token ← at (txt "tct_token") inp
    statement_key ← at (txt "expected_ext_key") inp
    let manifest = get_or_null (txt "issuer_manifest") inp
    if undecided manifest (get_or_null (txt "waive_manifest_cap") inp)
        then raised value_error
        else (do
          parsed ← parse_compact token tct_signature_invalid
          claims ←
              verify_jws token (get_or_null (txt "iss") parsed.claims) (txt "aitp-tct+jwt")
                tct_codes (λ c. attestation_pre_signature c (get_or_null (txt "trust_store") inp))
          raise_if (not (is_text protocol_version (get_or_null (txt "ver") claims))) unknown_version
          exp ← int_at (txt "exp") claims
          raise_if (leb_ℤ exp now) tct_expired
          check_attested claims
          statement ← statement_of statement_key (get_or_null (txt "ext") claims)
          check_manifest_cap claims manifest
          check_revocation claims inp now
          ok statement)
