-- ===== src/Tct.antt =====
-- aitp_verifier/tct.py: Trust Context Tokens (RFC-AITP-0005 §7.2, §10).
pub mod Sound
pub mod Denied
pub mod Issuer
pub mod Presented
pub mod Attested
use aitp_verifier_py.Prelude.{
  ℕ, Bool, true, false, not, ◌&&◌, ◌||◌, Option, none, some, List, [], ◌∷◌, ◌++◌, ◌==◌, any, all,
  replicate, if◌then◌else◌,
}
use aitp_verifier_py.Prelude.Int.{ℤ, leb_ℤ, ltb_ℤ}
use aitp_verifier_py.Text.{Text, txt, text_eq, in_range, full_match}
use aitp_verifier_py.Json.{
  Value, null, str, obj, Members, get, get_or_null, at, is_text, str_type, int_type, list_type,
  dict_type,
}
use aitp_verifier_py.Json.Access.{are_texts, list_at, text_at, members_at, int_at, to_int}
use aitp_verifier_py.Outcome.{
  Code, Result, Check, ok, err, raised, type_error, raise_if, on_value_error, ◌>>=◌, ◌>>◌,
  unknown_version, token_typ_mismatch, token_alg_mismatch, tct_signature_invalid, tct_expired,
  tct_cnf_mismatch, tct_expires_after_manifest, tct_revoked, audience_mismatch,
}
use aitp_verifier_py.Platform.{Platform}
use aitp_verifier_py.Fields.{Types, require_members, check_types, reject_unknown_members}
use aitp_verifier_py.Aid.{Aid, parse_aid}
use aitp_verifier_py.Jwk.{thumbprint}
use aitp_verifier_py.Jws.{Codes, parse_compact, verify_jws}
use aitp_verifier_py.Revocation.{
  protocol_version, FailMode, fail_closed, policy_of, policy_fail_mode, snapshot_is_stale,
  verify_snapshot_trust, lists_jti,
}

abbrev pub claim_fields : List Text
claim_fields =
    txt "ver"
    ∷ txt "jti"
    ∷ txt "iss"
    ∷ txt "sub"
    ∷ txt "aud"
    ∷ txt "iat"
    ∷ txt "exp"
    ∷ txt "grants"
    ∷ txt "cnf"
    ∷ txt "ext"
    ∷ []

abbrev pub cnf_fields : List Text
cnf_fields = txt "jkt" ∷ []

abbrev pub required_claims : List Text
required_claims =
    txt "ver"
    ∷ txt "jti"
    ∷ txt "iss"
    ∷ txt "sub"
    ∷ txt "aud"
    ∷ txt "iat"
    ∷ txt "exp"
    ∷ txt "grants"
    ∷ txt "cnf"
    ∷ []

abbrev pub claim_types : Types
claim_types =
    (txt "ver", str_type ∷ [])
    ∷ (txt "jti", str_type ∷ [])
    ∷ (txt "iss", str_type ∷ [])
    ∷ (txt "sub", str_type ∷ [])
    ∷ (txt "aud", str_type ∷ [])
    ∷ (txt "iat", int_type ∷ [])
    ∷ (txt "exp", int_type ∷ [])
    ∷ (txt "grants", list_type ∷ [])
    ∷ (txt "cnf", dict_type ∷ [])
    ∷ []

-- The character classes of `_JTI_V4`.
unfoldable pub hex_digit : ℕ → Bool
hex_digit c = in_range b'0' b'9' c || in_range b'a' b'f' c

unfoldable pub variant_digit : ℕ → Bool
variant_digit c = (c == b'8') || ((c == b'9') || ((c == b'a') || (c == b'b')))

unfoldable pub jti_v4 : List (ℕ → Bool)
jti_v4 =
    replicate 8 hex_digit
    ++ ((λ c. c == b'-')
        ∷ (replicate 4 hex_digit
            ++ ((λ c. c == b'-')
                ∷ (λ c. c == b'4')
                ∷ (replicate 3 hex_digit
                    ++ ((λ c. c == b'-')
                        ∷ variant_digit
                        ∷ (replicate 3 hex_digit
                            ++ ((λ c. c == b'-') ∷ replicate 12 hex_digit)))))))

abbrev pub attestation_marker : Text
attestation_marker = txt "aitp.attestation"

unfoldable pub check_tct_claims_shape : Members → Code → Check
check_tct_claims_shape claims shape_code = do
  require_members claims required_claims shape_code
  check_types claims claim_types shape_code
  grants ← list_at (txt "grants") claims
  raise_if (not (are_texts grants)) shape_code
  reject_unknown_members claims claim_fields
  cnf ← members_at (txt "cnf") claims
  reject_unknown_members cnf cnf_fields
  jti ← text_at (txt "jti") claims
  raise_if (not (full_match jti_v4 jti)) shape_code

-- On claims that passed `check_tct_claims_shape`, where `iss` and `sub` are strings.
unfoldable pub check_grant_context : Members → Check
check_grant_context claims = do
  iss ← text_at (txt "iss") claims
  sub ← text_at (txt "sub") claims
  raise_if (text_eq iss sub) tct_signature_invalid
  grants ← list_at (txt "grants") claims
  raise_if (any (is_text attestation_marker) grants) tct_signature_invalid

-- `manifest["expires_at"]` of whatever the caller passed.
unfoldable pub index : Value → Text → Result Value
index (obj m) key = at key m
index _ key = raised type_error

-- `_apply_absence`
unfoldable pub apply_absence : FailMode → Check
apply_absence fail_closed = err tct_revoked
apply_absence _ = ok tt

-- `try: ... except AitpError`: the snapshot's body, or none where it is discarded.
unfoldable pub trusted_body : Result Members → Result (Option Members)
trusted_body (ok body) = ok (some body)
trusted_body (err c) = ok none
trusted_body (raised x) = raised x

-- `expected_aud is not None and claims.get("aud") != expected_aud`
unfoldable pub other_audience : Value → Text → Bool
other_audience null aud = false
other_audience (str expected) aud = not (text_eq aud expected)
other_audience _ aud = true

module _ ⦃π : Platform⦄ where
  -- `int(claims["exp"]) > int(manifest["expires_at"])`
  unfoldable pub outlives_manifest : Members → Value → Result Bool
  outlives_manifest claims manifest = do
    exp ← int_at (txt "exp") claims
    expires ← index manifest (txt "expires_at")
    cap ← to_int expires
    ok (ltb_ℤ cap exp)

  -- The §10.4 bound, where the issuer Manifest is supplied.
  unfoldable pub check_manifest_cap : Members → Value → Check
  check_manifest_cap claims null = ok tt
  check_manifest_cap claims manifest = do
    outlives ← outlives_manifest claims manifest
    raise_if outlives tct_expires_after_manifest

  -- Case (c) of `_check_revocation`, then the deny-list scan.
  unfoldable pub scan : Members → Members → ℤ → Members → Check
  scan claims inp now body = do
    is_old ← snapshot_is_stale body (policy_of inp) now
    entries ← list_at (txt "entries") body
    jti ← text_at (txt "jti") claims
    if is_old
        then apply_absence (policy_fail_mode inp)
        else raise_if (lists_jti jti entries) tct_revoked

  -- Case (b): a body that another issuer signed does not speak for this token.
  unfoldable pub consult : Members → Members → ℤ → Option Members → Check
  consult claims inp now none = apply_absence (policy_fail_mode inp)
  consult claims inp now (some body) = do
    issuer ← text_at (txt "issuer") body
    if not (is_text issuer (get_or_null (txt "iss") claims))
        then apply_absence (policy_fail_mode inp)
        else scan claims inp now body

  -- `_check_revocation`
  unfoldable pub check_source : Members → Members → ℤ → Value → Check
  check_source claims inp now (obj revlist) = do
    body ← trusted_body (verify_snapshot_trust (get_or_null (txt "snapshot") revlist))
    consult claims inp now body
  check_source claims inp now _ = apply_absence (policy_fail_mode inp)

  unfoldable pub check_revocation : Members → Members → ℤ → Check
  check_revocation claims inp now =
      check_source claims inp now (get_or_null (txt "issuer_revocation_list") inp)

  unfoldable pub tct_codes : Codes
  tct_codes = record {
    typ_err = token_typ_mismatch;
    alg_err = token_alg_mismatch;
    sig_err = tct_signature_invalid;
  }

  -- `cnf.jkt` is the thumbprint of the key in the subject AID.
  unfoldable pub check_binding : Members → Check
  check_binding claims = do
    sub ← text_at (txt "sub") claims
    sub_aid ← on_value_error tct_signature_invalid (parse_aid sub)
    cnf ← members_at (txt "cnf") claims
    raise_if (not (is_text (thumbprint sub_aid) (get_or_null (txt "jkt") cnf))) tct_cnf_mismatch

  -- The checks on verified claims, revocation last.
  unfoldable pub check_claims : Members → Members → ℤ → Check
  check_claims claims inp now = do
    raise_if (not (is_text protocol_version (get_or_null (txt "ver") claims))) unknown_version
    aud ← text_at (txt "aud") claims
    raise_if (other_audience (get_or_null (txt "expected_audience") inp) aud) audience_mismatch
    exp ← int_at (txt "exp") claims
    raise_if (leb_ℤ exp now) tct_expired
    check_grant_context claims
    check_binding claims
    check_manifest_cap claims (get_or_null (txt "issuer_manifest") inp)
    check_revocation claims inp now

  unfoldable pub verify_token : Value → Result Members
  verify_token token = do
    parsed ← parse_compact token tct_signature_invalid
    verify_jws token (get_or_null (txt "iss") parsed.claims) (txt "aitp-tct+jwt") tct_codes
        (λ c. check_tct_claims_shape c tct_signature_invalid)

  unfoldable pub verify_tct : Members → ℤ → Result Value
  verify_tct inp now = do
    token ← at (txt "tct_token") inp
    claims ← verify_token token
    check_claims claims inp now
    at (txt "grants") claims
