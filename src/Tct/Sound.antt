-- ===== src/Tct/Sound.antt =====
-- What `verify_tct` of aitp_verifier/tct.py establishes before it returns the grants.
use aitp_verifier_py.Prelude.{◌≡◌, true, false, not, some, List, All, any, subst, not-false}
use aitp_verifier_py.Prelude.Int.{ℤ, leb_ℤ}
use aitp_verifier_py.Text.{Text, txt, text_eq, full_match}
use aitp_verifier_py.Json.{Value, Members, get, get_or_null, at, has, is_text}
use aitp_verifier_py.Json.Access.{are_texts, list_at, text_at, members_at, int_at}
use aitp_verifier_py.Json.Access.Laws.{at-eq-ok}
use aitp_verifier_py.Outcome.{
  Code, ok, on_value_error, >>=-eq-ok, >>-eq-ok, raise_if-eq-ok, on_value_error-eq-ok,
  raise_if_silent, raise_if_passed, unknown_version, tct_signature_invalid, tct_expired,
  tct_cnf_mismatch, audience_mismatch,
}
use aitp_verifier_py.Platform.{Platform}
use aitp_verifier_py.Fields.{
  has_extra, require_members, check_types, member_has_type, reject_unknown_members,
}
use aitp_verifier_py.Fields.Laws.{require_members-ok, check_types-ok, reject_unknown_members-ok}
use aitp_verifier_py.Aid.{Aid, parse_aid}
use aitp_verifier_py.Jwk.{thumbprint}
use aitp_verifier_py.Jws.{parse_compact}
use aitp_verifier_py.Jws.Sound.{Verifies, verify_jws-Verifies, verify_jws-same_claims}
use aitp_verifier_py.Revocation.{protocol_version, policy_fail_mode, fail_closed}
use aitp_verifier_py.Tct.{
  claim_fields, cnf_fields, required_claims, claim_types, jti_v4, attestation_marker,
  check_tct_claims_shape, check_grant_context, other_audience, check_manifest_cap, check_revocation,
  tct_codes, check_binding, check_claims, verify_token, verify_tct,
}
use aitp_verifier_py.Tct.Denied.{IsCleared, check_revocation-IsCleared}

-- The claims set is the schema's: its members, their types, string grants, and a UUIDv4 `jti`.
pub record IsShaped (claims : Members) : Type 0 where
  pub required : All (λ k. has k claims ≡ true) required_claims
  pub typed : All (λ t. member_has_type claims t ≡ true) claim_types
  pub grants : List Value
  pub has_grants : list_at (txt "grants") claims ≡ ok grants
  pub text_grants : are_texts grants ≡ true
  pub fields : has_extra claims claim_fields ≡ false
  pub cnf : Members
  pub has_cnf : members_at (txt "cnf") claims ≡ ok cnf
  pub only_jkt : has_extra cnf cnf_fields ≡ false
  pub jti : Text
  pub has_jti : text_at (txt "jti") claims ≡ ok jti
  pub uuid_v4 : full_match jti_v4 jti ≡ true

pub check_tct_claims_shape-IsShaped :
    (claims : Members) (code : Code) → check_tct_claims_shape claims code ≡ ok tt → IsShaped claims
unfolding check_tct_claims_shape
check_tct_claims_shape-IsShaped claims code h =
    let (p, h1) = >>-eq-ok (require_members claims required_claims code) _ h in
    let (q, h2) = >>-eq-ok (check_types claims claim_types code) _ h1 in
    let (grants, r, h3) = >>=-eq-ok (list_at (txt "grants") claims) _ h2 in
    let (s, h4) = raise_if-eq-ok (not (are_texts grants)) code _ h3 in
    let (t, h5) = >>-eq-ok (reject_unknown_members claims claim_fields) _ h4 in
    let (cnf, u, h6) = >>=-eq-ok (members_at (txt "cnf") claims) _ h5 in
    let (v, h7) = >>-eq-ok (reject_unknown_members cnf cnf_fields) _ h6 in
    let (jti, w, h8) = >>=-eq-ok (text_at (txt "jti") claims) _ h7 in
    record {
      required = require_members-ok claims code required_claims p;
      typed = check_types-ok claims code claim_types q;
      grants = grants;
      has_grants = r;
      text_grants = not-false _ s;
      fields = reject_unknown_members-ok claims claim_fields t;
      cnf = cnf;
      has_cnf = u;
      only_jkt = reject_unknown_members-ok cnf cnf_fields v;
      jti = jti;
      has_jti = w;
      uuid_v4 = raise_if_passed _ code h8;
    }

-- A token that confers capability: another party's, and without the attestation marker.
pub record IsGrant (claims : Members) : Type 0 where
  pub iss : Text
  pub has_iss : text_at (txt "iss") claims ≡ ok iss
  pub sub : Text
  pub has_sub : text_at (txt "sub") claims ≡ ok sub
  pub not_self_issued : text_eq iss sub ≡ false
  pub grants : List Value
  pub has_grants : list_at (txt "grants") claims ≡ ok grants
  pub no_marker : any (is_text attestation_marker) grants ≡ false

pub check_grant_context-IsGrant :
    (claims : Members) → check_grant_context claims ≡ ok tt → IsGrant claims
unfolding check_grant_context
check_grant_context-IsGrant claims h =
    let (iss, p, h1) = >>=-eq-ok (text_at (txt "iss") claims) _ h in
    let (sub, q, h2) = >>=-eq-ok (text_at (txt "sub") claims) _ h1 in
    let (r, h3) = raise_if-eq-ok (text_eq iss sub) tct_signature_invalid _ h2 in
    let (grants, s, h4) = >>=-eq-ok (list_at (txt "grants") claims) _ h3 in
    record {
      iss = iss;
      has_iss = p;
      sub = sub;
      has_sub = q;
      not_self_issued = r;
      grants = grants;
      has_grants = s;
      no_marker = raise_if_silent _ tct_signature_invalid h4;
    }

module _ ⦃π : Platform⦄ where
  -- `cnf.jkt` binds the key that the subject's AID carries.
  pub record IsBound (claims : Members) : Type 0 where
    pub sub : Text
    pub has_sub : text_at (txt "sub") claims ≡ ok sub
    pub subject : Aid
    pub subject_parses : parse_aid sub ≡ ok subject
    pub cnf : Members
    pub has_cnf : members_at (txt "cnf") claims ≡ ok cnf
    pub binds : is_text (thumbprint subject) (get_or_null (txt "jkt") cnf) ≡ true

  pub check_binding-IsBound : (claims : Members) → check_binding claims ≡ ok tt → IsBound claims
  unfolding check_binding
  check_binding-IsBound claims h =
      let (sub, p, h1) = >>=-eq-ok (text_at (txt "sub") claims) _ h in
      let (a, q, h2) = >>=-eq-ok (on_value_error tct_signature_invalid (parse_aid sub)) _ h1 in
      let (cnf, r, h3) = >>=-eq-ok (members_at (txt "cnf") claims) _ h2 in
      record {
        sub = sub;
        has_sub = p;
        subject = a;
        subject_parses = on_value_error-eq-ok tct_signature_invalid _ q;
        cnf = cnf;
        has_cnf = r;
        binds = raise_if_passed _ tct_cnf_mismatch h3;
      }

  -- An accepted token: signed under the key of its own `iss`, shaped, of this version, for this
  -- audience, unexpired, a grant, bound to its subject's key and within the issuer Manifest's life.
  pub record IsAccepted (inp : Members) (now : ℤ) (claims : Members) : Type 0 where
    pub token : Value
    pub has_token : get (txt "tct_token") inp ≡ some token
    pub verifies :
        Verifies token
          (get_or_null (txt "iss") claims)
          (txt "aitp-tct+jwt")
          (λ c. check_tct_claims_shape c tct_signature_invalid)
          claims
    pub shaped : IsShaped claims
    pub version : is_text protocol_version (get_or_null (txt "ver") claims) ≡ true
    pub aud : Text
    pub has_aud : text_at (txt "aud") claims ≡ ok aud
    pub audience : other_audience (get_or_null (txt "expected_audience") inp) aud ≡ false
    pub exp : ℤ
    pub has_exp : int_at (txt "exp") claims ≡ ok exp
    pub unexpired : leb_ℤ exp now ≡ false
    pub grant : IsGrant claims
    pub bound : IsBound claims
    pub capped : check_manifest_cap claims (get_or_null (txt "issuer_manifest") inp) ≡ ok tt
    pub not_revoked : check_revocation claims inp now ≡ ok tt

  pub verify_token-Verifies :
      (token : Value) (claims : Members)
      → verify_token token ≡ ok claims
      → Verifies token
          (get_or_null (txt "iss") claims)
          (txt "aitp-tct+jwt")
          (λ c. check_tct_claims_shape c tct_signature_invalid)
          claims
  unfolding verify_token tct_codes
  verify_token-Verifies token claims h =
      let (p, e, h1) = >>=-eq-ok (parse_compact token tct_signature_invalid) _ h in
      let same = verify_jws-same_claims token _ (txt "aitp-tct+jwt") tct_codes _ claims p e h1 in
      subst
        (λ c.
          Verifies token (get_or_null (txt "iss") c) (txt "aitp-tct+jwt")
            (λ d. check_tct_claims_shape d tct_signature_invalid) claims)
        same (verify_jws-Verifies token _ (txt "aitp-tct+jwt") tct_codes _ claims h1)

  -- `verify_tct` returns grants only of an accepted token, and exactly those in its claims.
  pub verify_tct-IsAccepted :
      (inp : Members) (now : ℤ) (grants : Value)
      → verify_tct inp now ≡ ok grants
      → (claims : Members) × IsAccepted inp now claims × (get (txt "grants") claims ≡ some grants)
  unfolding verify_tct check_claims
  verify_tct-IsAccepted inp now grants h =
      let (token, p, h1) = >>=-eq-ok (at (txt "tct_token") inp) _ h in
      let (claims, q, h2) = >>=-eq-ok (verify_token token) _ h1 in
      let (c, h3) = >>-eq-ok (check_claims claims inp now) _ h2 in
      let (version, c1) =
        raise_if-eq-ok (not (is_text protocol_version (get_or_null (txt "ver") claims)))
          unknown_version _ c in
      let (aud, r, c2) = >>=-eq-ok (text_at (txt "aud") claims) _ c1 in
      let (audience, c3) =
        raise_if-eq-ok (other_audience (get_or_null (txt "expected_audience") inp) aud)
          audience_mismatch _ c2 in
      let (exp, s, c4) = >>=-eq-ok (int_at (txt "exp") claims) _ c3 in
      let (unexpired, c5) = raise_if-eq-ok (leb_ℤ exp now) tct_expired _ c4 in
      let (grant, c6) = >>-eq-ok (check_grant_context claims) _ c5 in
      let (bound, c7) = >>-eq-ok (check_binding claims) _ c6 in
      let (cap, c8) =
        >>-eq-ok (check_manifest_cap claims (get_or_null (txt "issuer_manifest") inp)) _ c7 in
      let v = verify_token-Verifies token claims q in
      (
        claims,
        record {
          token = token;
          has_token = at-eq-ok (txt "tct_token") inp token p;
          verifies = v;
          shaped = check_tct_claims_shape-IsShaped claims tct_signature_invalid v.checked;
          version = not-false _ version;
          aud = aud;
          has_aud = r;
          audience = audience;
          exp = exp;
          has_exp = s;
          unexpired = unexpired;
          grant = check_grant_context-IsGrant claims grant;
          bound = check_binding-IsBound claims bound;
          capped = cap;
          not_revoked = c8;
        },
        at-eq-ok (txt "grants") claims grants h3,
      )

  -- Under `fail_closed` (also without a policy) grants come only from the claims of the accepted token
  -- in the input, and a trusted, fresh list of that token's own issuer does not name it.
  pub verify_tct-IsCleared :
      (inp : Members) (now : ℤ) (grants : Value)
      → policy_fail_mode inp ≡ fail_closed
      → verify_tct inp now ≡ ok grants
      → (claims : Members) × IsAccepted inp now claims
        × IsCleared claims inp now
        × (get (txt "grants") claims ≡ some grants)
  verify_tct-IsCleared inp now grants closed h =
      let (claims, accepted, g) = verify_tct-IsAccepted inp now grants h in
      (claims, accepted, check_revocation-IsCleared claims inp now closed accepted.not_revoked, g)
