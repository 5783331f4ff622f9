-- ===== src/Voucher/Sound.antt =====
-- What `verify_grant_voucher` of aitp_verifier/voucher.py establishes of the grants it returns.
use aitp_verifier_py.Prelude.{some, ◌≡◌, true, false, not, List, All, subst, not-false}
use aitp_verifier_py.Prelude.Int.{ℤ, leb_ℤ}
use aitp_verifier_py.Text.{txt}
use aitp_verifier_py.Json.{Value, Members, get, get_or_null, at, has, is_text, truthy}
use aitp_verifier_py.Json.Access.{are_texts, list_at, int_at}
use aitp_verifier_py.Json.Access.Laws.{at-eq-ok}
use aitp_verifier_py.Outcome.{
  Code, ok, >>=-eq-ok, >>-eq-ok, raise_if-eq-ok, unknown_version, delegation_invalid_voucher,
  delegation_expired,
}
use aitp_verifier_py.Platform.{Platform}
use aitp_verifier_py.Fields.{has_extra, require_members, check_types, member_has_type}
use aitp_verifier_py.Fields.Laws.{require_members-ok, check_types-ok, reject_unknown_members-ok}
use aitp_verifier_py.Jws.{parse_compact, verify_jws}
use aitp_verifier_py.Jws.Sound.{Verifies, verify_jws-Verifies, verify_jws-same_claims}
use aitp_verifier_py.Revocation.{protocol_version}
use aitp_verifier_py.Voucher.{
  voucher_claim_fields, voucher_required_claims, voucher_claim_types, check_voucher_claims_shape,
  voucher_codes, no_check, verify_grant_voucher,
}

-- The schema's claims, with string grants.
pub record IsShaped (claims : Members) : Type 0 where
  pub required : All (λ k. has k claims ≡ true) voucher_required_claims
  pub typed : All (λ t. member_has_type claims t ≡ true) voucher_claim_types
  pub grants : List Value
  pub has_grants : list_at (txt "grants") claims ≡ ok grants
  pub text_grants : are_texts grants ≡ true
  pub fields : has_extra claims voucher_claim_fields ≡ false

check_voucher_claims_shape-IsShaped :
    (claims : Members) (code : Code)
    → check_voucher_claims_shape claims code ≡ ok tt
    → IsShaped claims
unfolding check_voucher_claims_shape
check_voucher_claims_shape-IsShaped claims code h =
    let (p, h1) = >>-eq-ok (require_members claims voucher_required_claims code) _ h in
    let (q, h2) = >>-eq-ok (check_types claims voucher_claim_types code) _ h1 in
    let (grants, r, h3) = >>=-eq-ok (list_at (txt "grants") claims) _ h2 in
    let (s, h4) = raise_if-eq-ok (not (are_texts grants)) code _ h3 in
    record {
      required = require_members-ok claims code voucher_required_claims p;
      typed = check_types-ok claims code voucher_claim_types q;
      grants = grants;
      has_grants = r;
      text_grants = not-false _ s;
      fields = reject_unknown_members-ok claims voucher_claim_fields h4;
    }

module _ ⦃π : Platform⦄ where
  -- A live voucher of this version that its own `iss` signed and that grants something.
  pub record IsLive (inp : Members) (now : ℤ) (grants : Value) (claims : Members) : Type 0 where
    pub token : Value
    pub has_token : get (txt "voucher_token") inp ≡ some token
    pub verifies :
        Verifies token (get_or_null (txt "iss") claims) (txt "aitp-grant+jwt") no_check claims
    pub shaped : IsShaped claims
    pub version : is_text protocol_version (get_or_null (txt "ver") claims) ≡ true
    pub not_empty : truthy (get_or_null (txt "grants") claims) ≡ true
    pub exp : ℤ
    pub has_exp : int_at (txt "exp") claims ≡ ok exp
    pub unexpired : leb_ℤ exp now ≡ false
    pub has_grants : get (txt "grants") claims ≡ some grants

  -- `verify_grant_voucher` returns the non-empty grants of an unexpired voucher of the schema's shape
  -- and of this protocol version, which is signed under the key of its own `iss`.
  pub verify_grant_voucher-IsLive :
      (inp : Members) (now : ℤ) (grants : Value)
      → verify_grant_voucher inp now ≡ ok grants
      → (claims : Members) × IsLive inp now grants claims
  unfolding verify_grant_voucher voucher_codes
  verify_grant_voucher-IsLive inp now grants h =
      let (token, a, h1) = >>=-eq-ok (at (txt "voucher_token") inp) _ h in
      let (p, b, h2) = >>=-eq-ok (parse_compact token delegation_invalid_voucher) _ h1 in
      let (claims, c, h3) =
        >>=-eq-ok
          (verify_jws token (get_or_null (txt "iss") p.claims) (txt "aitp-grant+jwt") voucher_codes
            no_check)
          _ h2 in
      let (d, h4) = >>-eq-ok (check_voucher_claims_shape claims delegation_invalid_voucher) _ h3 in
      let (e, h5) =
        raise_if-eq-ok (not (is_text protocol_version (get_or_null (txt "ver") claims)))
          unknown_version _ h4 in
      let (f, h6) =
        raise_if-eq-ok (not (truthy (get_or_null (txt "grants") claims))) delegation_invalid_voucher
          _ h5 in
      let (exp, g, h7) = >>=-eq-ok (int_at (txt "exp") claims) _ h6 in
      let (i, h8) = raise_if-eq-ok (leb_ℤ exp now) delegation_expired _ h7 in
      let same =
        verify_jws-same_claims token _ (txt "aitp-grant+jwt") voucher_codes _ claims p b c in
      (
        claims,
        record {
          token = token;
          has_token = at-eq-ok (txt "voucher_token") inp token a;
          verifies =
              subst
                (λ q.
                  Verifies token (get_or_null (txt "iss") q) (txt "aitp-grant+jwt") no_check claims)
                same (verify_jws-Verifies token _ (txt "aitp-grant+jwt") voucher_codes _ claims c);
          shaped = check_voucher_claims_shape-IsShaped claims delegation_invalid_voucher d;
          version = not-false _ e;
          not_empty = not-false _ f;
          exp = exp;
          has_exp = g;
          unexpired = i;
          has_grants = at-eq-ok (txt "grants") claims grants h8;
        },
      )
