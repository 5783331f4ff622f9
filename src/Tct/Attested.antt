-- ===== src/Tct/Attested.antt =====
-- What `verify_attestation` of aitp_verifier/tct.py establishes of the statement it returns.
use aitp_verifier_py.Prelude.{
  ◌≡◌, refl, ap, ◌∙◌, Bool, true, false, not, ◌&&◌, some, List, subst, not-false, if◌then◌else◌,
}
use aitp_verifier_py.Prelude.Int.{ℤ, leb_ℤ}
use aitp_verifier_py.Text.{Text, txt, text_eq}
use aitp_verifier_py.Json.{Value, Members, get, get_or_null, at, is_text}
use aitp_verifier_py.Json.Access.{text_at, members_at, int_at}
use aitp_verifier_py.Json.Access.Laws.{at-eq-ok}
use aitp_verifier_py.Outcome.{
  Result, ok, raised, value_error, >>=-eq-ok, >>-eq-ok, raise_if-eq-ok, ok-injective,
  raise_if_passed, unknown_version, tct_signature_invalid, tct_expired,
}
use aitp_verifier_py.Platform.{Platform}
use aitp_verifier_py.Aid.{Aid, parse_aid}
use aitp_verifier_py.Jwk.{thumbprint}
use aitp_verifier_py.Jws.{parse_compact, verify_jws}
use aitp_verifier_py.Jws.Sound.{Verifies, verify_jws-Verifies, verify_jws-same_claims}
use aitp_verifier_py.Revocation.{protocol_version}
use aitp_verifier_py.Identity.{trust_store_entry, is_trusted}
use aitp_verifier_py.Tct.{check_tct_claims_shape, check_manifest_cap, check_revocation, tct_codes}
use aitp_verifier_py.Tct.Issuer.{
  iterate_or_empty, attestation_pre_signature, undecided, only_marker, check_attested, statement_of,
  verify_attestation,
}

module _ ⦃π : Platform⦄ where
  -- Claims that the holder of one key makes of itself, with the marker as the only grant.
  pub record IsSelfStated (claims : Members) : Type 0 where
    pub iss : Text
    pub has_iss : text_at (txt "iss") claims ≡ ok iss
    pub sub : Text
    pub has_sub : text_at (txt "sub") claims ≡ ok sub
    pub aud : Text
    pub has_aud : text_at (txt "aud") claims ≡ ok aud
    pub one_party : (text_eq iss sub && text_eq sub aud) ≡ true
    pub marker : only_marker (get_or_null (txt "grants") claims) ≡ true
    pub subject : Aid
    pub subject_parses : parse_aid sub ≡ ok subject
    pub cnf : Members
    pub has_cnf : members_at (txt "cnf") claims ≡ ok cnf
    pub binds : is_text (thumbprint subject) (get_or_null (txt "jkt") cnf) ≡ true

  check_attested-IsSelfStated :
      (claims : Members) → check_attested claims ≡ ok tt → IsSelfStated claims
  unfolding check_attested
  check_attested-IsSelfStated claims h =
      let (iss, a, h1) = >>=-eq-ok (text_at (txt "iss") claims) _ h in
      let (sub, b, h2) = >>=-eq-ok (text_at (txt "sub") claims) _ h1 in
      let (aud, c, h3) = >>=-eq-ok (text_at (txt "aud") claims) _ h2 in
      let (d, h4) =
        raise_if-eq-ok (not (text_eq iss sub && text_eq sub aud)) tct_signature_invalid _ h3 in
      let (e, h5) =
        raise_if-eq-ok (not (only_marker (get_or_null (txt "grants") claims))) tct_signature_invalid
          _ h4 in
      let (cnf, f, h6) = >>=-eq-ok (members_at (txt "cnf") claims) _ h5 in
      let (key, g, h7) = >>=-eq-ok (parse_aid sub) _ h6 in
      record {
        iss = iss;
        has_iss = a;
        sub = sub;
        has_sub = b;
        aud = aud;
        has_aud = c;
        one_party = not-false _ d;
        marker = not-false _ e;
        subject = key;
        subject_parses = g;
        cnf = cnf;
        has_cnf = f;
        binds = raise_if_passed _ tct_signature_invalid h7;
      }

  -- The statement of an attestation, and what it rests on.
  pub record IsAttested (inp : Members) (now : ℤ) (statement : Value) (claims : Members)
      : Type 0 where
    pub token : Value
    pub decided :
        undecided
          (get_or_null (txt "issuer_manifest") inp)
          (get_or_null (txt "waive_manifest_cap") inp)
        ≡ false
    pub verifies :
        Verifies token
          (get_or_null (txt "iss") claims)
          (txt "aitp-tct+jwt")
          (λ c. attestation_pre_signature c (get_or_null (txt "trust_store") inp))
          claims
    pub trust_store : List Value
    pub has_store : iterate_or_empty (get_or_null (txt "trust_store") inp) ≡ ok trust_store
    pub issuer_trusted :
        is_trusted (trust_store_entry (get_or_null (txt "iss") claims)) trust_store ≡ true
    pub self_stated : IsSelfStated claims
    pub exp : ℤ
    pub has_exp : int_at (txt "exp") claims ≡ ok exp
    pub unexpired : leb_ℤ exp now ≡ false
    pub key : Value
    pub has_key : get (txt "expected_ext_key") inp ≡ some key
    pub stated : statement_of key (get_or_null (txt "ext") claims) ≡ ok statement
    pub capped : check_manifest_cap claims (get_or_null (txt "issuer_manifest") inp) ≡ ok tt
    pub not_revoked : check_revocation claims inp now ≡ ok tt

  pre_signature_inv :
      (claims : Members) (store : Value)
      → attestation_pre_signature claims store ≡ ok tt
      → (entries : List Value) × (iterate_or_empty store ≡ ok entries)
        × (is_trusted (trust_store_entry (get_or_null (txt "iss") claims)) entries ≡ true)
  unfolding attestation_pre_signature
  pre_signature_inv claims store h =
      let (a, h1) = >>-eq-ok (check_tct_claims_shape claims tct_signature_invalid) _ h in
      let (es, b, h2) = >>=-eq-ok (iterate_or_empty store) _ h1 in
      (es, b, raise_if_passed _ tct_signature_invalid h2)

  not_raised_if :
      (b : Bool) (r : Result Value) (v : Value)
      → (if b then raised value_error else r) ≡ ok v
      → (b ≡ false) × (r ≡ ok v)
  not_raised_if true r v h = cc
  not_raised_if false r v h = (refl, h)

  -- `verify_attestation` returns a statement only from an unexpired token which one trusted key states
  -- of itself under its own signature, with the marker as its only grant, once the Manifest cap has
  -- been decided and revocation has passed.
  pub verify_attestation-IsAttested :
      (inp : Members) (now : ℤ) (statement : Value)
      → verify_attestation inp now ≡ ok statement
      → (claims : Members) × IsAttested inp now statement claims
  unfolding verify_attestation tct_codes
  verify_attestation-IsAttested inp now statement h =
      let store = get_or_null (txt "trust_store") inp in
      let (token, a, h1) = >>=-eq-ok (at (txt "tct_token") inp) _ h in
      let (key, b, h2) = >>=-eq-ok (at (txt "expected_ext_key") inp) _ h1 in
      let (decided, h3) =
        not_raised_if
          (undecided (get_or_null (txt "issuer_manifest") inp)
            (get_or_null (txt "waive_manifest_cap") inp))
          _ statement h2 in
      let (p, c, h4) = >>=-eq-ok (parse_compact token tct_signature_invalid) _ h3 in
      let (claims, d, h5) =
        >>=-eq-ok
          (verify_jws token (get_or_null (txt "iss") p.claims) (txt "aitp-tct+jwt") tct_codes
            (λ m. attestation_pre_signature m store))
          _ h4 in
      let (e, h6) =
        raise_if-eq-ok (not (is_text protocol_version (get_or_null (txt "ver") claims)))
          unknown_version _ h5 in
      let (exp, f, h7) = >>=-eq-ok (int_at (txt "exp") claims) _ h6 in
      let (g, h8) = raise_if-eq-ok (leb_ℤ exp now) tct_expired _ h7 in
      let (i, h9) = >>-eq-ok (check_attested claims) _ h8 in
      let (s, j, h10) = >>=-eq-ok (statement_of key (get_or_null (txt "ext") claims)) _ h9 in
      let (k, h11) =
        >>-eq-ok (check_manifest_cap claims (get_or_null (txt "issuer_manifest") inp)) _ h10 in
      let (l, h12) = >>-eq-ok (check_revocation claims inp now) _ h11 in
      let v = verify_jws-Verifies token _ (txt "aitp-tct+jwt") tct_codes _ claims d in
      let same = verify_jws-same_claims token _ (txt "aitp-tct+jwt") tct_codes _ claims p c d in
      let (entries, m, n) = pre_signature_inv claims store v.checked in
      (
        claims,
        record {
          token = token;
          decided = decided;
          verifies =
              subst
                (λ q.
                  Verifies token (get_or_null (txt "iss") q) (txt "aitp-tct+jwt")
                    (λ w. attestation_pre_signature w store) claims)
                same v;
          trust_store = entries;
          has_store = m;
          issuer_trusted = n;
          self_stated = check_attested-IsSelfStated claims i;
          exp = exp;
          has_exp = f;
          unexpired = g;
          key = key;
          has_key = at-eq-ok (txt "expected_ext_key") inp key b;
          stated = j ∙ ap ok (ok-injective h12);
          capped = k;
          not_revoked = l;
        },
      )
