-- ===== src/Delegation/Designated.antt =====
-- The issuers of delegation tokens, resolved as aitp_verifier/delegation.py resolves them: through
-- `resolve_key_from_manifests` of aitp_verifier/manifest.py.
use aitp_verifier_py.Prelude.{◌≡◌, refl, subst, ◌∙◌, Option, none, some, arith}
use aitp_verifier_py.Prelude.Int.{ℤ}
use aitp_verifier_py.Text.{Text, txt}
use aitp_verifier_py.Json.{Value, str, Members, get, get_or_null}
use aitp_verifier_py.Outcome.{
  Check, ok, >>=-eq-ok, >>-eq-ok, ok-injective, delegation_invalid_signature,
}
use aitp_verifier_py.Platform.{Platform}
use aitp_verifier_py.Aid.{Aid}
use aitp_verifier_py.Jws.{parse_compact, verify_jws}
use aitp_verifier_py.Jws.Sound.{verify_jws-same_claims}
use aitp_verifier_py.Voucher.{no_check}
use aitp_verifier_py.Manifest.{candidates_of, resolve_manifest, resolve_key_from_manifests}
use aitp_verifier_py.Manifest.Resolve.{IsDesignated, resolve_manifest-IsDesignated}
use aitp_verifier_py.Delegation.Claims.{check_delegation_claims_shape, delegation_codes}
use aitp_verifier_py.Delegation.Hops.{resolve_issuer, token_claims}

module _ ⦃π : Platform⦄ where
  -- An issuer with a verified Manifest among the supplied ones.
  pub record HasManifest (iss manifests : Value) (now : ℤ) : Type 0 where
    pub aid : Text
    pub is_text : iss ≡ str aid
    pub key : Aid
    pub man : Members
    pub designated : IsDesignated aid (candidates_of manifests) now key man

  resolve_key-HasManifest :
      (iss manifests : Value) (now : ℤ)
      → resolve_key_from_manifests iss manifests now ≡ ok tt
      → HasManifest iss manifests now
  unfolding resolve_key_from_manifests
  resolve_key-HasManifest (str aid) manifests now h =
      let (found, p, h1) = >>=-eq-ok (resolve_manifest aid manifests now) _ h in
      record {
        aid = aid;
        is_text = refl;
        key = found.0;
        man = found.1;
        designated = resolve_manifest-IsDesignated aid manifests now found.0 found.1 p;
      }
  resolve_key-HasManifest v manifests now h = cc

  issuer_case :
      (iss manifests : Value) (now : ℤ) (o : Option Value)
      → o ≡ some manifests
      → (elim o as (λ _. Check) [
        | none ↦ ok tt
        | some supplied ↦ resolve_key_from_manifests iss supplied now
      ])
        ≡ ok tt
      → HasManifest iss manifests now
  issuer_case iss manifests now none e h = cc
  issuer_case iss manifests now (some v) e h =
      let same : v ≡ manifests = ground arith in
      subst (λ m. HasManifest iss m now) same (resolve_key-HasManifest iss v now h)

  resolve_issuer-HasManifest :
      (inp : Members) (iss manifests : Value) (now : ℤ)
      → get (txt "issuer_manifests") inp ≡ some manifests
      → resolve_issuer resolve_key_from_manifests inp iss now ≡ ok tt
      → HasManifest iss manifests now
  unfolding resolve_issuer
  resolve_issuer-HasManifest inp iss manifests now e h =
      issuer_case iss manifests now (get (txt "issuer_manifests") inp) e h

  -- Where the caller supplies issuer Manifests, the verifier of delegations uses the claims of a token,
  -- the single one or a hop of a chain, only if its issuer has a Manifest among them that verifies at
  -- this time.
  pub token_claims-HasManifest :
      (inp : Members) (token manifests : Value) (now : ℤ) (claims : Members)
      → get (txt "issuer_manifests") inp ≡ some manifests
      → token_claims resolve_key_from_manifests inp token now ≡ ok claims
      → HasManifest (get_or_null (txt "iss") claims) manifests now
  unfolding token_claims delegation_codes
  token_claims-HasManifest inp token manifests now claims e h =
      let (p, a, h1) = >>=-eq-ok (parse_compact token delegation_invalid_signature) _ h in
      let iss = get_or_null (txt "iss") p.claims in
      let (b, h2) = >>-eq-ok (resolve_issuer resolve_key_from_manifests inp iss now) _ h1 in
      let (c, d, h3) =
        >>=-eq-ok (verify_jws token iss (txt "aitp-delegation+jwt") delegation_codes no_check) _
          h2 in
      let (f, h4) = >>-eq-ok (check_delegation_claims_shape c delegation_invalid_signature) _ h3 in
      let same =
        verify_jws-same_claims token iss (txt "aitp-delegation+jwt") delegation_codes no_check c p a
          d
        ∙ ok-injective h4 in
      subst (λ m. HasManifest (get_or_null (txt "iss") m) manifests now) same
        (resolve_issuer-HasManifest inp iss manifests now e b)
