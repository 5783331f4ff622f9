-- ===== src/Delegation/Chain.antt =====
-- The hops that aitp_verifier/delegation.py has verified, singly and along the loop of `_verify_multihop`.
use aitp_verifier_py.Prelude.{
  ◌≡◌, refl, ◌++◌, ap, true, false, not, List, [], ◌∷◌, subst, not-false,
}
use aitp_verifier_py.Prelude.Int.{ℤ, leb_ℤ}
use aitp_verifier_py.Text.{Text, txt, text_eq}
use aitp_verifier_py.Json.{Value, Members, get_or_null, is_text}
use aitp_verifier_py.Json.Access.{text_at, int_at}
use aitp_verifier_py.Outcome.{
  Check, ok, >>=-eq-ok, >>-eq-ok, raise_if-eq-ok, ok-injective, unknown_version,
  delegation_invalid_signature, delegation_expired, delegation_audience_mismatch,
}
use aitp_verifier_py.Platform.{Platform}
use aitp_verifier_py.Jws.{parse_compact, verify_jws}
use aitp_verifier_py.Jws.Sound.{Verifies, verify_jws-Verifies}
use aitp_verifier_py.Revocation.{protocol_version}
use aitp_verifier_py.Voucher.{no_check}
use aitp_verifier_py.Delegation.Claims.{check_delegation_claims_shape, delegation_codes}
use aitp_verifier_py.Delegation.Hops.{
  check_next, check_hop_binding, new_jti, resolve_issuer, token_claims, check_hop, walk,
}
use aitp_verifier_py.Delegation.Attenuation.{IsWithin, check_next-IsWithin}

-- The last of a first value and those after it.
abbrev pub last_of : Value → List Value → Value
last_of v [] = v
last_of v (w ∷ ws) = last_of w ws

pub last_of-append : (v w : Value) (vs : List Value) → last_of v (vs ++ (w ∷ [])) ≡ w
last_of-append v w [] = refl
last_of-append v w (x ∷ xs) = last_of-append x w xs

module _ ⦃π : Platform⦄ where
  -- A delegation that its own `iss` signed to another party, addressed to this verifier and alive.
  pub record IsDelegation (self_aid : Text) (now : ℤ) (token : Value) (hc : Members) : Type 0 where
    pub iss : Value
    pub verifies : Verifies token iss (txt "aitp-delegation+jwt") no_check hc
    pub delegator : Text
    pub has_delegator : text_at (txt "iss") hc ≡ ok delegator
    pub delegatee : Text
    pub has_delegatee : text_at (txt "sub") hc ≡ ok delegatee
    pub not_self : text_eq delegator delegatee ≡ false
    pub addressed : is_text self_aid (get_or_null (txt "aud") hc) ≡ true
    pub exp : ℤ
    pub has_exp : int_at (txt "exp") hc ≡ ok exp
    pub unexpired : leb_ℤ exp now ≡ false

module _ ⦃π : Platform⦄ (resolve_key : Value → Value → ℤ → Check) where
  pub token_claims-Verifies :
      (inp : Members) (token : Value) (now : ℤ) (claims : Members)
      → token_claims resolve_key inp token now ≡ ok claims
      → (iss : Value) × Verifies token iss (txt "aitp-delegation+jwt") no_check claims
  unfolding token_claims
  token_claims-Verifies inp token now claims h =
      let (p, a, h1) = >>=-eq-ok (parse_compact token delegation_invalid_signature) _ h in
      let iss = get_or_null (txt "iss") p.claims in
      let (b, h2) = >>-eq-ok (resolve_issuer resolve_key inp iss now) _ h1 in
      let (c, d, h3) =
        >>=-eq-ok (verify_jws token iss (txt "aitp-delegation+jwt") delegation_codes no_check) _
          h2 in
      let (e, h4) = >>-eq-ok (check_delegation_claims_shape c delegation_invalid_signature) _ h3 in
      (
        iss,
        subst (Verifies token iss (txt "aitp-delegation+jwt") no_check) (ok-injective h4) (
            verify_jws-Verifies token iss (txt "aitp-delegation+jwt") delegation_codes no_check c
              d),
      )

  pub check_hop-IsDelegation :
      (inp : Members) (self_aid : Text) (now : ℤ) (seen : List Text) (hop : Value) (hc : Members)
      (jti : Text)
      → check_hop resolve_key inp self_aid now seen hop ≡ ok (hc, jti)
      → IsDelegation self_aid now hop hc
  unfolding check_hop
  check_hop-IsDelegation inp self_aid now seen hop hc jti h =
      let (c, a, h1) = >>=-eq-ok (token_claims resolve_key inp hop now) _ h in
      let (b, h2) =
        raise_if-eq-ok (not (is_text protocol_version (get_or_null (txt "ver") c))) unknown_version
          _ h1 in
      let (iss, d, h3) = >>=-eq-ok (text_at (txt "iss") c) _ h2 in
      let (sub, e, h4) = >>=-eq-ok (text_at (txt "sub") c) _ h3 in
      let (f, h5) = raise_if-eq-ok (text_eq iss sub) delegation_invalid_signature _ h4 in
      let (g, h6) =
        raise_if-eq-ok (not (is_text self_aid (get_or_null (txt "aud") c)))
          delegation_audience_mismatch _ h5 in
      let (i, h7) = >>-eq-ok (check_hop_binding c) _ h6 in
      let (j, k, h8) = >>=-eq-ok (new_jti (get_or_null (txt "jti") c) seen) _ h7 in
      let (exp, l, h9) = >>=-eq-ok (int_at (txt "exp") c) _ h8 in
      let (m, h10) = raise_if-eq-ok (leb_ℤ exp now) delegation_expired _ h9 in
      let (v, n) = token_claims-Verifies inp hop now c a in
      subst (IsDelegation self_aid now hop) (ap (λ p. p.0) (ok-injective h10)) (record {
        iss = v;
        verifies = n;
        delegator = iss;
        has_delegator = d;
        delegatee = sub;
        has_delegatee = e;
        not_self = f;
        addressed = not-false _ g;
        exp = exp;
        has_exp = l;
        unexpired = m;
      })

  -- Along the rounds of the loop the bound of the first hop and the facts of each are kept.
  pub walk-IsWithin :
      (inp : Members) (self_aid : Text) (now : ℤ) (grants : List Text) (bound : ℤ)
      (seen : List Text) (prev : Members) (token : Value) (hops : List Value) (last : Members)
      → IsWithin grants bound prev
      → IsDelegation self_aid now token prev
      → walk resolve_key inp self_aid now seen prev hops ≡ ok last
      → IsWithin grants bound last × IsDelegation self_aid now (last_of token hops) last
  unfolding walk
  walk-IsWithin inp self_aid now grants bound seen prev token [] last w d h = (
    subst (IsWithin grants bound) (ok-injective h) w,
    subst (IsDelegation self_aid now token) (ok-injective h) d,
  )
  walk-IsWithin inp self_aid now grants bound seen prev token (hop ∷ hops) last w d h =
      let ((hc, jti), a, h1) = >>=-eq-ok (check_hop resolve_key inp self_aid now seen hop) _ h in
      let (b, h2) = >>-eq-ok (check_next prev hc) _ h1 in
      walk-IsWithin inp self_aid now grants bound (jti ∷ seen) hc hop hops last
        (check_next-IsWithin grants bound prev hc w b)
        (check_hop-IsDelegation inp self_aid now seen hop hc jti a) h2
