-- ===== src/Delegation/Attenuation.antt =====
-- Attenuation in aitp_verifier/delegation.py: no hop holds more, or longer, than the voucher grants.
use aitp_verifier_py.Prelude.{
  ◌≡◌, refl, ◌∙◌, sym, Bool, true, false, not, ◌||◌, List, subst, not-false,
}
use aitp_verifier_py.Prelude.Int.{ℤ, leb_ℤ, ltb_ℤ, ◌≤ℤ◌, ltb_ℤ-false, ≤ℤ_trans}
use aitp_verifier_py.Text.{Text, txt, text_eq, subset}
use aitp_verifier_py.Text.Laws.{subset_trans}
use aitp_verifier_py.Json.{Value, Members, get_or_null, has, is_text}
use aitp_verifier_py.Json.Access.{text_at, texts_at, int_at}
use aitp_verifier_py.Outcome.{
  ok, >>=-eq-ok, >>-eq-ok, raise_if-eq-ok, raise_if_passed, ok-injective,
  delegation_invalid_voucher, delegation_expired, delegation_scope_exceeded,
}
use aitp_verifier_py.Platform.{Platform}
use aitp_verifier_py.Jws.{parse_compact, verify_jws}
use aitp_verifier_py.Jws.Sound.{Verifies, verify_jws-Verifies}
use aitp_verifier_py.Voucher.{check_voucher_claims_shape, voucher_codes, no_check}
use aitp_verifier_py.Delegation.Claims.{is_string, verify_root_voucher}
use aitp_verifier_py.Delegation.Hops.{check_next}

-- The scope is within the grants and the expiry within the bound.
pub record IsWithin ⦃π : Platform⦄ (grants : List Text) (bound : ℤ) (hc : Members) : Type 0 where
  pub scope : List Text
  pub has_scope : texts_at (txt "scope") hc ≡ ok scope
  pub granted : subset scope grants ≡ true
  pub exp : ℤ
  pub has_exp : int_at (txt "exp") hc ≡ ok exp
  pub bounded : exp ≤ℤ bound

module _ ⦃π : Platform⦄ where
  -- The voucher behind a delegation: the verifier's own, signed under its own key and alive, for the
  -- delegator who signed `claims`.
  pub record IsVouched (claims : Members) (self_aid : Text) (now : ℤ) (voucher : Members)
      : Type 0 where
    pub iss : Value
    pub own : is_text self_aid iss ≡ true
    pub verifies :
        Verifies (get_or_null (txt "voucher") claims) iss (txt "aitp-grant+jwt") no_check voucher
    pub delegator : Text
    pub has_delegator : text_at (txt "iss") claims ≡ ok delegator
    pub held : is_text delegator (get_or_null (txt "sub") voucher) ≡ true
    pub vexp : ℤ
    pub has_vexp : int_at (txt "exp") voucher ≡ ok vexp
    pub alive : leb_ℤ vexp now ≡ false
    pub grants : List Text
    pub has_grants : texts_at (txt "grants") voucher ≡ ok grants
    pub within : IsWithin grants vexp claims

  pub or_false : (a b : Bool) → (a || b) ≡ false → (a ≡ false) × (b ≡ false)
  or_false true b h = cc
  or_false false b h = (refl, h)

  pub verify_root_voucher-IsVouched :
      (claims : Members) (self_aid : Text) (now : ℤ) (voucher : Members)
      → verify_root_voucher claims self_aid now ≡ ok voucher
      → IsVouched claims self_aid now voucher
  unfolding verify_root_voucher
  verify_root_voucher-IsVouched claims self_aid now voucher h =
      let jws = get_or_null (txt "voucher") claims in
      let (a, h1) = raise_if-eq-ok (not (is_string jws)) delegation_invalid_voucher _ h in
      let (p, b, h2) = >>=-eq-ok (parse_compact jws delegation_invalid_voucher) _ h1 in
      let iss = get_or_null (txt "iss") p.claims in
      let (c, h3) = raise_if-eq-ok (not (is_text self_aid iss)) delegation_invalid_voucher _ h2 in
      let (v, d, h4) =
        >>=-eq-ok (verify_jws jws iss (txt "aitp-grant+jwt") voucher_codes no_check) _ h3 in
      let (e, h5) = >>-eq-ok (check_voucher_claims_shape v delegation_invalid_voucher) _ h4 in
      let (delegator, f, h6) = >>=-eq-ok (text_at (txt "iss") claims) _ h5 in
      let (g, h7) =
        raise_if-eq-ok (not (is_text delegator (get_or_null (txt "sub") v)))
          delegation_invalid_voucher _ h6 in
      let (vexp, i, h8) = >>=-eq-ok (int_at (txt "exp") v) _ h7 in
      let (exp, j, h9) = >>=-eq-ok (int_at (txt "exp") claims) _ h8 in
      let (k, h10) = raise_if-eq-ok (leb_ℤ vexp now || ltb_ℤ vexp exp) delegation_expired _ h9 in
      let (alive, bounded) = or_false _ _ k in
      let (scope, l, h11) = >>=-eq-ok (texts_at (txt "scope") claims) _ h10 in
      let (grants, m, h12) = >>=-eq-ok (texts_at (txt "grants") v) _ h11 in
      let (n, h13) = raise_if-eq-ok (not (subset scope grants)) delegation_scope_exceeded _ h12 in
      subst (IsVouched claims self_aid now) (ok-injective h13) (record {
        iss = iss;
        own = not-false _ c;
        verifies = verify_jws-Verifies jws iss (txt "aitp-grant+jwt") voucher_codes no_check v d;
        delegator = delegator;
        has_delegator = f;
        held = not-false _ g;
        vexp = vexp;
        has_vexp = i;
        alive = alive;
        grants = grants;
        has_grants = m;
        within = record {
          scope = scope;
          has_scope = l;
          granted = not-false _ n;
          exp = exp;
          has_exp = j;
          bounded = ltb_ℤ-false vexp exp bounded;
        };
      })

  -- A hop narrows the hop before it, so what bounds that one bounds it.
  pub check_next-IsWithin :
      (grants : List Text) (bound : ℤ) (prev hc : Members)
      → IsWithin grants bound prev
      → check_next prev hc ≡ ok tt
      → IsWithin grants bound hc
  unfolding check_next
  check_next-IsWithin grants bound prev hc w h =
      let (a, h1) = raise_if-eq-ok (has (txt "voucher") hc) delegation_invalid_voucher _ h in
      let (iss, b, h2) = >>=-eq-ok (text_at (txt "iss") hc) _ h1 in
      let (prev_sub, c, h3) = >>=-eq-ok (text_at (txt "sub") prev) _ h2 in
      let (d, h4) = raise_if-eq-ok (not (text_eq iss prev_sub)) delegation_invalid_voucher _ h3 in
      let (exp, e, h5) = >>=-eq-ok (int_at (txt "exp") hc) _ h4 in
      let (prev_exp, f, h6) = >>=-eq-ok (int_at (txt "exp") prev) _ h5 in
      let (g, h7) = raise_if-eq-ok (ltb_ℤ prev_exp exp) delegation_expired _ h6 in
      let (scope, i, h8) = >>=-eq-ok (texts_at (txt "scope") hc) _ h7 in
      let (prev_scope, j, h9) = >>=-eq-ok (texts_at (txt "scope") prev) _ h8 in
      let same_exp : prev_exp ≡ w.exp = ok-injective (sym f ∙ w.has_exp) in
      let same_scope : prev_scope ≡ w.scope = ok-injective (sym j ∙ w.has_scope) in
      let narrower : subset scope prev_scope ≡ true =
        raise_if_passed _ delegation_scope_exceeded h9 in
      let earlier : exp ≤ℤ prev_exp = ltb_ℤ-false prev_exp exp g in
      record {
        scope = scope;
        has_scope = i;
        granted =
            subset_trans scope w.scope grants
              (subst (λ s. subset scope s ≡ true) same_scope narrower) w.granted;
        exp = exp;
        has_exp = e;
        bounded = ≤ℤ_trans exp w.exp bound (subst (λ x. exp ≤ℤ x) same_exp earlier) w.bounded;
      }
