-- ===== src/Delegation/Granted.antt =====
-- What `verify_delegation_token` of aitp_verifier/delegation.py establishes on both of its paths.
use aitp_verifier_py.Prelude.{
  ◌≡◌, refl, ap, ◌∙◌, false, not, ◌&&◌, some, List, [], ◌∷◌, not-false, ◌++◌, subst,
}
use aitp_verifier_py.Prelude.Int.{ℤ, leb_ℤ}
use aitp_verifier_py.Text.{Text, txt, text_eq}
use aitp_verifier_py.Json.{
  Value, str, list, Members, Items, items, get, get_or_null, at, has, is_text,
}
use aitp_verifier_py.Json.Access.{text_at, int_at}
use aitp_verifier_py.Json.Access.Laws.{at-eq-ok}
use aitp_verifier_py.Outcome.{
  Check, ok, if-eq-ok_by, >>=-eq-ok, >>-eq-ok, raise_if-eq-ok, ok-injective,
  delegation_invalid_signature, delegation_expired, delegation_audience_mismatch,
  delegation_multihop_not_supported,
}
use aitp_verifier_py.Platform.{Platform}
use aitp_verifier_py.Jws.{parse_compact, ParsedJws}
use aitp_verifier_py.Delegation.Claims.{verify_root_voucher}
use aitp_verifier_py.Delegation.Denied.{verified_snapshot_bodies, check_source_tct_revocation}
use aitp_verifier_py.Delegation.Hops.{
  check_chain, hops_of, token_claims, check_hop, walk, verify_hops, check_chain_revocation,
  verify_multihop,
}
use aitp_verifier_py.Delegation.{
  verify_single, verify_addressed, verify_text_token, verify_supplied, verify_delegation_token,
}
use aitp_verifier_py.Delegation.Attenuation.{IsWithin, IsVouched, verify_root_voucher-IsVouched}
use aitp_verifier_py.Delegation.Chain.{
  IsDelegation, last_of, last_of-append, token_claims-Verifies, check_hop-IsDelegation,
  walk-IsWithin,
}

module _ ⦃π : Platform⦄ where
  -- The tokens of a delegation: the supplied one alone, or after those of its `chain`.
  pub data IsPath (token : Value) (outer : Members) : Value → List Value → Type 0 where
    alone : has (txt "chain") outer ≡ false → IsPath token outer token []
    chained :
        (first : Value) (rest : List Value) (tokens : Items)
        → get (txt "chain") outer ≡ some (list tokens)
        → items tokens ++ (token ∷ []) ≡ first ∷ rest
        → IsPath token outer first rest

  -- The outcome of a verified delegation: what `grants` in the verdict rests on. The first token is the
  -- root delegator's, which the voucher is for; the last is the supplied one.
  pub record IsGranted (inp : Members) (self_aid : Text) (now : ℤ) (grants : Value) : Type 0 where
    pub token : Value
    pub has_token : get_or_null (txt "delegation_token") inp ≡ token
    pub outer : ParsedJws
    pub parses : parse_compact token delegation_invalid_signature ≡ ok outer
    pub first : Value
    pub rest : List Value
    pub path : IsPath token outer.claims first rest
    pub root : Members
    pub root_delegation : IsDelegation self_aid now first root
    pub voucher : Members
    pub vouched : IsVouched root self_aid now voucher
    pub last : Members
    pub delegation : IsDelegation self_aid now token last
    pub has_grants : get (txt "scope") last ≡ some grants
    pub within : IsWithin vouched.grants vouched.vexp last
    pub bodies : List Members
    pub verified : verified_snapshot_bodies inp self_aid ≡ ok bodies
    pub src_jti : Text
    pub has_src_jti : text_at (txt "src_jti") voucher ≡ ok src_jti
    pub not_revoked : check_source_tct_revocation inp bodies self_aid src_jti now ≡ ok tt

module _ ⦃π : Platform⦄ (resolve_key : Value → Value → ℤ → Check) where
  verify_single-IsGranted :
      (inp : Members) (token : Value) (outer : ParsedJws) (self_aid : Text) (now : ℤ)
      (grants : Value)
      → get_or_null (txt "delegation_token") inp ≡ token
      → parse_compact token delegation_invalid_signature ≡ ok outer
      → has (txt "chain") outer.claims ≡ false
      → verify_single resolve_key inp token self_aid now ≡ ok grants
      → IsGranted inp self_aid now grants
  unfolding verify_single
  verify_single-IsGranted inp token outer self_aid now grants e0 e1 e2 h =
      let (c, a, h1) = >>=-eq-ok (token_claims resolve_key inp token now) _ h in
      let (iss, d, h3) = >>=-eq-ok (text_at (txt "iss") c) _ h1 in
      let (sub, e, h4) = >>=-eq-ok (text_at (txt "sub") c) _ h3 in
      let (f, h5) = raise_if-eq-ok (text_eq iss sub) delegation_invalid_signature _ h4 in
      let (g, h6) =
        raise_if-eq-ok (not (is_text self_aid (get_or_null (txt "aud") c)))
          delegation_audience_mismatch _ h5 in
      let (exp, l, h7) = >>=-eq-ok (int_at (txt "exp") c) _ h6 in
      let (m, h8) = raise_if-eq-ok (leb_ℤ exp now) delegation_expired _ h7 in
      let (voucher, i, h9) = >>=-eq-ok (verify_root_voucher c self_aid now) _ h8 in
      let (bodies, j, h10) = >>=-eq-ok (verified_snapshot_bodies inp self_aid) _ h9 in
      let (src_jti, k, h11) = >>=-eq-ok (text_at (txt "src_jti") voucher) _ h10 in
      let (o, h12) = >>-eq-ok (check_source_tct_revocation inp bodies self_aid src_jti now) _ h11 in
      let (v, n) = token_claims-Verifies resolve_key inp token now c a in
      let vouched = verify_root_voucher-IsVouched c self_aid now voucher i in
      let delegation : IsDelegation self_aid now token c = record {
        iss = v;
        verifies = n;
        delegator = iss;
        has_delegator = d;
        delegatee = sub;
        has_delegatee = e;
        not_self = f;
        addressed = not-false _ g;
        exp = exp;
        has_exp = l;
        unexpired = m;
      } in
      record {
        token = token;
        has_token = e0;
        outer = outer;
        parses = e1;
        first = token;
        rest = [];
        path = alone e2;
        root = c;
        root_delegation = delegation;
        voucher = voucher;
        vouched = vouched;
        last = c;
        delegation = delegation;
        has_grants = at-eq-ok (txt "scope") c grants h12;
        within = vouched.within;
        bodies = bodies;
        verified = j;
        src_jti = src_jti;
        has_src_jti = k;
        not_revoked = o;
      }

  verify_hops-inv :
      (inp : Members) (self_aid : Text) (now : ℤ) (hops : List Value) (voucher last : Members)
      → verify_hops resolve_key inp self_aid now hops ≡ ok (voucher, last)
      → (first : Value) × (rest : List Value) × (hops ≡ first ∷ rest)
        × (root : Members) × IsDelegation self_aid now first root
        × (v : IsVouched root self_aid now voucher) × IsDelegation self_aid now
            (last_of first rest)
            last
        × IsWithin v.grants v.vexp last
  unfolding verify_hops
  verify_hops-inv inp self_aid now [] voucher last h = cc
  verify_hops-inv inp self_aid now (hop ∷ hops) voucher last h =
      let ((root, jti), a, h1) = >>=-eq-ok (check_hop resolve_key inp self_aid now [] hop) _ h in
      let (v, b, h2) = >>=-eq-ok (verify_root_voucher root self_aid now) _ h1 in
      let (l, c, h3) = >>=-eq-ok (walk resolve_key inp self_aid now (jti ∷ []) root hops) _ h2 in
      let e : (v, l) ≡ (voucher, last) = ok-injective h3 in
      let vouched =
        verify_root_voucher-IsVouched root self_aid now voucher (b ∙ ap ok (ap (λ p. p.0) e)) in
      let signed = check_hop-IsDelegation resolve_key inp self_aid now [] hop root jti a in
      let (w, d) =
        walk-IsWithin resolve_key inp self_aid now vouched.grants vouched.vexp (jti ∷ []) root hop
          hops last vouched.within signed (c ∙ ap ok (ap (λ p. p.1) e)) in
      (hop, hops, refl, root, signed, vouched, d, w)

  hops_of-list :
      (chain token : Value) (hops : List Value)
      → hops_of chain token ≡ ok hops
      → (l : Items) × (chain ≡ list l) × (items l ++ (token ∷ []) ≡ hops)
  unfolding hops_of
  hops_of-list (list l) token hops h = (l, refl, ok-injective h)
  hops_of-list v token hops h = cc

  -- The last of the tokens is the supplied one.
  last_of_path :
      (token first : Value) (vs rest : List Value)
      → vs ++ (token ∷ []) ≡ first ∷ rest
      → last_of first rest ≡ token
  last_of_path token first [] rest e =
      let same : first ≡ token = cc in let none_left : rest ≡ [] = cc in rw none_left same
  last_of_path token first (x ∷ xs) rest e =
      let same : x ≡ first = cc in
      let others : rest ≡ xs ++ (token ∷ []) = cc in rw others (last_of-append first token xs)

  verify_multihop-IsGranted :
      (inp : Members) (token : Value) (outer : ParsedJws) (self_aid : Text) (now : ℤ)
      (grants : Value)
      → get_or_null (txt "delegation_token") inp ≡ token
      → parse_compact token delegation_invalid_signature ≡ ok outer
      → verify_multihop resolve_key inp token outer.claims self_aid now ≡ ok grants
      → IsGranted inp self_aid now grants
  unfolding verify_multihop check_chain_revocation
  verify_multihop-IsGranted inp token outer self_aid now grants e0 e1 h =
      let (chain, a, h1) = >>=-eq-ok (at (txt "chain") outer.claims) _ h in
      let (b, h2) = >>-eq-ok (check_chain outer.claims chain) _ h1 in
      let (hops, c, h3) = >>=-eq-ok (hops_of chain token) _ h2 in
      let ((voucher, last), d, h4) =
        >>=-eq-ok (verify_hops resolve_key inp self_aid now hops) _ h3 in
      let (e, h5) = >>-eq-ok (check_chain_revocation inp self_aid now hops voucher) _ h4 in
      let (bodies, f, h6) = >>=-eq-ok (verified_snapshot_bodies inp self_aid) _ e in
      let (src_jti, g, h7) = >>=-eq-ok (text_at (txt "src_jti") voucher) _ h6 in
      let (i, h8) = >>-eq-ok (check_source_tct_revocation inp bodies self_aid src_jti now) _ h7 in
      let (first, rest, split, root, signed, vouched, delegation, within) =
        verify_hops-inv inp self_aid now hops voucher last d in
      let (tokens, is_list, joined) = hops_of-list chain token hops c in
      record {
        token = token;
        has_token = e0;
        outer = outer;
        parses = e1;
        first = first;
        rest = rest;
        path =
            chained first rest tokens
              (at-eq-ok (txt "chain") outer.claims chain a ∙ ap some is_list) (joined ∙ split);
        root_delegation = signed;
        root = root;
        voucher = voucher;
        vouched = vouched;
        last = last;
        delegation =
            subst (λ t. IsDelegation self_aid now t last)
              (last_of_path token first (items tokens) rest (joined ∙ split)) delegation;
        has_grants = at-eq-ok (txt "scope") last grants h5;
        within = within;
        bodies = bodies;
        verified = f;
        src_jti = src_jti;
        has_src_jti = g;
        not_revoked = i;
      }

  addressed_IsGranted :
      (inp : Members) (token : Value) (outer : ParsedJws) (v : Value) (now : ℤ) (grants : Value)
      → get_or_null (txt "delegation_token") inp ≡ token
      → parse_compact token delegation_invalid_signature ≡ ok outer
      → verify_addressed resolve_key inp token outer.claims v now ≡ ok grants
      → (self_aid : Text) × (v ≡ str self_aid) × IsGranted inp self_aid now grants
  unfolding verify_addressed
  addressed_IsGranted inp token outer (str s) now grants e0 e1 h = (
    s,
    refl,
    if-eq-ok_by (has (txt "chain") outer.claims) _ _
        (λ t k. verify_multihop-IsGranted inp token outer s now grants e0 e1 k)
        (λ t k. verify_single-IsGranted inp token outer s now grants e0 e1 t k) h,
  )
  addressed_IsGranted inp token outer v now grants e0 e1 h = cc

  supplied_IsGranted :
      (inp : Members) (v : Value) (now : ℤ) (grants : Value)
      → get_or_null (txt "delegation_token") inp ≡ v
      → verify_supplied resolve_key inp v now ≡ ok grants
      → (self_aid : Text) × (get_or_null (txt "self_aid") inp ≡ str self_aid)
        × IsGranted inp self_aid now grants
  unfolding verify_supplied verify_text_token
  supplied_IsGranted inp (str token) now grants e0 h =
      let (p, a, h1) = >>=-eq-ok (parse_compact (str token) delegation_invalid_signature) _ h in
      let (b, h2) =
        raise_if-eq-ok
          (has (txt "chain") p.claims
            && not (
                is_text (txt "experimental-multihop-delegation")
                  (get_or_null (txt "_feature") inp)))
          delegation_multihop_not_supported _ h1 in
      addressed_IsGranted inp (str token) p (get_or_null (txt "self_aid") inp) now grants e0 a h2
  supplied_IsGranted inp v now grants e0 h = cc

  -- Whatever path the supplied token takes, its grants are the scope of that token, a verified delegation
  -- addressed to this verifier, inside the grants and the lifetime of a live voucher that the verifier
  -- itself signed for the issuer of the first token: the supplied one alone, or the head of its chain.
  pub verify_delegation_token-IsGranted :
      (inp : Members) (now : ℤ) (grants : Value)
      → verify_delegation_token resolve_key inp now ≡ ok grants
      → (self_aid : Text) × (get_or_null (txt "self_aid") inp ≡ str self_aid)
        × IsGranted inp self_aid now grants
  unfolding verify_delegation_token
  verify_delegation_token-IsGranted inp now grants h =
      supplied_IsGranted inp (get_or_null (txt "delegation_token") inp) now grants refl h
