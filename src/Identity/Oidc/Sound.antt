-- ===== src/Identity/Oidc/Sound.antt =====
-- What `_verify_oidc` of aitp_verifier/identity.py establishes.
use aitp_verifier_py.Prelude.{◌≡◌, ap, true, false, not, ◌&&◌, some, List, any, not-false}
use aitp_verifier_py.Prelude.Int.{ℤ}
use aitp_verifier_py.Text.{Text, txt, text_eq, mem_text}
use aitp_verifier_py.Json.{Value, str, Members, get, get_or_null, at, has, is_text}
use aitp_verifier_py.Json.Access.Laws.{at-eq-ok}
use aitp_verifier_py.Outcome.{
  Code, ok, >>=-eq-ok, >>-eq-ok, raise_if-eq-ok, on_value_error, on_value_error-eq-ok,
  raise_if_passed, ok-injective, identity_failed, incompatible_trust_anchors, key_resolution_failed,
}
use aitp_verifier_py.Platform.{Platform}
use aitp_verifier_py.Aid.{Aid}
use aitp_verifier_py.Jwk.{thumbprint}
use aitp_verifier_py.Jwk.Issuer.{IssuerKey, verify_idp_token, issuer_keys_from}
use aitp_verifier_py.Jws.{ParsedJws, parse_compact, parse_aid_value}
use aitp_verifier_py.Jws.Sound.{Parses, parse_compact-Parses}
use aitp_verifier_py.Envelope.Contains.{equal}
use aitp_verifier_py.Identity.Oidc.{
  forbidden_header_params, is_set, require_text, allowed_alg, keys_for, is_future, is_recent,
  is_other, pop_nonce_of, jkt_of, proof_of, some_candidate, select_issuer_key,
  check_token_signature, check_identity_claims, verify_oidc,
}
use aitp_verifier_py.Identity.Pinned.{item_at}

require_text-eq-ok : (c : Code) (v : Value) (s : Text) → require_text c v ≡ ok s → v ≡ str s
unfolding require_text
require_text-eq-ok c (str t) s h = ap str (ok-injective h)
require_text-eq-ok c v s h = cc

module _ ⦃π : Platform⦄ where
  -- The signature of an issuer's token, under the one key that its header selects among the issuer's
  -- keys, by the algorithm of that key.
  pub record IsIssued (parsed : ParsedJws) (issuer : Text) (issuer_keys : Value) : Type 0 where
    pub no_key_in_header : any (λ k. has k parsed.header) forbidden_header_params ≡ false
    pub alg : Text
    pub has_alg : allowed_alg (get_or_null (txt "alg") parsed.header) ≡ ok alg
    pub candidates : List IssuerKey
    pub resolves : issuer_keys_from (keys_for issuer issuer_keys) ≡ ok candidates
    pub key : IssuerKey
    pub selects : select_issuer_key candidates (get_or_null (txt "kid") parsed.header) ≡ ok key
    pub key_alg : text_eq key.jose_alg alg ≡ true
    pub signed : verify_idp_token key.public_key parsed.signing_input parsed.signature ≡ true

  check_token_signature-IsIssued :
      (parsed : ParsedJws) (issuer : Text) (issuer_keys : Value)
      → check_token_signature parsed issuer issuer_keys ≡ ok tt
      → IsIssued parsed issuer issuer_keys
  unfolding check_token_signature
  check_token_signature-IsIssued parsed issuer issuer_keys h =
      let (p, h1) =
        raise_if-eq-ok (any (λ k. has k parsed.header) forbidden_header_params) identity_failed _
          h in
      let (alg, q, h2) = >>=-eq-ok (allowed_alg (get_or_null (txt "alg") parsed.header)) _ h1 in
      let (cs, r, h3) =
        >>=-eq-ok
          (on_value_error key_resolution_failed (issuer_keys_from (keys_for issuer issuer_keys))) _
          h2 in
      let (s, h4) = >>-eq-ok (some_candidate cs) _ h3 in
      let (key, t, h5) =
        >>=-eq-ok (select_issuer_key cs (get_or_null (txt "kid") parsed.header)) _ h4 in
      let (u, h6) = raise_if-eq-ok (not (text_eq key.jose_alg alg)) identity_failed _ h5 in
      record {
        no_key_in_header = p;
        alg = alg;
        has_alg = q;
        candidates = cs;
        resolves = on_value_error-eq-ok key_resolution_failed _ r;
        key = key;
        selects = t;
        key_alg = not-false _ u;
        signed = raise_if_passed _ identity_failed h6;
      }

  -- Claims of the issuer about this subject, for this verifier, now, for this message's nonce and for
  -- the sender's key.
  pub record IsAbout (claims identity envelope : Members) (issuer : Text) (self_aid : Value)
      (now : ℤ) : Type 0 where
    pub has_iss : is_text issuer (get_or_null (txt "iss") claims) ≡ true
    pub has_sub :
        equal (get_or_null (txt "sub") claims) (get_or_null (txt "subject") identity) ≡ true
    pub unexpired : is_future (get_or_null (txt "exp") claims) now ≡ true
    pub recent : is_recent (get_or_null (txt "iat") claims) now ≡ true
    pub has_aud : is_set (get_or_null (txt "aud") claims) ≡ true
    pub for_self : is_other self_aid (get_or_null (txt "aud") claims) ≡ false
    pub pop_nonce : Value
    pub has_pop_nonce : pop_nonce_of (get (txt "payload") envelope) ≡ ok pop_nonce
    pub same_nonce :
        (is_set (get_or_null (txt "nonce") claims)
          && (is_set pop_nonce && equal (get_or_null (txt "nonce") claims) pop_nonce))
        ≡ true
    pub sender : Value
    pub has_sender : get (txt "sender") envelope ≡ some sender
    pub sender_aid : Value
    pub has_sender_aid : item_at sender (txt "agent_id") ≡ ok sender_aid
    pub key : Aid
    pub key_parses : parse_aid_value sender_aid ≡ ok key
    pub binds : is_text (thumbprint key) (jkt_of (get_or_null (txt "cnf") claims)) ≡ true

  check_identity_claims-IsAbout :
      (claims identity envelope : Members) (issuer : Text) (self_aid : Value) (now : ℤ)
      → check_identity_claims claims identity envelope issuer self_aid now ≡ ok tt
      → IsAbout claims identity envelope issuer self_aid now
  unfolding check_identity_claims
  check_identity_claims-IsAbout claims identity envelope issuer self_aid now h =
      let (p, h1) =
        raise_if-eq-ok (not (is_text issuer (get_or_null (txt "iss") claims))) identity_failed _
          h in
      let (q, h2) =
        raise_if-eq-ok
          (not (equal (get_or_null (txt "sub") claims) (get_or_null (txt "subject") identity)))
          identity_failed _ h1 in
      let (r, h3) =
        raise_if-eq-ok (not (is_future (get_or_null (txt "exp") claims) now)) identity_failed _
          h2 in
      let (s, h4) =
        raise_if-eq-ok (not (is_recent (get_or_null (txt "iat") claims) now)) identity_failed _
          h3 in
      let (t, h5) =
        raise_if-eq-ok (not (is_set (get_or_null (txt "aud") claims))) identity_failed _ h4 in
      let (u, h6) =
        raise_if-eq-ok (is_other self_aid (get_or_null (txt "aud") claims)) identity_failed _ h5 in
      let (nonce, v, h7) = >>=-eq-ok (pop_nonce_of (get (txt "payload") envelope)) _ h6 in
      let (w, h8) =
        raise_if-eq-ok
          (not (
            is_set (get_or_null (txt "nonce") claims)
            && (is_set nonce && equal (get_or_null (txt "nonce") claims) nonce)))
          identity_failed _ h7 in
      let (sender, x, h9) = >>=-eq-ok (at (txt "sender") envelope) _ h8 in
      let (aid, y, h10) = >>=-eq-ok (item_at sender (txt "agent_id")) _ h9 in
      let (key, z, h11) = >>=-eq-ok (parse_aid_value aid) _ h10 in
      record {
        has_iss = not-false _ p;
        has_sub = not-false _ q;
        unexpired = not-false _ r;
        recent = not-false _ s;
        has_aud = not-false _ t;
        for_self = u;
        pop_nonce = nonce;
        has_pop_nonce = v;
        same_nonce = not-false _ w;
        sender = sender;
        has_sender = at-eq-ok (txt "sender") envelope sender x;
        sender_aid = aid;
        has_sender_aid = y;
        key = key;
        key_parses = z;
        binds = raise_if_passed _ identity_failed h11;
      }

  -- An accepted OIDC binding: a trusted issuer signed the very bytes of the proof, whose claims are
  -- about this identity.
  pub record IsOidcBound (identity envelope : Members) (self_aid : Value)
      (trust_anchors : List Text) (issuer_keys : Value) (now : ℤ) : Type 0 where
    pub no_public_key : is_set (get_or_null (txt "public_key") identity) ≡ false
    pub issuer : Text
    pub has_issuer : get_or_null (txt "issuer") identity ≡ str issuer
    pub trusted : mem_text issuer trust_anchors ≡ true
    pub parsed : ParsedJws
    pub parses : Parses (proof_of (get (txt "proof") identity)) parsed
    pub issued : IsIssued parsed issuer issuer_keys
    pub about : IsAbout parsed.claims identity envelope issuer self_aid now

  -- `_verify_oidc` returns only where the proof is a compact token that a key of the identity's own,
  -- trusted issuer signed, by that key's algorithm, with claims for this subject, verifier, time,
  -- nonce and sender's key.
  pub verify_oidc-IsOidcBound :
      (identity envelope : Members) (self_aid : Value) (trust_anchors : List Text)
      (issuer_keys : Value) (now : ℤ)
      → verify_oidc identity envelope self_aid trust_anchors issuer_keys now ≡ ok tt
      → IsOidcBound identity envelope self_aid trust_anchors issuer_keys now
  unfolding verify_oidc
  verify_oidc-IsOidcBound identity envelope self_aid trust_anchors issuer_keys now h =
      let (p, h1) =
        raise_if-eq-ok (is_set (get_or_null (txt "public_key") identity)) identity_failed _ h in
      let (issuer, q, h2) =
        >>=-eq-ok (require_text identity_failed (get_or_null (txt "issuer") identity)) _ h1 in
      let (r, h3) =
        raise_if-eq-ok (not (mem_text issuer trust_anchors)) incompatible_trust_anchors _ h2 in
      let (parsed, s, h4) =
        >>=-eq-ok (parse_compact (proof_of (get (txt "proof") identity)) identity_failed) _ h3 in
      let (t, h5) = >>-eq-ok (check_token_signature parsed issuer issuer_keys) _ h4 in
      record {
        no_public_key = p;
        issuer = issuer;
        has_issuer = require_text-eq-ok identity_failed _ issuer q;
        trusted = not-false _ r;
        parsed = parsed;
        parses = parse_compact-Parses _ identity_failed parsed s;
        issued = check_token_signature-IsIssued parsed issuer issuer_keys t;
        about =
            check_identity_claims-IsAbout parsed.claims identity envelope issuer self_aid now h5;
      }
