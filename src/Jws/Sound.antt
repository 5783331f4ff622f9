-- ===== src/Jws/Sound.antt =====
-- What a verified token is: the signature was checked over the very bytes that were sent.
use aitp_verifier_py.Prelude.{
  ℕ, ◌≡◌, refl, sym, ap, ◌∙◌, subst, true, false, not, Option, none, some, List, [], ◌∷◌, ◌++◌,
  ◌==◌, ==_iff, arith, Bool-cases, not-false, inl, inr,
}
use mathlib.Core.List.{append-nil}
use aitp_verifier_py.Text.{Text, Bytes, txt, split}
use aitp_verifier_py.Json.{Value, str, obj, Members, get_or_null, is_text}
use aitp_verifier_py.Json.Decode.{loads}
use aitp_verifier_py.Outcome.{
  Code, Result, Check, ok, err, raised, on_value_error, >>=-eq-ok, >>-eq-ok, raise_if-eq-ok,
  on_value_error-eq-ok, ok-injective,
}
use aitp_verifier_py.Platform.{Platform}
use aitp_verifier_py.B64.{b64url_decode}
use aitp_verifier_py.Crypto.{verify_jose}
use aitp_verifier_py.Aid.{Aid, jose_alg}
use aitp_verifier_py.Jws.{
  ParsedJws, three_parts, as_object, on_any, parse_parts, parse_token, parse_compact,
  parse_aid_value, bad_header, Codes, verify_jws,
}

-- `sep.join(parts)`
join_rest : ℕ → List Text → Text
join_rest sep [] = []
join_rest sep (p ∷ ps) = sep ∷ (p ++ join_rest sep ps)

join : ℕ → List Text → Text
unfolding join_rest
join sep [] = []
join sep (p ∷ ps) = p ++ join_rest sep ps

split_cons : (sep : ℕ) (s : Text) → (p : Text) × (ps : List Text) × (split sep s ≡ p ∷ ps)
unfolding split
split_cons sep [] = ([], [], refl)
split_cons sep (c ∷ cs) =
    let (p, ps, e) = split_cons sep cs in
    elim (Bool-cases (c == sep)) [
      | inl same ↦ ([], p ∷ ps, rw (same, e))
      | inr other ↦ (c ∷ p, ps, rw (other, e))
    ]

join-split : (sep : ℕ) (s : Text) → join sep (split sep s) ≡ s
unfolding join split
join-split sep [] = refl
join-split sep (c ∷ cs) =
    let (p, ps, e) = split_cons sep cs in
    let ih : join sep (p ∷ ps) ≡ cs = rw e at (join-split sep cs) in
    elim (Bool-cases (c == sep)) [
      | inl same ↦ rw (same, e) (ground (arith, ==_iff c sep))
      | inr other ↦ rw (other, e) (ap (λ t. c ∷ t) ih)
    ]

on_any-eq-ok {ℓ} : {A : Type ℓ} (c : Code) (r : Result A) {a : A} → on_any c r ≡ ok a → r ≡ ok a
unfolding on_any
on_any-eq-ok c (ok b) h = h
on_any-eq-ok c (err d) h = cc
on_any-eq-ok c (raised x) h = cc

pub as_object-eq-ok : (c : Code) (v : Value) (m : Members) → as_object c v ≡ ok m → v ≡ obj m
unfolding as_object
as_object-eq-ok c (obj n) m h = ground arith
as_object-eq-ok c v m h = cc

three_parts-eq :
    (ps : List Text) (a b c : Text) → three_parts ps ≡ some (a, b, c) → ps ≡ a ∷ b ∷ c ∷ []
unfolding three_parts
three_parts-eq ((x ∷ p) ∷ (y ∷ q) ∷ (z ∷ r) ∷ []) a b c h = ground arith
three_parts-eq ps a b c h = cc

module _ ⦃π : Platform⦄ where
  -- A text of three segments, and what they decode to.
  pub record Parses (token : Value) (parsed : ParsedJws) : Type 0 where
    pub text : Text
    pub header_part : Text
    pub payload_part : Text
    pub signature_part : Text
    pub is_text : token ≡ str text
    pub parts : text ≡ header_part ++ (b'.' ∷ (payload_part ++ (b'.' ∷ signature_part)))
    pub signed_part : parsed.signing_input ≡ header_part ++ (b'.' ∷ payload_part)
    pub header_bytes : Bytes
    pub payload_bytes : Bytes
    pub header_decodes : b64url_decode header_part ≡ ok header_bytes
    pub payload_decodes : b64url_decode payload_part ≡ ok payload_bytes
    pub signature_decodes : b64url_decode signature_part ≡ ok parsed.signature
    pub header_loads : loads π.float_of_text header_bytes ≡ ok (obj parsed.header)
    pub claims_loads : loads π.float_of_text payload_bytes ≡ ok (obj parsed.claims)

  parse_parts-eq-ok :
      (code : Code) (p0 p1 p2 : Text) (parsed : ParsedJws)
      → parse_parts code p0 p1 p2 ≡ ok parsed
      → Parses (str (p0 ++ (b'.' ∷ (p1 ++ (b'.' ∷ p2))))) parsed
  unfolding parse_parts
  parse_parts-eq-ok code p0 p1 p2 parsed h =
      let (hb, e1, h1) = >>=-eq-ok (on_value_error code (b64url_decode p0)) _ h in
      let (pb, e2, h2) = >>=-eq-ok (on_value_error code (b64url_decode p1)) _ h1 in
      let (sig, e3, h3) = >>=-eq-ok (on_value_error code (b64url_decode p2)) _ h2 in
      let (hv, e4, h4) = >>=-eq-ok (on_any code (loads π.float_of_text hb)) _ h3 in
      let (cv, e5, h5) = >>=-eq-ok (on_any code (loads π.float_of_text pb)) _ h4 in
      let (hm, e6, h6) = >>=-eq-ok (as_object code hv) _ h5 in
      let (cm, e7, h7) = >>=-eq-ok (as_object code cv) _ h6 in
      subst (λ q. Parses (str (p0 ++ (b'.' ∷ (p1 ++ (b'.' ∷ p2))))) q) (ok-injective h7)
        (record {
          text = p0 ++ (b'.' ∷ (p1 ++ (b'.' ∷ p2)));
          header_part = p0;
          payload_part = p1;
          signature_part = p2;
          is_text = refl;
          parts = refl;
          signed_part = refl;
          header_bytes = hb;
          payload_bytes = pb;
          header_decodes = on_value_error-eq-ok code _ e1;
          payload_decodes = on_value_error-eq-ok code _ e2;
          signature_decodes = on_value_error-eq-ok code _ e3;
          header_loads = on_any-eq-ok code _ e4 ∙ ap ok (as_object-eq-ok code hv hm e6);
          claims_loads = on_any-eq-ok code _ e5 ∙ ap ok (as_object-eq-ok code cv cm e7);
        })

  -- The transmitted text is the two signed segments and the signature's, joined by dots.
  three_parts-text :
      (t p0 p1 p2 : Text)
      → three_parts (split b'.' t) ≡ some (p0, p1, p2)
      → p0 ++ (b'.' ∷ (p1 ++ (b'.' ∷ p2))) ≡ t
  unfolding join
  three_parts-text t p0 p1 p2 e =
      let q : split b'.' t ≡ p0 ∷ p1 ∷ p2 ∷ [] = three_parts-eq (split b'.' t) p0 p1 p2 e in
      let r : join b'.' (p0 ∷ p1 ∷ p2 ∷ []) ≡ t = rw q at (join-split b'.' t) in rw append-nil at r

  parts_case :
      (token : Text) (code : Code) (parsed : ParsedJws) (o : Option (Text × Text × Text))
      → three_parts (split b'.' token) ≡ o
      → (elim o as (λ _. Result ParsedJws) [
        | none ↦ err code
        | some (p0, p1, p2) ↦ parse_parts code p0 p1 p2
      ])
        ≡ ok parsed
      → Parses (str token) parsed
  parts_case token code parsed none e h = cc
  parts_case token code parsed (some (p0, p1, p2)) e h =
      subst (λ t. Parses (str t) parsed) (three_parts-text token p0 p1 p2 e)
        (parse_parts-eq-ok code p0 p1 p2 parsed h)

  -- A parsed token is the text of its three segments, joined by dots, which decode to the header, the
  -- claims and the signature; the first two are the signing input.
  pub parse_compact-Parses :
      (token : Value) (code : Code) (parsed : ParsedJws)
      → parse_compact token code ≡ ok parsed
      → Parses token parsed
  unfolding parse_compact parse_token
  parse_compact-Parses (str t) code parsed h =
      parts_case t code parsed (three_parts (split b'.' t)) refl h
  parse_compact-Parses v code parsed h = cc

  -- A token that verified: `typ` and `alg` are the expected ones, the artifact's own check passed on
  -- its claims, and the signature holds over the transmitted bytes under the issuer's key.
  pub record Verifies (token iss : Value) (typ : Text) (check : Members → Check) (claims : Members)
      : Type 0 where
    pub parsed : ParsedJws
    pub parses : Parses token parsed
    pub same_claims : parsed.claims ≡ claims
    pub two_members : bad_header parsed.header ≡ false
    pub has_typ : is_text typ (get_or_null (txt "typ") parsed.header) ≡ true
    pub checked : check claims ≡ ok tt
    pub issuer : Aid
    pub issuer_parses : parse_aid_value iss ≡ ok issuer
    pub has_alg : is_text (jose_alg issuer.alg) (get_or_null (txt "alg") parsed.header) ≡ true
    pub signed : verify_jose issuer.public_key parsed.signing_input parsed.signature ≡ true

  -- A token that `verify_jws` accepts has the expected `typ` and `alg` and no other header member,
  -- claims that passed the artifact's check, and a signature under the key of the issuer's AID.
  pub verify_jws-Verifies :
      (token iss : Value) (typ : Text) (codes : Codes) (check : Members → Check) (claims : Members)
      → verify_jws token iss typ codes check ≡ ok claims
      → Verifies token iss typ check claims
  unfolding verify_jws
  verify_jws-Verifies token iss typ codes check claims h =
      let (p, e, h1) = >>=-eq-ok (parse_compact token codes.sig_err) _ h in
      let (b1, h2) = raise_if-eq-ok (bad_header p.header) codes.alg_err _ h1 in
      let (b2, h3) =
        raise_if-eq-ok (not (is_text typ (get_or_null (txt "typ") p.header))) codes.typ_err _ h2 in
      let (c, h4) = >>-eq-ok (check p.claims) _ h3 in
      let (a, q, h5) = >>=-eq-ok (parse_aid_value iss) _ h4 in
      let (b3, h6) =
        raise_if-eq-ok (not (is_text (jose_alg a.alg) (get_or_null (txt "alg") p.header)))
          codes.alg_err _ h5 in
      let (b4, h7) =
        raise_if-eq-ok (not (verify_jose a.public_key p.signing_input p.signature)) codes.sig_err _
          h6 in
      let same : p.claims ≡ claims = ok-injective h7 in
      record {
        parsed = p;
        parses = parse_compact-Parses token codes.sig_err p e;
        same_claims = same;
        two_members = b1;
        has_typ = not-false _ b2;
        checked = ap check (sym same) ∙ c;
        issuer = a;
        issuer_parses = q;
        has_alg = not-false _ b3;
        signed = not-false _ b4;
      }

  -- Two parses of one token give the same claims.
  pub verify_jws-same_claims :
      (token iss : Value) (typ : Text) (codes : Codes) (check : Members → Check) (claims : Members)
      (parsed : ParsedJws)
      → parse_compact token codes.sig_err ≡ ok parsed
      → verify_jws token iss typ codes check ≡ ok claims
      → parsed.claims ≡ claims
  unfolding verify_jws
  verify_jws-same_claims token iss typ codes check claims parsed e h =
      let (p, e1, h1) = >>=-eq-ok (parse_compact token codes.sig_err) _ h in
      let (b1, h2) = raise_if-eq-ok (bad_header p.header) codes.alg_err _ h1 in
      let (b2, h3) =
        raise_if-eq-ok (not (is_text typ (get_or_null (txt "typ") p.header))) codes.typ_err _ h2 in
      let (c, h4) = >>-eq-ok (check p.claims) _ h3 in
      let (a, q, h5) = >>=-eq-ok (parse_aid_value iss) _ h4 in
      let (b3, h6) =
        raise_if-eq-ok (not (is_text (jose_alg a.alg) (get_or_null (txt "alg") p.header)))
          codes.alg_err _ h5 in
      let (b4, h7) =
        raise_if-eq-ok (not (verify_jose a.public_key p.signing_input p.signature)) codes.sig_err _
          h6 in
      let same : parsed ≡ p = ok-injective (sym e ∙ e1) in ap (λ q. q.claims) same ∙ ok-injective h7
