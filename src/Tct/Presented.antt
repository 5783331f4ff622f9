-- ===== src/Tct/Presented.antt =====
-- What `verify_tct_as_issuer` of aitp_verifier/tct.py establishes of the presenter.
use aitp_verifier_py.Prelude.{
  ◌≡◌, ◌≢◌, refl, sym, ap, ◌∙◌, Bool, true, false, not, Option, none, some, List, [], ◌∷◌, AnyOf,
  inl, inr, subst, not-false, &&-true, not-true, if◌then◌else◌,
}
use aitp_verifier_py.Prelude.Int.{ℤ, leb_ℤ}
use aitp_verifier_py.Text.Laws.{text_eq→eq}
use aitp_verifier_py.Text.{Text, Bytes, txt, text_eq}
use aitp_verifier_py.Json.{
  Value, null, bool, int, float, str, list, obj, Members, get, get_or_null, at, is_text,
}
use aitp_verifier_py.Json.Access.{text_at, members_at, int_at}
use aitp_verifier_py.Json.Access.Laws.{at-eq-ok}
use aitp_verifier_py.Outcome.{
  Code, Result, ok, err, raised, ◌>>=◌, on_value_error, on_aitp_error, >>=-eq-ok, >>-eq-ok,
  raise_if-eq-ok, on_value_error-eq-ok, ok-injective, raise_if_silent, unknown_version,
  tct_signature_invalid, tct_expired, pop_response_invalid, pop_challenge_invalid,
}
use aitp_verifier_py.Platform.{Platform}
use aitp_verifier_py.B64.{b64url_decode}
use aitp_verifier_py.Crypto.{verify_digest}
use aitp_verifier_py.Aid.{Aid, parse_aid}
use aitp_verifier_py.Jws.{parse_compact}
use aitp_verifier_py.Jws.Sound.{Verifies, verify_jws-Verifies, verify_jws-same_claims}
use aitp_verifier_py.Sigfield.{decode_tagged_signature}
use aitp_verifier_py.Revocation.{protocol_version}
use aitp_verifier_py.Envelope.Contains.{equal}
use aitp_verifier_py.Tct.{check_tct_claims_shape, check_grant_context, check_revocation, tct_codes}
use aitp_verifier_py.Tct.Sound.{
  IsGrant, check_grant_context-IsGrant, IsBound, check_binding-IsBound,
}
use aitp_verifier_py.Tct.Issuer.{
  answers, first_answer, still_open, check_challenge, iterate_or_empty, is_pop_response,
  read_response, check_response_signature, check_pop, presenter_from_pop, presenter_of,
  check_own_claims, verify_own_token, verify_tct_as_issuer,
}

-- The challenge that was chosen: an outstanding one for this token and this nonce.
pub record IsIssued (jti nonce : Text) (challenges : List Value) (challenge : Members)
    : Type 0 where
  pub outstanding : AnyOf (λ c. c ≡ obj challenge) challenges
  pub for_token : is_text jti (get_or_null (txt "tct_jti") challenge) ≡ true
  pub for_nonce : is_text nonce (get_or_null (txt "nonce") challenge) ≡ true

answers-fields :
    (jti nonce : Text) (c : Members)
    → answers jti nonce (obj c) ≡ true
    → (is_text jti (get_or_null (txt "tct_jti") c) ≡ true)
      × (is_text nonce (get_or_null (txt "nonce") c) ≡ true)
unfolding answers
answers-fields jti nonce c h = &&-true _ _ h

first_answer-IsIssued :
    (jti nonce : Text) (cs : List Value) (c : Members)
    → first_answer jti nonce cs ≡ some (obj c)
    → IsIssued jti nonce cs c
unfolding first_answer
first_answer-IsIssued jti nonce [] c h = cc
first_answer-IsIssued jti nonce (v ∷ vs) c h =
    chosen (answers jti nonce v) refl (first_answer-IsIssued jti nonce vs c) h
  where
    chosen :
        (b : Bool)
        → answers jti nonce v ≡ b
        → (first_answer jti nonce vs ≡ some (obj c) → IsIssued jti nonce vs c)
        → (if b then some v else first_answer jti nonce vs) ≡ some (obj c)
        → IsIssued jti nonce (v ∷ vs) c
    chosen true e later k =
        let same : v ≡ obj c = cc in
        let (p, q) = answers-fields jti nonce c (subst (λ w. answers jti nonce w ≡ true) same e) in
        record { outstanding = inl same; for_token = p; for_nonce = q }
    chosen false e later k =
        let i = later k in
        record { outstanding = inr i.outstanding; for_token = i.for_token; for_nonce = i.for_nonce }

still_open-bound :
    (now : ℤ) (v : Value)
    → still_open now v ≡ true
    → (expires : ℤ) × (v ≡ int expires) × (leb_ℤ expires now ≡ false)
unfolding still_open
still_open-bound now (int n) h = (n, refl, not-true _ h)
still_open-bound now v h = cc

on_aitp_error-eq-ok {ℓ} :
    {A : Type ℓ} (c : Code) (r : Result A) {a : A} → on_aitp_error (err c) r ≡ ok a → r ≡ ok a
on_aitp_error-eq-ok c (ok b) h = h
on_aitp_error-eq-ok c (err d) h = cc
on_aitp_error-eq-ok c (raised x) h = cc

module _ ⦃π : Platform⦄ where
  -- An answered challenge: one of the outstanding ones for this token and for the nonce that the
  -- response in the input echoes, still open, whose nonce the key in `sub` has signed.
  pub record IsAnswered (inp claims : Members) (now : ℤ) (sub : Text) : Type 0 where
    pub jti : Text
    pub has_jti : text_at (txt "jti") claims ≡ ok jti
    pub has_sub : text_at (txt "sub") claims ≡ ok sub
    pub envelope : Value
    pub has_envelope : get (txt "envelope") inp ≡ some envelope
    pub env : Members
    pub sender : Aid
    pub response : read_response envelope ≡ ok (env, sender)
    pub sealed : check_response_signature env sender ≡ ok tt
    pub payload : Members
    pub has_payload : members_at (txt "payload") env ≡ ok payload
    pub is_response : is_pop_response env payload ≡ true
    pub same_token : is_text jti (get_or_null (txt "tct_jti") payload) ≡ true
    pub nonce_echo : Text
    pub has_echo : text_at (txt "nonce_echo") payload ≡ ok nonce_echo
    pub challenges : List Value
    pub outstanding :
        iterate_or_empty (get_or_null (txt "outstanding_pop_challenges") inp) ≡ ok challenges
    pub challenge : Members
    pub issued : IsIssued jti nonce_echo challenges challenge
    pub expires : ℤ
    pub has_expires : get_or_null (txt "expires_at") challenge ≡ int expires
    pub open_now : leb_ℤ expires now ≡ false
    pub nonce : Bytes
    pub decodes : b64url_decode nonce_echo ≡ ok nonce
    pub key : Aid
    pub key_parses : parse_aid sub ≡ ok key
    pub sig : Bytes
    pub sig_decodes :
        decode_tagged_signature
          (get_or_null (txt "pop_signature") payload)
          key.alg
          pop_response_invalid
        ≡ ok sig
    pub signed : verify_digest key.public_key (π.sha256 nonce) sig ≡ true

  check_challenge-inv :
      (now : ℤ) (o : Option Value)
      → check_challenge now o ≡ ok tt
      → (c : Members) × (o ≡ some (obj c))
        × (still_open now (get_or_null (txt "expires_at") c) ≡ true)
  unfolding check_challenge
  check_challenge-inv now (some (obj c)) h =
      (c, refl, not-false _ (raise_if_silent _ pop_challenge_invalid h))
  check_challenge-inv now none h = cc
  check_challenge-inv now (some v) h = cc

  check_pop-IsAnswered :
      (inp claims env payload : Members) (envelope : Value) (sender : Aid) (now : ℤ) (sub : Text)
      → get (txt "envelope") inp ≡ some envelope
      → read_response envelope ≡ ok (env, sender)
      → check_response_signature env sender ≡ ok tt
      → members_at (txt "payload") env ≡ ok payload
      → is_pop_response env payload ≡ true
      → check_pop inp claims payload now ≡ ok sub
      → IsAnswered inp claims now sub
  unfolding check_pop
  check_pop-IsAnswered inp claims env payload envelope sender now sub e0 e1 e2 e3 e4 h =
      let (jti, a, h1) = >>=-eq-ok (text_at (txt "jti") claims) _ h in
      let (b, h2) =
        raise_if-eq-ok (not (is_text jti (get_or_null (txt "tct_jti") payload)))
          pop_response_invalid _ h1 in
      let (echo, c, h3) = >>=-eq-ok (text_at (txt "nonce_echo") payload) _ h2 in
      let (cs, d, h4) =
        >>=-eq-ok (iterate_or_empty (get_or_null (txt "outstanding_pop_challenges") inp)) _ h3 in
      let (e, h5) = >>-eq-ok (check_challenge now (first_answer jti echo cs)) _ h4 in
      let (challenge, found, live) = check_challenge-inv now (first_answer jti echo cs) e in
      let (expires, x, y) = still_open-bound now _ live in
      let (nonce, f, h6) =
        >>=-eq-ok (on_value_error pop_challenge_invalid (b64url_decode echo)) _ h5 in
      let (s, g, h7) = >>=-eq-ok (text_at (txt "sub") claims) _ h6 in
      let (key, i, h8) = >>=-eq-ok (parse_aid s) _ h7 in
      let (sig, j, h9) =
        >>=-eq-ok
          (decode_tagged_signature (get_or_null (txt "pop_signature") payload) key.alg
            pop_response_invalid)
          _ h8 in
      let (k, h10) =
        raise_if-eq-ok (not (verify_digest key.public_key (π.sha256 nonce) sig))
          pop_response_invalid _ h9 in
      subst (IsAnswered inp claims now) (ok-injective h10) (record {
        jti = jti;
        has_jti = a;
        has_sub = g;
        envelope = envelope;
        has_envelope = e0;
        env = env;
        sender = sender;
        response = e1;
        sealed = e2;
        payload = payload;
        has_payload = e3;
        is_response = e4;
        same_token = not-false _ b;
        has_echo = c;
        nonce_echo = echo;
        challenges = cs;
        outstanding = d;
        challenge = challenge;
        issued = first_answer-IsIssued jti echo cs challenge found;
        expires = expires;
        has_expires = x;
        open_now = y;
        nonce = nonce;
        decodes = on_value_error-eq-ok pop_challenge_invalid _ f;
        key = key;
        key_parses = i;
        sig = sig;
        sig_decodes = j;
        signed = not-false _ k;
      })

  response_read :
      (envelope : Value) (env : Members) (sender : Aid)
      → on_aitp_error
          (err pop_response_invalid)
          (on_value_error pop_response_invalid (read_response envelope))
        ≡ ok (env, sender)
      → read_response envelope ≡ ok (env, sender)
  response_read envelope env sender h =
      on_value_error-eq-ok pop_response_invalid _ (on_aitp_error-eq-ok pop_response_invalid _ h)

  -- presenter_from_pop returns a presenter only on an outstanding, unexpired challenge for the token
  -- and for the nonce that the supplied response echoes, whose nonce the key in sub has signed.
  pub presenter_from_pop-IsAnswered :
      (inp claims : Members) (now : ℤ) (sub : Text)
      → presenter_from_pop inp claims now ≡ ok sub
      → IsAnswered inp claims now sub
  unfolding presenter_from_pop
  presenter_from_pop-IsAnswered inp claims now sub h =
      let (envelope, a, h1) = >>=-eq-ok (at (txt "envelope") inp) _ h in
      let ((env, sender), b, h2) =
        >>=-eq-ok
          (on_aitp_error (err pop_response_invalid)
            (on_value_error pop_response_invalid (read_response envelope)))
          _ h1 in
      let (payload, c, h3) = >>=-eq-ok (members_at (txt "payload") env) _ h2 in
      let (d, h4) = raise_if-eq-ok (not (is_pop_response env payload)) pop_response_invalid _ h3 in
      let (e, h5) = >>-eq-ok (check_response_signature env sender) _ h4 in
      check_pop-IsAnswered inp claims env payload envelope sender now sub
        (at-eq-ok (txt "envelope") inp envelope a) (response_read envelope env sender b) e c
        (not-false _ d) h5

  -- Who presents a token: the party that the channel authenticated, where no envelope is supplied, or
  -- the one that answered a challenge.
  pub data IsPresenter (inp claims : Members) (now : ℤ) (presenter : Value) : Type 0 where
    by_channel :
        get_or_null (txt "envelope") inp ≡ null
        → get_or_null (txt "channel_bound_aid") inp ≡ presenter
        → presenter ≢ null
        → IsPresenter inp claims now presenter
    by_pop :
        (sub : Text)
        → presenter ≡ str sub
        → IsAnswered inp claims now sub
        → IsPresenter inp claims now presenter

  by_response :
      (inp claims : Members) (now : ℤ) (presenter : Value)
      → (presenter_from_pop inp claims now >>= λ s. ok (str s)) ≡ ok presenter
      → IsPresenter inp claims now presenter
  by_response inp claims now presenter h =
      let (s, p, h1) = >>=-eq-ok (presenter_from_pop inp claims now) _ h in
      by_pop s (sym (ok-injective h1)) (presenter_from_pop-IsAnswered inp claims now s p)

  by_bound :
      (inp claims : Members) (now : ℤ) (bound presenter : Value)
      → get_or_null (txt "envelope") inp ≡ null
      → get_or_null (txt "channel_bound_aid") inp ≡ bound
      → bound ≢ null
      → ok bound ≡ ok presenter
      → IsPresenter inp claims now presenter
  by_bound inp claims now bound presenter e b n h =
      let same : bound ≡ presenter = ok-injective h in
      by_channel e (b ∙ same) (subst (λ v. v ≢ null) same n)

  presenter_of-IsPresenter :
      (inp claims : Members) (now : ℤ) (envelope bound presenter : Value)
      → get_or_null (txt "envelope") inp ≡ envelope
      → get_or_null (txt "channel_bound_aid") inp ≡ bound
      → presenter_of inp claims now envelope bound ≡ ok presenter
      → IsPresenter inp claims now presenter
  unfolding presenter_of
  presenter_of-IsPresenter inp claims now null null presenter e b h = cc
  presenter_of-IsPresenter inp claims now null (bool v) presenter e b h =
      by_bound inp claims now (bool v) presenter e b (λ d. cc) h
  presenter_of-IsPresenter inp claims now null (int v) presenter e b h =
      by_bound inp claims now (int v) presenter e b (λ d. cc) h
  presenter_of-IsPresenter inp claims now null (float v) presenter e b h =
      by_bound inp claims now (float v) presenter e b (λ d. cc) h
  presenter_of-IsPresenter inp claims now null (str v) presenter e b h =
      by_bound inp claims now (str v) presenter e b (λ d. cc) h
  presenter_of-IsPresenter inp claims now null (list v) presenter e b h =
      by_bound inp claims now (list v) presenter e b (λ d. cc) h
  presenter_of-IsPresenter inp claims now null (obj v) presenter e b h =
      by_bound inp claims now (obj v) presenter e b (λ d. cc) h
  presenter_of-IsPresenter inp claims now v bound presenter e b h =
      by_response inp claims now presenter h

  -- The claims of a token that is of this version, for its own subject, unexpired, a grant, and bound
  -- to its subject's key.
  pub record IsLiveOwn (claims : Members) (now : ℤ) : Type 0 where
    pub version : is_text protocol_version (get_or_null (txt "ver") claims) ≡ true
    pub aud : Text
    pub has_aud : text_at (txt "aud") claims ≡ ok aud
    pub to_subject : text_at (txt "sub") claims ≡ ok aud
    pub exp : ℤ
    pub has_exp : int_at (txt "exp") claims ≡ ok exp
    pub unexpired : leb_ℤ exp now ≡ false
    pub grant : IsGrant claims
    pub bound : IsBound claims

  -- A token of this verifier's own, of this version and alive, presented by its subject.
  pub record IsPresented (inp : Members) (now : ℤ) (presenter : Value) (claims : Members)
      : Type 0 where
    pub token : Value
    pub has_token : get (txt "tct_token") inp ≡ some token
    pub self_aid : Value
    pub has_self : get (txt "self_aid") inp ≡ some self_aid
    pub verifies :
        Verifies token self_aid
          (txt "aitp-tct+jwt")
          (λ c. check_tct_claims_shape c tct_signature_invalid)
          claims
    pub own : equal (get_or_null (txt "iss") claims) self_aid ≡ true
    pub sub : Text
    pub has_sub : text_at (txt "sub") claims ≡ ok sub
    pub subject_presents : is_text sub presenter ≡ true
    pub from_source : IsPresenter inp claims now presenter
    pub live : IsLiveOwn claims now
    pub not_revoked : check_revocation claims inp now ≡ ok tt

  own_token_inv :
      (token self_aid : Value) (claims : Members)
      → verify_own_token token self_aid ≡ ok claims
      → Verifies token self_aid
          (txt "aitp-tct+jwt")
          (λ c. check_tct_claims_shape c tct_signature_invalid)
          claims
        × (equal (get_or_null (txt "iss") claims) self_aid ≡ true)
  unfolding verify_own_token tct_codes
  own_token_inv token self_aid claims h =
      let (p, a, h1) = >>=-eq-ok (parse_compact token tct_signature_invalid) _ h in
      let (b, h2) =
        raise_if-eq-ok (not (equal (get_or_null (txt "iss") p.claims) self_aid))
          tct_signature_invalid _ h1 in
      let same =
        verify_jws-same_claims token self_aid (txt "aitp-tct+jwt") tct_codes _ claims p a h2 in
      (
        verify_jws-Verifies token self_aid (txt "aitp-tct+jwt") tct_codes _ claims h2,
        subst (λ c. equal (get_or_null (txt "iss") c) self_aid ≡ true) same (not-false _ b),
      )

  check_own_claims-IsLiveOwn :
      (claims : Members) (now : ℤ) → check_own_claims claims now ≡ ok tt → IsLiveOwn claims now
  unfolding check_own_claims
  check_own_claims-IsLiveOwn claims now h =
      let (a, h1) =
        raise_if-eq-ok (not (is_text protocol_version (get_or_null (txt "ver") claims)))
          unknown_version _ h in
      let (aud, b, h2) = >>=-eq-ok (text_at (txt "aud") claims) _ h1 in
      let (sub, c, h3) = >>=-eq-ok (text_at (txt "sub") claims) _ h2 in
      let (d, h4) = raise_if-eq-ok (not (text_eq aud sub)) tct_signature_invalid _ h3 in
      let (exp, e, h5) = >>=-eq-ok (int_at (txt "exp") claims) _ h4 in
      let (f, h6) = raise_if-eq-ok (leb_ℤ exp now) tct_expired _ h5 in
      let (g, h7) = >>-eq-ok (check_grant_context claims) _ h6 in
      record {
        version = not-false _ a;
        aud = aud;
        has_aud = b;
        to_subject = c ∙ ap ok (sym (text_eq→eq aud sub (not-false _ d)));
        exp = exp;
        has_exp = e;
        unexpired = f;
        grant = check_grant_context-IsGrant claims g;
        bound = check_binding-IsBound claims h7;
      }

  -- verify_tct_as_issuer accepts only the token in the input, signed under the verifier's own key with
  -- the verifier as its iss, of this version, for its own subject, unexpired, with the grant context and
  -- cnf.jkt checks passed, from a presenter that a PoP response or, without an envelope, the channel
  -- shows to be the token's subject; and the revocation check passed.
  pub verify_tct_as_issuer-IsPresented :
      (inp : Members) (now : ℤ) (presenter grants : Value)
      → verify_tct_as_issuer inp now ≡ ok (presenter, grants)
      → (claims : Members) × IsPresented inp now presenter claims
        × (get (txt "grants") claims ≡ some grants)
  unfolding verify_tct_as_issuer
  verify_tct_as_issuer-IsPresented inp now presenter grants h =
      let (token, a, h1) = >>=-eq-ok (at (txt "tct_token") inp) _ h in
      let (self_aid, b, h2) = >>=-eq-ok (at (txt "self_aid") inp) _ h1 in
      let (claims, c, h3) = >>=-eq-ok (verify_own_token token self_aid) _ h2 in
      let (d, h4) = >>-eq-ok (check_own_claims claims now) _ h3 in
      let (p, e, h5) =
        >>=-eq-ok
          (presenter_of inp claims now (get_or_null (txt "envelope") inp)
            (get_or_null (txt "channel_bound_aid") inp))
          _ h4 in
      let (sub, f, h6) = >>=-eq-ok (text_at (txt "sub") claims) _ h5 in
      let (g, h7) = raise_if-eq-ok (not (is_text sub p)) pop_response_invalid _ h6 in
      let (i, h8) = >>-eq-ok (check_revocation claims inp now) _ h7 in
      let (gs, j, h9) = >>=-eq-ok (at (txt "grants") claims) _ h8 in
      let same : p ≡ presenter = ap (λ q. q.0) (ok-injective h9) in
      let (v, own) = own_token_inv token self_aid claims c in
      (
        claims,
        record {
          token = token;
          has_token = at-eq-ok (txt "tct_token") inp token a;
          self_aid = self_aid;
          has_self = at-eq-ok (txt "self_aid") inp self_aid b;
          verifies = v;
          own = own;
          sub = sub;
          has_sub = f;
          subject_presents = subst (λ q. is_text sub q ≡ true) same (not-false _ g);
          from_source =
              presenter_of-IsPresenter inp claims now _ _ presenter refl refl (e ∙ ap ok same);
          live = check_own_claims-IsLiveOwn claims now d;
          not_revoked = i;
        },
        at-eq-ok (txt "grants") claims gs j ∙ ap some (ap (λ q. q.1) (ok-injective h9)),
      )
