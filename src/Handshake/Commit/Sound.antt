-- ===== src/Handshake/Commit/Sound.antt =====
-- What `_verify_commit` of aitp_verifier/handshake.py establishes.
use aitp_verifier_py.Prelude.{◌≡◌, refl, true, false, not, some, List, not-false}
use aitp_verifier_py.Prelude.Int.{ℤ, leb_ℤ}
use aitp_verifier_py.Text.{Text, Bytes, txt, split, subset}
use aitp_verifier_py.Json.{
  Value, null, bool, int, float, str, list, obj, Members, get, get_or_null, at, has, is_text,
}
use aitp_verifier_py.Json.Access.{text_at, texts_at, int_at}
use aitp_verifier_py.Json.Access.Laws.{at-eq-ok}
use aitp_verifier_py.Outcome.{
  ok, raise_if, ◌>>=◌, >>=-eq-ok, >>-eq-ok, raise_if-eq-ok, raise_if_passed, invalid_envelope,
  unknown_version, audience_mismatch, tct_expired, grant_overflow, tct_signature_invalid,
}
use aitp_verifier_py.Platform.{Platform}
use aitp_verifier_py.B64.{b64url_decode}
use aitp_verifier_py.Fields.{has_extra, reject_unknown_members}
use aitp_verifier_py.Fields.Laws.{reject_unknown_members-ok}
use aitp_verifier_py.Crypto.{verify_digest}
use aitp_verifier_py.Aid.{Aid}
use aitp_verifier_py.Jws.{parse_aid_value}
use aitp_verifier_py.Jws.Sound.{Verifies}
use aitp_verifier_py.Revocation.{protocol_version}
use aitp_verifier_py.Tct.{
  check_tct_claims_shape, check_grant_context, other_audience, check_binding, verify_token,
}
use aitp_verifier_py.Tct.Sound.{
  IsShaped, check_tct_claims_shape-IsShaped, IsGrant, check_grant_context-IsGrant, IsBound,
  check_binding-IsBound, verify_token-Verifies,
}
use aitp_verifier_py.Handshake.Commit.{
  commit_payload_fields, envelope_sender, self_nonce, last_part, decode_nonce, offered_set,
  check_offered, commit_sender, check_round_two, check_commit_claims, verify_commit_members,
  verify_commit,
}

-- The grants are within what the issuer offers, where the input says what that is.
pub data IsOffered (grants : List Text) (offered : Value) : Type 0 where
  unlimited : offered ≡ null → IsOffered grants offered
  within :
      (allowed : List Text)
      → offered_set offered ≡ ok allowed
      → subset grants allowed ≡ true
      → IsOffered grants offered

IsOffered-within :
    (grants : List Text) (offered : Value)
    → (offered_set offered >>= λ allowed. raise_if (not (subset grants allowed)) grant_overflow)
      ≡ ok tt
    → IsOffered grants offered
IsOffered-within grants offered h =
    let (allowed, p, h1) = >>=-eq-ok (offered_set offered) _ h in
    within allowed p (raise_if_passed _ grant_overflow h1)

check_offered-IsOffered :
    (grants : List Text) (offered : Value)
    → check_offered grants offered ≡ ok tt
    → IsOffered grants offered
unfolding check_offered
check_offered-IsOffered grants null h = unlimited refl
check_offered-IsOffered grants (bool b) h = IsOffered-within grants (bool b) h
check_offered-IsOffered grants (int n) h = IsOffered-within grants (int n) h
check_offered-IsOffered grants (float f) h = IsOffered-within grants (float f) h
check_offered-IsOffered grants (str s) h = IsOffered-within grants (str s) h
check_offered-IsOffered grants (list l) h = IsOffered-within grants (list l) h
check_offered-IsOffered grants (obj m) h = IsOffered-within grants (obj m) h

module _ ⦃π : Platform⦄ where
  -- The sender's key signed the verifier's own nonce.
  pub record Answers (pop_signature : Text) (nonce sender : Value) : Type 0 where
    pub key : Aid
    pub key_parses : parse_aid_value sender ≡ ok key
    pub sig : Bytes
    pub decodes : b64url_decode (last_part (split b'.' pop_signature)) ≡ ok sig
    pub bytes : Bytes
    pub nonce_bytes : decode_nonce nonce ≡ ok bytes
    pub signed : verify_digest key.public_key (π.sha256 bytes) sig ≡ true

  -- An accepted commit: its token verifies under its own issuer's key, is shaped, of this version,
  -- for this party, unexpired, a grant bound to its subject's key and within the issuer's offer; and
  -- where a proof of possession is there and a nonce was sent, the sender answered that nonce.
  pub record IsCommitted (inp payload : Members) (self_aid : Value) (now : ℤ) (claims : Members)
      : Type 0 where
    pub only_fields : has_extra payload commit_payload_fields ≡ false
    pub tct : Value
    pub has_tct : get (txt "tct") payload ≡ some tct
    pub agent_id : Value
    pub has_agent_id : envelope_sender inp ≡ ok agent_id
    pub sender : Value
    pub has_sender : commit_sender agent_id tct ≡ ok sender
    pub possession :
        check_round_two (get_or_null (txt "pop_signature") payload) (self_nonce inp) sender ≡ ok tt
    pub verifies :
        Verifies tct
          (get_or_null (txt "iss") claims)
          (txt "aitp-tct+jwt")
          (λ c. check_tct_claims_shape c tct_signature_invalid)
          claims
    pub shaped : IsShaped claims
    pub version : is_text protocol_version (get_or_null (txt "ver") claims) ≡ true
    pub aud : Text
    pub has_aud : text_at (txt "aud") claims ≡ ok aud
    pub audience : other_audience self_aid aud ≡ false
    pub exp : ℤ
    pub has_exp : int_at (txt "exp") claims ≡ ok exp
    pub unexpired : leb_ℤ exp now ≡ false
    pub grant : IsGrant claims
    pub bound : IsBound claims
    pub grants : List Text
    pub has_grants : texts_at (txt "grants") claims ≡ ok grants
    pub offered : IsOffered grants (get_or_null (txt "issuer_offered_capabilities") inp)

  pub verify_commit_members-IsCommitted :
      (inp payload : Members) (self_aid : Value) (now : ℤ) (grants : Value)
      → verify_commit_members inp payload self_aid now ≡ ok grants
      → (claims : Members) × IsCommitted inp payload self_aid now claims
        × (get (txt "grants") claims ≡ some grants)
  unfolding verify_commit_members check_commit_claims
  verify_commit_members-IsCommitted inp payload self_aid now grants h =
      let (p, h1) = >>-eq-ok (reject_unknown_members payload commit_payload_fields) _ h in
      let (q, h2) = raise_if-eq-ok (not (has (txt "tct") payload)) invalid_envelope _ h1 in
      let (tct, r, h3) = >>=-eq-ok (at (txt "tct") payload) _ h2 in
      let (a, s, h4) = >>=-eq-ok (envelope_sender inp) _ h3 in
      let (sender, t, h5) = >>=-eq-ok (commit_sender a tct) _ h4 in
      let (u, h6) =
        >>-eq-ok
          (check_round_two (get_or_null (txt "pop_signature") payload) (self_nonce inp) sender) _
          h5 in
      let (claims, v, h7) = >>=-eq-ok (verify_token tct) _ h6 in
      let (k, w) = >>-eq-ok (check_commit_claims inp claims self_aid now) _ h7 in
      let (k0, k1) =
        raise_if-eq-ok (not (is_text protocol_version (get_or_null (txt "ver") claims)))
          unknown_version _ k in
      let (aud, k2, k3) = >>=-eq-ok (text_at (txt "aud") claims) _ k1 in
      let (k4, k5) = raise_if-eq-ok (other_audience self_aid aud) audience_mismatch _ k3 in
      let (exp, k6, k7) = >>=-eq-ok (int_at (txt "exp") claims) _ k5 in
      let (k8, k9) = raise_if-eq-ok (leb_ℤ exp now) tct_expired _ k7 in
      let (g, k10) = >>-eq-ok (check_grant_context claims) _ k9 in
      let (b, k11) = >>-eq-ok (check_binding claims) _ k10 in
      let (gs, k12, k13) = >>=-eq-ok (texts_at (txt "grants") claims) _ k11 in
      let verifies = verify_token-Verifies tct claims v in
      (
        claims,
        record {
          only_fields = reject_unknown_members-ok payload commit_payload_fields p;
          tct = tct;
          has_tct = at-eq-ok (txt "tct") payload tct r;
          agent_id = a;
          has_agent_id = s;
          sender = sender;
          has_sender = t;
          possession = u;
          verifies = verifies;
          shaped = check_tct_claims_shape-IsShaped claims tct_signature_invalid verifies.checked;
          version = not-false _ k0;
          aud = aud;
          has_aud = k2;
          audience = k4;
          exp = exp;
          has_exp = k6;
          unexpired = k8;
          grant = check_grant_context-IsGrant claims g;
          bound = check_binding-IsBound claims b;
          grants = gs;
          has_grants = k12;
          offered = check_offered-IsOffered gs _ k13;
        },
        at-eq-ok (txt "grants") claims grants w,
      )

  -- `_verify_commit` returns grants only of an accepted commit, and exactly those of its token.
  pub verify_commit-IsCommitted :
      (inp : Members) (payload : Value) (self_aid : Value) (now : ℤ) (grants : Value)
      → verify_commit inp payload self_aid now ≡ ok grants
      → (m : Members) × (payload ≡ obj m)
        × (claims : Members) × IsCommitted inp m self_aid now claims
        × (get (txt "grants") claims ≡ some grants)
  unfolding verify_commit
  verify_commit-IsCommitted inp (obj m) self_aid now grants h =
      let (claims, c, g) = verify_commit_members-IsCommitted inp m self_aid now grants h in
      (m, refl, claims, c, g)
  verify_commit-IsCommitted inp v self_aid now grants h = cc
