-- ===== src/SessionBundle/Sound.antt =====
-- What `verify_session_bundle` of aitp_verifier/sessionbundle.py establishes.
use aitp_verifier_py.Prelude.{
  ◌≡◌, ap, ◌∙◌, subst, true, false, not, some, List, [], ◌∷◌, All, not-false, Bool-cases, inl, inr,
}
use aitp_verifier_py.Text.{Text, txt}
use aitp_verifier_py.Json.{Value, obj, Members, get, get_or_null, at, is_text}
use aitp_verifier_py.Json.Access.{text_at}
use aitp_verifier_py.Json.Access.Laws.{at-eq-ok}
use aitp_verifier_py.Outcome.{
  Result, ok, >>=-eq-ok, >>-eq-ok, raise_if-eq-ok, raise_if_passed, bundle_participant_tct_invalid,
  bundle_coordinator_issuer_mismatch, bundle_audience_mismatch, err, raised,
}
use aitp_verifier_py.Platform.{Platform}
use aitp_verifier_py.Jws.{parse_compact, verify_jws}
use aitp_verifier_py.Jws.Sound.{Verifies, verify_jws-Verifies, verify_jws-same_claims}
use aitp_verifier_py.Tct.{check_tct_claims_shape, outlives_manifest}
use aitp_verifier_py.SessionBundle.Participants.{
  remap, is_unknown_field, participant_codes, verify_participant, verify_participants,
}

remap-eq-ok {ℓ} : {A : Type ℓ} (r : Result A) {a : A} → remap r ≡ ok a → r ≡ ok a
unfolding remap
remap-eq-ok (ok b) h = h
remap-eq-ok (err c) h = elim (Bool-cases (is_unknown_field c)) [
  | inl same ↦ let k = rw same at h in cc
  | inr other ↦ let k = rw other at h in cc
]
remap-eq-ok (raised x) h = cc

module _ ⦃π : Platform⦄ where
  -- A participant's token, signed by the coordinator for this participant, within the life of the
  -- coordinator's Manifest.
  pub record IsParticipant (coordinator : Text) (manifest p : Members) : Type 0 where
    pub tct : Value
    pub has_tct : get (txt "tct") p ≡ some tct
    pub claims : Members
    pub verifies :
        Verifies tct
          (get_or_null (txt "iss") claims)
          (txt "aitp-tct+jwt")
          (λ c. check_tct_claims_shape c bundle_participant_tct_invalid)
          claims
    pub within_manifest : outlives_manifest claims (obj manifest) ≡ ok false
    pub from_coordinator : is_text coordinator (get_or_null (txt "iss") claims) ≡ true
    pub aid : Text
    pub has_aid : text_at (txt "aid") p ≡ ok aid
    pub for_participant : is_text aid (get_or_null (txt "aud") claims) ≡ true

  verify_participant-IsParticipant :
      (coordinator : Text) (manifest p : Members)
      → verify_participant coordinator manifest p ≡ ok tt
      → IsParticipant coordinator manifest p
  unfolding verify_participant participant_codes
  verify_participant-IsParticipant coordinator manifest p h =
      let (tct, e, h1) = >>=-eq-ok (at (txt "tct") p) _ h in
      let (parsed, f, h2) = >>=-eq-ok (parse_compact tct bundle_participant_tct_invalid) _ h1 in
      let (claims, g, h3) =
        >>=-eq-ok
          (remap (
            verify_jws tct (get_or_null (txt "iss") parsed.claims) (txt "aitp-tct+jwt")
              participant_codes (λ c. check_tct_claims_shape c bundle_participant_tct_invalid)))
          _ h2 in
      let v = remap-eq-ok _ g in
      let same =
        verify_jws-same_claims tct _ (txt "aitp-tct+jwt") participant_codes _ claims parsed f v in
      let (o, i, h4) = >>=-eq-ok (outlives_manifest claims (obj manifest)) _ h3 in
      let (j, h5) = raise_if-eq-ok o bundle_participant_tct_invalid _ h4 in
      let (k, h6) =
        raise_if-eq-ok (not (is_text coordinator (get_or_null (txt "iss") claims)))
          bundle_coordinator_issuer_mismatch _ h5 in
      let (aid, l, h7) = >>=-eq-ok (text_at (txt "aid") p) _ h6 in
      record {
        tct = tct;
        has_tct = at-eq-ok (txt "tct") p tct e;
        claims = claims;
        verifies =
            subst
              (λ c.
                Verifies tct (get_or_null (txt "iss") c) (txt "aitp-tct+jwt")
                  (λ d. check_tct_claims_shape d bundle_participant_tct_invalid) claims)
              same (verify_jws-Verifies tct _ (txt "aitp-tct+jwt") participant_codes _ claims v);
        within_manifest = i ∙ ap ok j;
        from_coordinator = not-false _ k;
        aid = aid;
        has_aid = l;
        for_participant = raise_if_passed _ bundle_audience_mismatch h7;
      }

  pub verify_participants-IsParticipant :
      (coordinator : Text) (manifest : Members) (ps : List Members)
      → verify_participants coordinator manifest ps ≡ ok tt
      → All (IsParticipant coordinator manifest) ps
  unfolding verify_participants
  verify_participants-IsParticipant coordinator manifest [] h = tt
  verify_participants-IsParticipant coordinator manifest (p ∷ ps) h =
      let (a, h1) = >>-eq-ok (verify_participant coordinator manifest p) _ h in
      (
        verify_participant-IsParticipant coordinator manifest p a,
        verify_participants-IsParticipant coordinator manifest ps h1,
      )
