-- ===== src/SessionBundle/Participants.antt =====
-- The participants of a bundle in aitp_verifier/sessionbundle.py: their entries, and their tokens.
use aitp_verifier_py.Prelude.{Bool, true, false, not, List, [], ◌∷◌, any, if◌then◌else◌}
use aitp_verifier_py.Prelude.Int.{ℤ, leb_ℤ}
use aitp_verifier_py.Text.{Text, txt}
use aitp_verifier_py.Json.{Value, list, obj, Members, get_or_null, at, is_text, str_type}
use aitp_verifier_py.Json.Access.{text_at, int_at}
use aitp_verifier_py.Outcome.{
  Code, Result, Check, ok, err, raised, value_error, type_error, raise_if, ◌>>=◌, ◌>>◌,
  unknown_field, session_bundle_invalid, bundle_participant_tct_invalid,
  bundle_coordinator_issuer_mismatch, bundle_audience_mismatch,
}
use aitp_verifier_py.Platform.{Platform}
use aitp_verifier_py.Fields.{Types, require_members, check_types, reject_unknown_members}
use aitp_verifier_py.Jws.{Codes, parse_compact, verify_jws, as_object}
use aitp_verifier_py.Tct.{check_tct_claims_shape, outlives_manifest}
use aitp_verifier_py.Envelope.Contains.{equal}

abbrev pub participant_fields : List Text
participant_fields = txt "aid" ∷ txt "tct" ∷ []

abbrev pub participant_types : Types
participant_types = (txt "aid", str_type ∷ []) ∷ (txt "tct", str_type ∷ []) ∷ []

unfoldable pub shape_entry : Value → Result Members
shape_entry entry = do
  p ← as_object session_bundle_invalid entry
  require_members p participant_fields session_bundle_invalid
  check_types p participant_types session_bundle_invalid
  reject_unknown_members p participant_fields
  ok p

-- The first loop over `participants`.
unfoldable pub shape_entries : List Value → Result (List Members)
shape_entries [] = ok []
shape_entries (entry ∷ entries) = do p ← shape_entry entry; ps ← shape_entries entries; ok (p ∷ ps)

abbrev pub is_unknown_field : Code → Bool
is_unknown_field unknown_field = true
is_unknown_field _ = false

-- `except AitpError`: an unknown claim of a token is reported as the bundle's own code.
unfoldable pub remap {ℓ} : {A : Type ℓ} → Result A → Result A
remap (ok a) = ok a
remap (err c) = if is_unknown_field c then err bundle_participant_tct_invalid else err c
remap (raised x) = raised x

-- `min(tct_exps)`
unfoldable pub least_of : ℤ → List ℤ → ℤ
least_of m [] = m
least_of m (n ∷ ns) = least_of (if leb_ℤ m n then m else n) ns

unfoldable pub least : List ℤ → Result ℤ
least [] = raised value_error
least (n ∷ ns) = ok (least_of n ns)

-- `self_aid in {p["aid"] for p in participants}`
unfoldable pub is_member : Value → List Members → Result Bool
is_member (list l) participants = raised type_error
is_member (obj m) participants = raised type_error
is_member self_aid participants =
    ok (any (λ p. equal self_aid (get_or_null (txt "aid") p)) participants)

module _ ⦃π : Platform⦄ where
  -- The `exp` of one token, whose signature is not checked yet.
  unfoldable pub token_exp : Members → Result ℤ
  token_exp p = do
    tct ← at (txt "tct") p
    parsed ← parse_compact tct bundle_participant_tct_invalid
    remap (check_tct_claims_shape parsed.claims bundle_participant_tct_invalid)
    int_at (txt "exp") parsed.claims

  unfoldable pub token_exps : List Members → Result (List ℤ)
  token_exps [] = ok []
  token_exps (p ∷ ps) = do exp ← token_exp p; exps ← token_exps ps; ok (exp ∷ exps)

  unfoldable pub participant_codes : Codes
  participant_codes = record {
    typ_err = bundle_participant_tct_invalid;
    alg_err = bundle_participant_tct_invalid;
    sig_err = bundle_participant_tct_invalid;
  }

  -- A participant's token: signed, within the coordinator Manifest's life, issued by the coordinator
  -- and for this participant.
  unfoldable pub verify_participant : Text → Members → Members → Check
  verify_participant coordinator manifest p = do
    tct ← at (txt "tct") p
    parsed ← parse_compact tct bundle_participant_tct_invalid
    claims ← remap (
        verify_jws tct (get_or_null (txt "iss") parsed.claims) (txt "aitp-tct+jwt")
          participant_codes (λ c. check_tct_claims_shape c bundle_participant_tct_invalid))
    outlives ← outlives_manifest claims (obj manifest)
    raise_if outlives bundle_participant_tct_invalid
    raise_if (not (is_text coordinator (get_or_null (txt "iss") claims)))
        bundle_coordinator_issuer_mismatch
    aid ← text_at (txt "aid") p
    raise_if (not (is_text aid (get_or_null (txt "aud") claims))) bundle_audience_mismatch

  unfoldable pub verify_participants : Text → Members → List Members → Check
  verify_participants coordinator manifest [] = ok tt
  verify_participants coordinator manifest (p ∷ ps) =
      verify_participant coordinator manifest p >> verify_participants coordinator manifest ps
