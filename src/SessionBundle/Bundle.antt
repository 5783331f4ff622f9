-- ===== src/SessionBundle/Bundle.antt =====
-- What a Session Trust Bundle that `verify_session_bundle` of aitp_verifier/sessionbundle.py accepts is.
use aitp_verifier_py.Prelude.{◌≡◌, true, false, Option, some, List, [], ◌∷◌, All, any}
use aitp_verifier_py.Prelude.Int.{ℤ, leb_ℤ, eqb_ℤ, ◌≤ℤ◌}
use aitp_verifier_py.Text.{Text, Bytes, txt}
use aitp_verifier_py.Json.{Value, obj, Members, get, get_or_null, has, without, is_text}
use aitp_verifier_py.Json.Access.{list_at, text_at, int_at}
use aitp_verifier_py.Outcome.{ok, bundle_invalid_signature}
use aitp_verifier_py.Platform.{Platform}
use aitp_verifier_py.Fields.{has_extra, member_has_type}
use aitp_verifier_py.Jcs.{canonicalize}
use aitp_verifier_py.Crypto.{verify_digest}
use aitp_verifier_py.Aid.{Aid}
use aitp_verifier_py.Sigfield.{decode_tagged_signature}
use aitp_verifier_py.Revocation.{protocol_version, clock}
use aitp_verifier_py.Manifest.{resolve_manifest}
use aitp_verifier_py.SessionBundle.{bundle_fields, required_bundle_fields, bundle_types}
use aitp_verifier_py.SessionBundle.Participants.{is_member, token_exps, shape_entries}
use aitp_verifier_py.SessionBundle.Sound.{IsParticipant}

-- The wrapper has the body and nothing else, and the body is the schema's.
pub record IsWrapped (wrapper : Value) (body : Members) : Type 0 where
  pub outer : Members
  pub is_object : wrapper ≡ obj outer
  pub nothing_else : has_extra outer (txt "session_bundle" ∷ []) ≡ false
  pub has_body : get (txt "session_bundle") outer ≡ some (obj body)
  pub present : All (λ k. has k body ≡ true) required_bundle_fields
  pub typed : All (λ t. member_has_type body t ≡ true) bundle_types
  pub only_fields : has_extra body bundle_fields ≡ false

module _ ⦃π : Platform⦄ where
  -- The bundle's expiry is the least expiry of its participants' tokens, and not past.
  pub record IsInWindow (body : Members) (participants : List Members) (now : ℤ) : Type 0 where
    pub version : is_text protocol_version (get_or_null (txt "version") body) ≡ true
    pub expires : ℤ
    pub has_expires : int_at (txt "expires_at") body ≡ ok expires
    pub unexpired : leb_ℤ expires now ≡ false
    pub exps : List ℤ
    pub token_expiries : token_exps participants ≡ ok exps
    pub earliest : All (λ n. expires ≤ℤ n) exps
    pub attained : any (λ n. eqb_ℤ expires n) exps ≡ true

  -- The coordinator's key, as its verified Manifest designates it, signed the body.
  pub record IsCoordinated (body : Members) (coord : Aid) : Type 0 where
    pub signature : Value
    pub has_signature : get (txt "signature") body ≡ some signature
    pub raw : Bytes
    pub decodes : decode_tagged_signature signature coord.alg bundle_invalid_signature ≡ ok raw
    pub canonical : Bytes
    pub canonical_form : canonicalize (obj (without (txt "signature") body)) ≡ ok canonical
    pub signed : verify_digest coord.public_key (π.sha256 canonical) raw ≡ true

  -- An accepted bundle.
  pub record IsBundle (inp : Members) (given : Option ℤ) : Type 0 where
    pub now : ℤ
    pub has_now : clock inp given ≡ ok now
    pub self_aid : Value
    pub has_self_aid : get (txt "self_aid") inp ≡ some self_aid
    pub wrapper : Value
    pub has_wrapper : get (txt "session_bundle") inp ≡ some wrapper
    pub body : Members
    pub wrapped : IsWrapped wrapper body
    pub entries : List Value
    pub has_entries : list_at (txt "participants") body ≡ ok entries
    pub participants : List Members
    pub entries_shaped : shape_entries entries ≡ ok participants
    pub in_window : IsInWindow body participants now
    pub coordinator : Text
    pub has_coordinator : text_at (txt "coordinator") body ≡ ok coordinator
    pub coord : Aid
    pub manifest : Members
    pub designated :
        resolve_manifest coordinator (get_or_null (txt "coordinator_manifest") inp) now
        ≡ ok (coord, manifest)
    pub coordinated : IsCoordinated body coord
    pub participants_verify : All (IsParticipant coordinator manifest) participants
    pub belongs : is_member self_aid participants ≡ ok true
