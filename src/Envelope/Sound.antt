-- ===== src/Envelope/Sound.antt =====
-- What `verify_envelope` of aitp_verifier/envelope.py establishes of the envelope it accepts.
use aitp_verifier_py.Prelude.{
  ◌≡◌, ap, ◌∙◌, sym, Bool, true, false, not, ◌||◌, ◌&&◌, ◌++◌, some, All, not-false, if◌then◌else◌,
}
use aitp_verifier_py.Prelude.Int.{ℤ}
use aitp_verifier_py.Text.{Text, Bytes, txt}
use aitp_verifier_py.Json.{Value, obj, Members, get, get_or_null, at, has, is_text, without}
use aitp_verifier_py.Json.Access.{text_at, members_at}
use aitp_verifier_py.Json.Access.Laws.{at-eq-ok}
use aitp_verifier_py.Outcome.{
  Check, ok, err, on_value_error, >>=-eq-ok, >>-eq-ok, raise_if-eq-ok, on_value_error-eq-ok,
  ok-injective, raise_if_passed, unknown_version, invalid_envelope, invalid_signature,
  timestamp_expired, key_resolution_failed,
}
use aitp_verifier_py.Platform.{Platform}
use aitp_verifier_py.Fields.{
  has_extra, require_members, check_types, member_has_type, reject_unknown_members,
  canonical_bytes_of,
}
use aitp_verifier_py.Fields.Laws.{require_members-ok, check_types-ok, reject_unknown_members-ok}
use aitp_verifier_py.Jcs.{canonicalize}
use aitp_verifier_py.Crypto.{verify_digest}
use aitp_verifier_py.Aid.{Aid, parse_aid}
use aitp_verifier_py.Sigfield.{decode_tagged_signature}
use aitp_verifier_py.Revocation.{protocol_version}
use aitp_verifier_py.Revocation.Trust.{canonical_bytes_of-eq-ok}
use aitp_verifier_py.Envelope.{
  envelope_fields, required_envelope_fields, envelope_types, sender_fields, sender_types,
  envelope_domain_tag, signature_pattern, is_negative, validate_members, validate_envelope_shape,
  timestamp_of, outside_window, envelope_signing_input, to_tolerance, check_sender_signature,
  check_signed, verify_envelope,
}

-- The schema's envelope, in the order of its checks.
pub record IsEnvelope (env : Members) : Type 0 where
  pub version : is_text protocol_version (get_or_null (txt "version") env) ≡ true
  pub required : All (λ k. has k env ≡ true) required_envelope_fields
  pub typed : All (λ t. member_has_type env t ≡ true) envelope_types
  pub fields : has_extra env envelope_fields ≡ false
  pub timestamp : Value
  pub has_timestamp : get (txt "timestamp") env ≡ some timestamp
  pub not_negative : is_negative timestamp ≡ false
  pub signature : Text
  pub has_signature : text_at (txt "signature") env ≡ ok signature
  pub pattern : signature_pattern signature ≡ true
  pub sender : Members
  pub has_sender : members_at (txt "sender") env ≡ ok sender
  pub only_agent : has_extra sender sender_fields ≡ false

pub validate_members-IsEnvelope : (env : Members) → validate_members env ≡ ok tt → IsEnvelope env
unfolding validate_members
validate_members-IsEnvelope env h =
    let (a, h1) =
      raise_if-eq-ok (not (is_text protocol_version (get_or_null (txt "version") env)))
        unknown_version _ h in
    let (b, h2) = >>-eq-ok (require_members env required_envelope_fields invalid_envelope) _ h1 in
    let (c, h3) = >>-eq-ok (check_types env envelope_types invalid_envelope) _ h2 in
    let (d, h4) = >>-eq-ok (reject_unknown_members env envelope_fields) _ h3 in
    let (ts, e, h5) = >>=-eq-ok (at (txt "timestamp") env) _ h4 in
    let (f, h6) = raise_if-eq-ok (is_negative ts) invalid_envelope _ h5 in
    let (sig, g, h7) = >>=-eq-ok (text_at (txt "signature") env) _ h6 in
    let (i, h8) = raise_if-eq-ok (not (signature_pattern sig)) invalid_envelope _ h7 in
    let (sender, j, h9) = >>=-eq-ok (members_at (txt "sender") env) _ h8 in
    let (k, h10) = >>-eq-ok (require_members sender sender_fields invalid_envelope) _ h9 in
    let (l, h11) = >>-eq-ok (check_types sender sender_types invalid_envelope) _ h10 in
    record {
      version = not-false _ a;
      required = require_members-ok env invalid_envelope required_envelope_fields b;
      typed = check_types-ok env invalid_envelope envelope_types c;
      fields = reject_unknown_members-ok env envelope_fields d;
      timestamp = ts;
      has_timestamp = at-eq-ok (txt "timestamp") env ts e;
      not_negative = f;
      signature = sig;
      has_signature = g;
      pattern = not-false _ i;
      sender = sender;
      has_sender = j;
      only_agent = reject_unknown_members-ok sender sender_fields h11;
    }

validate_envelope_shape-eq-ok :
    (v : Value) (env : Members)
    → validate_envelope_shape v ≡ ok env
    → (v ≡ obj env) × (validate_members env ≡ ok tt)
unfolding validate_envelope_shape
validate_envelope_shape-eq-ok (obj m) env h =
    let (a, h1) = >>-eq-ok (validate_members m) _ h in
    let e : m ≡ env = ok-injective h1 in (ap obj e, ap validate_members (sym e) ∙ a)
validate_envelope_shape-eq-ok v env h = cc

module _ ⦃π : Platform⦄ where
  -- An authentic envelope: the sender's key signed the domain tag and the canonical form of every
  -- received member but the signature.
  pub record IsAuthentic (env : Members) : Type 0 where
    pub shaped : IsEnvelope env
    pub agent_id : Text
    pub has_agent_id : text_at (txt "agent_id") shaped.sender ≡ ok agent_id
    pub aid : Aid
    pub aid_parses : parse_aid agent_id ≡ ok aid
    pub raw : Bytes
    pub raw_decodes :
        decode_tagged_signature (get_or_null (txt "signature") env) aid.alg invalid_signature
        ≡ ok raw
    pub canonical : Bytes
    pub canonicalizes : canonicalize (obj (without (txt "signature") env)) ≡ ok canonical
    pub signed :
        verify_digest aid.public_key (π.sha256 (envelope_domain_tag ++ canonical)) raw ≡ true

  signing_input-eq-ok :
      (env : Members) (b : Bytes)
      → envelope_signing_input env ≡ ok b
      → (c : Bytes) × (canonicalize (obj (without (txt "signature") env)) ≡ ok c)
        × (envelope_domain_tag ++ c ≡ b)
  unfolding envelope_signing_input
  signing_input-eq-ok env b h =
      let (c, p, q) =
        >>=-eq-ok
          (canonical_bytes_of (canonicalize (obj (without (txt "signature") env))) invalid_envelope)
          _ h in
      (c, canonical_bytes_of-eq-ok _ invalid_envelope c p, ok-injective q)

  check_sender_signature-IsAuthentic :
      (env : Members) → IsEnvelope env → check_sender_signature env ≡ ok tt → IsAuthentic env
  unfolding check_sender_signature
  check_sender_signature-IsAuthentic env s h =
      let (sender, a, h1) = >>=-eq-ok (members_at (txt "sender") env) _ h in
      let same : sender ≡ s.sender = ok-injective (sym a ∙ s.has_sender) in
      let (agent_id, b, h2) = >>=-eq-ok (text_at (txt "agent_id") sender) _ h1 in
      let (aid, c, h3) = >>=-eq-ok (on_value_error invalid_envelope (parse_aid agent_id)) _ h2 in
      let (raw, d, h4) =
        >>=-eq-ok
          (decode_tagged_signature (get_or_null (txt "signature") env) aid.alg invalid_signature) _
          h3 in
      let (input, e, h5) = >>=-eq-ok (envelope_signing_input env) _ h4 in
      let (canonical, f, g) = signing_input-eq-ok env input e in
      record {
        shaped = s;
        agent_id = agent_id;
        has_agent_id = ap (text_at (txt "agent_id")) (sym same) ∙ b;
        aid = aid;
        aid_parses = on_value_error-eq-ok invalid_envelope _ c;
        raw = raw;
        raw_decodes = d;
        canonical = canonical;
        canonicalizes = f;
        signed =
            ap (λ i. verify_digest aid.public_key (π.sha256 i) raw) g
            ∙ raise_if_passed _ invalid_signature h5;
      }

  -- Where no simulated scenario applies, an accepted input carries an authentic envelope, and a
  -- timestamp that is a Python `int` lies inside the replay window.
  check_signed-IsAuthentic :
      (inp : Members) (now : ℤ)
      → check_signed inp now ≡ ok tt
      → (env : Members) × (get (txt "envelope") inp ≡ some (obj env))
        × IsAuthentic env
        × (tolerance : ℤ) × (to_tolerance (get (txt "tolerance_seconds") inp) ≡ ok tolerance)
        × (outside_window (get_or_null (txt "timestamp") env) now tolerance ≡ false)
  unfolding check_signed timestamp_of
  check_signed-IsAuthentic inp now h =
      let (raw, a, h1) = >>=-eq-ok (at (txt "envelope") inp) _ h in
      let (tolerance, b, h2) = >>=-eq-ok (to_tolerance (get (txt "tolerance_seconds") inp)) _ h1 in
      let (c, h3) =
        raise_if-eq-ok (outside_window (timestamp_of raw) now tolerance) timestamp_expired _ h2 in
      let (env, d, h4) = >>=-eq-ok (validate_envelope_shape raw) _ h3 in
      let (e, f) = validate_envelope_shape-eq-ok raw env d in
      (
        env,
        at-eq-ok (txt "envelope") inp raw a ∙ ap some e,
        check_sender_signature-IsAuthentic env (validate_members-IsEnvelope env f) h4,
        tolerance,
        b,
        ap (λ v. outside_window (timestamp_of v) now tolerance) (sym e) ∙ c,
      )

  signed_path :
      (a b : Bool) (x z : Check)
      → b ≡ false
      → (if a then err key_resolution_failed else if b then x else z) ≡ ok tt
      → z ≡ ok tt
  signed_path true b x z e h = cc
  signed_path false true x z e h = cc
  signed_path false false x z e h = h

  -- An input of no simulated scenario that `verify_envelope` accepts carries an authentic envelope,
  -- whose timestamp, where it is a Python `int`, lies inside the replay window.
  pub verify_envelope-IsAuthentic :
      (inp : Members) (now : ℤ)
      → (has (txt "active_tct") inp && has (txt "requested_capability") inp) ≡ false
      → verify_envelope inp now ≡ ok tt
      → (env : Members) × (get (txt "envelope") inp ≡ some (obj env))
        × IsAuthentic env
        × (tolerance : ℤ) × (to_tolerance (get (txt "tolerance_seconds") inp) ≡ ok tolerance)
        × (outside_window (get_or_null (txt "timestamp") env) now tolerance ≡ false)
  unfolding verify_envelope
  verify_envelope-IsAuthentic inp now plain h =
      check_signed-IsAuthentic inp now (
        signed_path (has (txt "manifest_fetch") inp || has (txt "needed_key_for") inp) _ _ _ plain
          h)
