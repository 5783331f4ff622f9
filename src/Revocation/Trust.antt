-- ===== src/Revocation/Trust.antt =====
-- What a trusted snapshot is: everything that `verify_snapshot_trust` establishes before any policy.
use aitp_verifier_py.Prelude.{
  ◌≡◌, refl, sym, ap, ◌∙◌, true, false, not, some, List, [], ◌∷◌, arith, All, subst, not-false,
}
use aitp_verifier_py.Text.{Text, Bytes, txt}
use aitp_verifier_py.Json.{Value, obj, Members, get, get_or_null, at, is_text, has}
use aitp_verifier_py.Json.Access.{list_at, text_at}
use aitp_verifier_py.Json.Access.Laws.{at-eq-ok}
use aitp_verifier_py.Outcome.{
  Code, Result, ok, err, raised, on_value_error, >>=-eq-ok, >>-eq-ok, raise_if-eq-ok,
  on_value_error-eq-ok, ok-injective, raise_if_passed, revocation_snapshot_invalid,
  revocation_snapshot_signature_invalid,
}
use aitp_verifier_py.Platform.{Platform}
use aitp_verifier_py.Fields.{
  has_extra, require_members, check_types, member_has_type, reject_unknown_members,
  reject_unknown_fields, canonical_bytes_of,
}
use aitp_verifier_py.Fields.Laws.{require_members-ok, check_types-ok, reject_unknown_members-ok}
use aitp_verifier_py.Jcs.{canonicalize}
use aitp_verifier_py.Crypto.{verify_digest}
use aitp_verifier_py.Aid.{Aid, parse_aid}
use aitp_verifier_py.Sigfield.{decode_tagged_signature}
use aitp_verifier_py.Revocation.{
  protocol_version, snapshot_fields, body_fields, body_types, entry_types, required_body_fields,
  required_entry_fields, check_entry, check_entries, validate_body, is_str, validate_shape,
  entry_fields, check_entry_fields, check_fields, check_signature, verify_snapshot_trust,
}

-- An entry is an object with the required members, `jti` and `revoked_at`, and of the schema's types.
pub record IsEntry (e : Value) : Type 0 where
  pub members : Members
  pub is_obj : e ≡ obj members
  pub required : All (λ k. has k members ≡ true) required_entry_fields
  pub typed : All (λ t. member_has_type members t ≡ true) entry_types

-- An entry has no member outside the schema.
pub IsClosed : Value → Type 0
IsClosed e = (members : Members) × (e ≡ obj members) × (has_extra members entry_fields ≡ false)

check_entry_fields-All : (es : List Value) → check_entry_fields es ≡ ok tt → All IsClosed es
unfolding check_entry_fields reject_unknown_fields IsClosed
check_entry_fields-All [] h = tt
check_entry_fields-All (obj m ∷ es) h =
    let (p, q) = >>-eq-ok (reject_unknown_members m entry_fields) _ h in
    ((m, refl, reject_unknown_members-ok m entry_fields p), check_entry_fields-All es q)
check_entry_fields-All (e ∷ es) h = cc

check_entry-IsEntry : (e : Value) → check_entry e ≡ ok tt → IsEntry e
unfolding check_entry
check_entry-IsEntry (obj m) h =
    let (p, q) =
      >>-eq-ok (require_members m required_entry_fields revocation_snapshot_invalid) _ h in
    record {
      members = m;
      is_obj = refl;
      required = require_members-ok m revocation_snapshot_invalid required_entry_fields p;
      typed = check_types-ok m revocation_snapshot_invalid entry_types q;
    }
check_entry-IsEntry e h = cc

check_entries-All : (es : List Value) → check_entries es ≡ ok tt → All IsEntry es
unfolding check_entries
check_entries-All [] h = tt
check_entries-All (e ∷ es) h =
    let (p, q) = >>-eq-ok (check_entry e) _ h in (check_entry-IsEntry e p, check_entries-All es q)

-- The schema facts of a body.
pub record IsBody (body : Members) : Type 0 where
  pub required : All (λ k. has k body ≡ true) required_body_fields
  pub typed : All (λ t. member_has_type body t ≡ true) body_types
  pub version : is_text protocol_version (get_or_null (txt "version") body) ≡ true
  pub entries : List Value
  pub has_entries : list_at (txt "entries") body ≡ ok entries
  pub all_entries : All IsEntry entries

validate_body-IsBody :
    (v : Value) (body : Members) → validate_body v ≡ ok body → (v ≡ obj body) × IsBody body
unfolding validate_body
validate_body-IsBody (obj m) body h =
    let (p, h1) =
      >>-eq-ok (require_members m required_body_fields revocation_snapshot_invalid) _ h in
    let (q, h2) = >>-eq-ok (check_types m body_types revocation_snapshot_invalid) _ h1 in
    let (r, h3) =
      raise_if-eq-ok (not (is_text protocol_version (get_or_null (txt "version") m)))
        revocation_snapshot_invalid _ h2 in
    let (es, s, h4) = >>=-eq-ok (list_at (txt "entries") m) _ h3 in
    let (t, h5) = >>-eq-ok (check_entries es) _ h4 in
    let e : m ≡ body = ok-injective h5 in
    (
      ap obj e,
      subst IsBody e (record {
        required = require_members-ok m revocation_snapshot_invalid required_body_fields p;
        typed = check_types-ok m revocation_snapshot_invalid body_types q;
        version = not-false _ r;
        entries = es;
        has_entries = s;
        all_entries = check_entries-All es t;
      }),
    )
validate_body-IsBody v body h = cc

pub validate_shape-IsBody :
    (v : Value) (body : Members)
    → validate_shape v ≡ ok body
    → (w : Members) × (v ≡ obj w) × (get (txt "revocation_list") w ≡ some (obj body)) × IsBody body
unfolding validate_shape
validate_shape-IsBody (obj w) body h =
    let (p, h1) = >>-eq-ok (require_members w snapshot_fields revocation_snapshot_invalid) _ h in
    let (s, q, h2) = >>=-eq-ok (at (txt "signature") w) _ h1 in
    let (r, h3) = raise_if-eq-ok (not (is_str s)) revocation_snapshot_invalid _ h2 in
    let (b, t, h4) = >>=-eq-ok (at (txt "revocation_list") w) _ h3 in
    let (e, f) = validate_body-IsBody b body h4 in
    (w, refl, at-eq-ok (txt "revocation_list") w b t ∙ ap some e, f)
validate_shape-IsBody v body h = cc

module _ ⦃π : Platform⦄ where
  -- The wrapper, the body and its entries have no member outside the schema, the body is a well-formed list of
  -- this protocol version, and the signature beside it holds over the digest of its canonical form
  -- under the key of the very issuer that the body names.
  pub record IsTrusted (snapshot : Value) (body : Members) : Type 0 where
    pub wrapper : Members
    pub is_obj : snapshot ≡ obj wrapper
    pub has_body : get (txt "revocation_list") wrapper ≡ some (obj body)
    pub well_formed : IsBody body
    pub wrapper_fields : has_extra wrapper snapshot_fields ≡ false
    pub fields : has_extra body body_fields ≡ false
    pub entry_members : All IsClosed well_formed.entries
    pub issuer_text : Text
    pub has_issuer : text_at (txt "issuer") body ≡ ok issuer_text
    pub issuer : Aid
    pub issuer_parses : parse_aid issuer_text ≡ ok issuer
    pub raw : Bytes
    pub raw_decodes :
        decode_tagged_signature
          (get_or_null (txt "signature") wrapper)
          issuer.alg
          revocation_snapshot_signature_invalid
        ≡ ok raw
    pub bytes : Bytes
    pub canonical : canonicalize (obj body) ≡ ok bytes
    pub signed : verify_digest issuer.public_key (π.sha256 bytes) raw ≡ true

  pub canonical_bytes_of-eq-ok :
      (r : Result Bytes) (c : Code) (b : Bytes) → canonical_bytes_of r c ≡ ok b → r ≡ ok b
  unfolding canonical_bytes_of
  canonical_bytes_of-eq-ok (ok a) c b h = h
  canonical_bytes_of-eq-ok (err d) c b h = cc
  canonical_bytes_of-eq-ok (raised x) c b h = ground arith

  -- A snapshot that `verify_snapshot_trust` returns is trusted: the schema's members and types, in its
  -- wrapper, body and entries no member besides, and a signature over its canonical body under the key
  -- of the issuer that the body names.
  pub verify_snapshot_trust-IsTrusted :
      (snapshot : Value) (body : Members)
      → verify_snapshot_trust snapshot ≡ ok body
      → IsTrusted snapshot body
  unfolding verify_snapshot_trust check_fields check_signature reject_unknown_fields
  verify_snapshot_trust-IsTrusted snapshot body h =
      let (m, p, h1) = >>=-eq-ok (validate_shape snapshot) _ h in
      let (q, h2) = >>-eq-ok (check_fields snapshot m) _ h1 in
      let (r, h3) = >>-eq-ok (check_signature snapshot m) _ h2 in
      let e : m ≡ body = ok-injective h3 in
      let (w, is_obj, has_body, shape) = validate_shape-IsBody snapshot m p in
      let (q1, h4) =
        >>-eq-ok (reject_unknown_members w snapshot_fields) _
          (subst (λ v. check_fields v m ≡ ok tt) is_obj q) in
      let (q2, h5) = >>-eq-ok (reject_unknown_members m body_fields) _ h4 in
      let (es, q3, q4) = >>=-eq-ok (list_at (txt "entries") m) _ h5 in
      let same : es ≡ shape.entries = ok-injective (sym q3 ∙ shape.has_entries) in
      let (t, r1, h6) =
        >>=-eq-ok (text_at (txt "issuer") m) _
          (subst (λ v. check_signature v m ≡ ok tt) is_obj r) in
      let (a, r2, h7) = >>=-eq-ok (on_value_error revocation_snapshot_invalid (parse_aid t)) _ h6 in
      let (raw, r3, h8) =
        >>=-eq-ok
          (decode_tagged_signature (get_or_null (txt "signature") w) a.alg
            revocation_snapshot_signature_invalid)
          _ h7 in
      let (bytes, r4, h9) =
        >>=-eq-ok (canonical_bytes_of (canonicalize (obj m)) revocation_snapshot_invalid) _ h8 in
      subst (IsTrusted snapshot) e (record {
        wrapper = w;
        is_obj = is_obj;
        has_body = has_body;
        well_formed = shape;
        wrapper_fields = reject_unknown_members-ok w snapshot_fields q1;
        fields = reject_unknown_members-ok m body_fields q2;
        entry_members = subst (All IsClosed) same (check_entry_fields-All es q4);
        issuer_text = t;
        has_issuer = r1;
        issuer = a;
        issuer_parses = on_value_error-eq-ok revocation_snapshot_invalid (parse_aid t) r2;
        raw = raw;
        raw_decodes = r3;
        bytes = bytes;
        canonical = canonical_bytes_of-eq-ok _ revocation_snapshot_invalid bytes r4;
        signed = raise_if_passed _ revocation_snapshot_signature_invalid h9;
      })
