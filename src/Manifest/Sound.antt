-- ===== src/Manifest/Sound.antt =====
-- What `verify_manifest` of aitp_verifier/manifest.py establishes before it returns an AID.
use aitp_verifier_py.Prelude.{
  ◌≡◌, ap, ◌∙◌, subst, Bool, true, false, not, ◌&&◌, some, List, All, all, all-All, not-false,
}
use aitp_verifier_py.Prelude.Int.{ℤ, leb_ℤ}
use aitp_verifier_py.Text.{Text, Bytes, txt, mem_text}
use aitp_verifier_py.Json.{Value, obj, Members, get, get_or_null, at, has, without}
use aitp_verifier_py.Json.Access.{text_at, int_at}
use aitp_verifier_py.Json.Access.Laws.{at-eq-ok}
use aitp_verifier_py.Outcome.{
  ok, >>=-eq-ok, >>-eq-ok, raise_if-eq-ok, on_value_error-eq-ok, raise_if_passed, ok-injective,
  manifest_invalid, manifest_expired, manifest_pop_failed, manifest_signature_invalid,
  on_value_error,
}
use aitp_verifier_py.Platform.{Platform}
use aitp_verifier_py.Fields.{
  Types, has_extra, require_members, check_types, member_has_type, reject_unknown_members,
  canonical_bytes_of,
}
use aitp_verifier_py.Fields.Laws.{require_members-ok, check_types-ok, reject_unknown_members-ok}
use aitp_verifier_py.B64.{b64url_decode}
use aitp_verifier_py.Jcs.{canonicalize}
use aitp_verifier_py.Crypto.{verify_digest}
use aitp_verifier_py.Aid.{Aid, parse_aid}
use aitp_verifier_py.Sigfield.{decode_tagged_signature}
use aitp_verifier_py.Revocation.Trust.{canonical_bytes_of-eq-ok}
use aitp_verifier_py.Envelope.{is_negative}
use aitp_verifier_py.Regex.{matches}
use aitp_verifier_py.Manifest.Uri.{is_uri, capability_pattern, aid_pattern}
use aitp_verifier_py.Manifest.{
  manifest_fields, pop_fields, manifest_types, pop_types, identity_hint_types,
  required_manifest_fields, identity_hint_fields, required_identity_hint_fields,
  identity_hint_type_values, signature_algorithms, shape, item_passes, no_repeats, texts_in,
  items_of, check_array, below_one, challenge_pattern, long_name, starts_with, check_bounds,
  validate_grammar, validate_identity_hint, manifest_clock, check_version, check_possession,
  check_manifest_signature, check_manifest, verify_manifest,
}

-- An object with every required member, whose members have the declared types.
pub record IsObject (v : Value) (required : List Text) (types : Types) (m : Members) : Type 0 where
  pub is_object : v ≡ obj m
  pub present : All (λ k. has k m ≡ true) required
  pub typed : All (λ t. member_has_type m t ≡ true) types

pub shape-IsObject :
    (v : Value) (required : List Text) (types : Types) (m : Members)
    → shape v required types ≡ ok m
    → IsObject v required types m
unfolding shape
shape-IsObject (obj d) required types m h =
    let (p, h1) = >>-eq-ok (require_members d required manifest_invalid) _ h in
    let (q, h2) = >>-eq-ok (check_types d types manifest_invalid) _ h1 in
    let same : d ≡ m = ok-injective h2 in
    record {
      is_object = ap obj same;
      present = rw same at (require_members-ok d manifest_invalid required p);
      typed = rw same at (check_types-ok d manifest_invalid types q);
    }
shape-IsObject v required types m h = cc

-- An array of the Manifest, absent or with distinct items that its rule takes.
pub record IsArray (man : Members) (name : Text) (rule : Text → Bool) : Type 0 where
  pub values : List Value
  pub has_values : items_of man name ≡ ok values
  pub pass : All (λ v. item_passes rule v ≡ true) values
  pub distinct : no_repeats (texts_in values) ≡ true

check_array-IsArray :
    (man : Members) (name : Text) (rule : Text → Bool)
    → check_array man name rule ≡ ok tt
    → IsArray man name rule
unfolding check_array
check_array-IsArray man name rule h =
    let (values, p, h1) = >>=-eq-ok (items_of man name) _ h in
    let (q, h2) = raise_if-eq-ok (not (all (item_passes rule) values)) manifest_invalid _ h1 in
    record {
      values = values;
      has_values = p;
      pass = all-All (item_passes rule) values (not-false _ q);
      distinct = raise_if_passed _ manifest_invalid h2;
    }

module _ ⦃π : Platform⦄ where
  -- The grammar: the body's AID, endpoint, arrays and publication time, and the challenge.
  pub record IsGrammatical (man pop : Members) : Type 0 where
    pub aid : Text
    pub has_aid : text_at (txt "aid") man ≡ ok aid
    pub aid_form : matches aid_pattern aid ≡ true
    pub short_name : long_name (get_or_null (txt "display_name") man) ≡ false
    pub endpoint : Text
    pub has_endpoint : text_at (txt "handshake_endpoint") man ≡ ok endpoint
    pub https_uri : starts_with (txt "https://") endpoint && is_uri endpoint ≡ true
    pub anchors : IsArray man (txt "accepted_trust_anchors") is_uri
    pub offered : IsArray man (txt "offered_capabilities") (matches capability_pattern)
    pub peer_needs : IsArray man (txt "required_peer_capabilities") (matches capability_pattern)
    pub identity_types :
        IsArray man (txt "accepted_identity_types") (λ s. mem_text s identity_hint_type_values)
    pub algorithms :
        IsArray man (txt "accepted_signature_algorithms") (λ s. mem_text s signature_algorithms)
    pub published : Value
    pub has_published : get (txt "published_at") man ≡ some published
    pub not_negative : is_negative published ≡ false
    pub challenge : Text
    pub has_challenge : text_at (txt "challenge") pop ≡ ok challenge
    pub challenge_form : challenge_pattern challenge ≡ true

  pub validate_grammar-IsGrammatical :
      (man pop : Members) → validate_grammar man pop ≡ ok tt → IsGrammatical man pop
  unfolding validate_grammar check_bounds
  validate_grammar-IsGrammatical man pop h =
      let (aid, p, h1) = >>=-eq-ok (text_at (txt "aid") man) _ h in
      let (q, h2) = raise_if-eq-ok (not (matches aid_pattern aid)) manifest_invalid _ h1 in
      let (r, h3) =
        raise_if-eq-ok (long_name (get_or_null (txt "display_name") man)) manifest_invalid _ h2 in
      let (e, s, h4) = >>=-eq-ok (text_at (txt "handshake_endpoint") man) _ h3 in
      let (t, h5) =
        raise_if-eq-ok (not (starts_with (txt "https://") e && is_uri e)) manifest_invalid _ h4 in
      let (a1, h6) = >>-eq-ok (check_array man (txt "accepted_trust_anchors") is_uri) _ h5 in
      let (a2, h7) =
        >>-eq-ok (check_array man (txt "offered_capabilities") (matches capability_pattern)) _ h6 in
      let (a3, h8) =
        >>-eq-ok (check_array man (txt "required_peer_capabilities") (matches capability_pattern)) _
          h7 in
      let (a4, h9) =
        >>-eq-ok
          (check_array man (txt "accepted_identity_types")
            (λ s. mem_text s identity_hint_type_values))
          _ h8 in
      let (a5, h10) =
        >>-eq-ok
          (check_array man (txt "accepted_signature_algorithms")
            (λ s. mem_text s signature_algorithms))
          _ h9 in
      let (v, u, h11) = >>=-eq-ok (at (txt "published_at") man) _ h10 in
      let (w, h12) = raise_if-eq-ok (is_negative v) manifest_invalid _ h11 in
      let (x, y, h13) = >>=-eq-ok (at (txt "expires_at") man) _ h12 in
      let (z, h14) = raise_if-eq-ok (below_one x) manifest_invalid _ h13 in
      let (c, d, h15) = >>=-eq-ok (text_at (txt "challenge") pop) _ h14 in
      let (f, h16) = raise_if-eq-ok (not (challenge_pattern c)) manifest_invalid _ h15 in
      record {
        aid = aid;
        has_aid = p;
        aid_form = not-false _ q;
        short_name = r;
        endpoint = e;
        has_endpoint = s;
        https_uri = not-false _ t;
        anchors = check_array-IsArray man _ _ a1;
        offered = check_array-IsArray man _ _ a2;
        peer_needs = check_array-IsArray man _ _ a3;
        identity_types = check_array-IsArray man _ _ a4;
        algorithms = check_array-IsArray man _ _ a5;
        published = v;
        has_published = at-eq-ok (txt "published_at") man v u;
        not_negative = w;
        challenge = c;
        has_challenge = d;
        challenge_form = not-false _ f;
      }

  -- The holder of the AID's key signed the challenge.
  pub record Possesses (pop : Members) (aid : Aid) : Type 0 where
    pub signature : Value
    pub has_signature : get (txt "signature") pop ≡ some signature
    pub raw : Bytes
    pub decodes : decode_tagged_signature signature aid.alg manifest_pop_failed ≡ ok raw
    pub challenge : Text
    pub has_challenge : text_at (txt "challenge") pop ≡ ok challenge
    pub bytes : Bytes
    pub challenge_bytes : b64url_decode challenge ≡ ok bytes
    pub signed : verify_digest aid.public_key (π.sha256 bytes) raw ≡ true

  check_possession-Possesses :
      (pop : Members) (aid : Aid) → check_possession pop aid ≡ ok tt → Possesses pop aid
  unfolding check_possession
  check_possession-Possesses pop aid h =
      let (s, p, h1) = >>=-eq-ok (at (txt "signature") pop) _ h in
      let (raw, q, h2) = >>=-eq-ok (decode_tagged_signature s aid.alg manifest_pop_failed) _ h1 in
      let (c, r, h3) = >>=-eq-ok (text_at (txt "challenge") pop) _ h2 in
      let (b, t, h4) = >>=-eq-ok (b64url_decode c) _ h3 in
      record {
        signature = s;
        has_signature = at-eq-ok (txt "signature") pop s p;
        raw = raw;
        decodes = q;
        challenge = c;
        has_challenge = r;
        bytes = b;
        challenge_bytes = t;
        signed = raise_if_passed _ manifest_pop_failed h4;
      }

  -- The AID's key signed the canonical form of all the other members.
  pub record IsSigned (man : Members) (aid : Aid) : Type 0 where
    pub signature : Value
    pub has_signature : get (txt "signature") man ≡ some signature
    pub raw : Bytes
    pub decodes : decode_tagged_signature signature aid.alg manifest_signature_invalid ≡ ok raw
    pub canonical : Bytes
    pub canonical_form : canonicalize (obj (without (txt "signature") man)) ≡ ok canonical
    pub signed : verify_digest aid.public_key (π.sha256 canonical) raw ≡ true

  check_manifest_signature-IsSigned :
      (man : Members) (aid : Aid) → check_manifest_signature man aid ≡ ok tt → IsSigned man aid
  unfolding check_manifest_signature
  check_manifest_signature-IsSigned man aid h =
      let (s, p, h1) = >>=-eq-ok (at (txt "signature") man) _ h in
      let (raw, q, h2) =
        >>=-eq-ok (decode_tagged_signature s aid.alg manifest_signature_invalid) _ h1 in
      let (c, r, h3) =
        >>=-eq-ok
          (canonical_bytes_of (canonicalize (obj (without (txt "signature") man))) manifest_invalid)
          _ h2 in
      record {
        signature = s;
        has_signature = at-eq-ok (txt "signature") man s p;
        raw = raw;
        decodes = q;
        canonical = c;
        canonical_form = canonical_bytes_of-eq-ok _ manifest_invalid c r;
        signed = raise_if_passed _ manifest_signature_invalid h3;
      }

  -- A verified Manifest at the time `now`: three objects of the schema's shape without a member that
  -- it does not name, a supported version, the grammar, not expired, and both signatures by the key
  -- of its own AID.
  pub record IsVerified (inp man : Members) (now : ℤ) (text : Text) : Type 0 where
    pub pop : Members
    pub hint : Members
    pub shaped :
        (v : Value) × (get (txt "manifest") inp ≡ some v)
        × IsObject v required_manifest_fields manifest_types man
    pub pop_shaped :
        (v : Value) × (get (txt "proof_of_possession") man ≡ some v)
        × IsObject v pop_fields pop_types pop
    pub hint_shaped :
        (v : Value) × (get (txt "identity_hint") man ≡ some v)
        × IsObject v required_identity_hint_fields identity_hint_types hint
    pub version : check_version inp man ≡ ok tt
    pub grammar : IsGrammatical man pop
    pub hint_grammar : validate_identity_hint hint ≡ ok tt
    pub only_fields : has_extra man manifest_fields ≡ false
    pub only_pop_fields : has_extra pop pop_fields ≡ false
    pub only_hint_fields : has_extra hint identity_hint_fields ≡ false
    pub time : ℤ
    pub has_time : manifest_clock (get (txt "now") inp) now ≡ ok time
    pub expires : ℤ
    pub has_expires : int_at (txt "expires_at") man ≡ ok expires
    pub unexpired : leb_ℤ expires time ≡ false
    pub has_aid : text_at (txt "aid") man ≡ ok text
    pub key : Aid
    pub aid_parses : parse_aid text ≡ ok key
    pub possesses : Possesses pop key
    pub signed : IsSigned man key

  -- `verify_manifest` returns an AID only of a Manifest that is shaped, of a supported version,
  -- grammatical, unexpired and twice signed under the key of that AID.
  pub verify_manifest-IsVerified :
      (inp : Members) (now : ℤ) (text : Text)
      → verify_manifest inp now ≡ ok text
      → (man : Members) × IsVerified inp man now text
  unfolding verify_manifest check_manifest
  verify_manifest-IsVerified inp now text h =
      let (v, p, h1) = >>=-eq-ok (at (txt "manifest") inp) _ h in
      let (man, q, h2) = >>=-eq-ok (shape v required_manifest_fields manifest_types) _ h1 in
      let (w, r, h3) = >>=-eq-ok (at (txt "proof_of_possession") man) _ h2 in
      let (pop, s, h4) = >>=-eq-ok (shape w pop_fields pop_types) _ h3 in
      let (x, t, h5) = >>=-eq-ok (at (txt "identity_hint") man) _ h4 in
      let (hint, u, h6) =
        >>=-eq-ok (shape x required_identity_hint_fields identity_hint_types) _ h5 in
      let (time, c, h7) = >>=-eq-ok (manifest_clock (get (txt "now") inp) now) _ h6 in
      let (c1, h8) = >>-eq-ok (check_version inp man) _ h7 in
      let (c2, h9) = >>-eq-ok (validate_grammar man pop) _ h8 in
      let (c3, h10) = >>-eq-ok (validate_identity_hint hint) _ h9 in
      let (c4, h11) = >>-eq-ok (reject_unknown_members man manifest_fields) _ h10 in
      let (c5, h12) = >>-eq-ok (reject_unknown_members pop pop_fields) _ h11 in
      let (c6, h13) = >>-eq-ok (reject_unknown_members hint identity_hint_fields) _ h12 in
      let (e, c7, h14) = >>=-eq-ok (int_at (txt "expires_at") man) _ h13 in
      let (c8, h15) = raise_if-eq-ok (leb_ℤ e time) manifest_expired _ h14 in
      let (a, c9, h16) = >>=-eq-ok (text_at (txt "aid") man) _ h15 in
      let (key, c10, h17) = >>=-eq-ok (on_value_error manifest_invalid (parse_aid a)) _ h16 in
      let (c11, h18) = >>-eq-ok (check_possession pop key) _ h17 in
      let (c12, h19) = >>-eq-ok (check_manifest_signature man key) _ h18 in
      let same : a ≡ text = ok-injective h19 in
      (
        man,
        record {
          pop = pop;
          hint = hint;
          shaped = (v, at-eq-ok (txt "manifest") inp v p, shape-IsObject v _ _ man q);
          pop_shaped =
              (w, at-eq-ok (txt "proof_of_possession") man w r, shape-IsObject w _ _ pop s);
          hint_shaped = (x, at-eq-ok (txt "identity_hint") man x t, shape-IsObject x _ _ hint u);
          version = c1;
          grammar = validate_grammar-IsGrammatical man pop c2;
          hint_grammar = c3;
          only_fields = reject_unknown_members-ok man manifest_fields c4;
          only_pop_fields = reject_unknown_members-ok pop pop_fields c5;
          only_hint_fields = reject_unknown_members-ok hint identity_hint_fields c6;
          time = time;
          has_time = c;
          expires = e;
          has_expires = c7;
          unexpired = c8;
          has_aid = c9 ∙ ap ok same;
          key = key;
          aid_parses =
              subst (λ t. parse_aid t ≡ ok key) same (on_value_error-eq-ok manifest_invalid _ c10);
          possesses = check_possession-Possesses pop key c11;
          signed = check_manifest_signature-IsSigned man key c12;
        },
      )
