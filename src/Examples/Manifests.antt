-- ===== src/Examples/Manifests.antt =====
-- Runs of aitp_verifier/manifest.py.
use aitp_verifier_py.Json.{member, str, end}
use aitp_verifier_py.Manifest.Hint.{IsSpiffeHint, check_spiffe_hint_iff}
use aitp_verifier_py.Manifest.{check_spiffe_hint}
use aitp_verifier_py.Prelude.{◌↔◌}
use aitp_verifier_py.Text.{
  txt, text_eq, mem_text, strip_prefix, partition, contains_text, from_bytes, full_match,
  utf8_point, utf16_point, encode,
}
use aitp_verifier_py.Json.{
  get, has, at, get_or_null, without, names, items, of_list, of_members, is_integer, int_of_float,
  is_instance, is_text, Value, null, list, obj, nil, item, Members,
}
use aitp_verifier_py.Json.Access.{iterate, as_text, text_at, to_int, int_at}
use aitp_verifier_py.Json.Decode.{has_duplicates}
use aitp_verifier_py.B64.{sextet, sextets, ungroup, b64url_decode}
use aitp_verifier_py.Crypto.{of_key, from_raw, p256_raw_to_der, verify_der, verify_digest, ed25519}
use aitp_verifier_py.Aid.{algorithm_of, parse_identifier, parse_aid, Aid}
use aitp_verifier_py.Sigfield.{
  tag_alg, split_tag, raw_signature, decode_tagged_text, decode_tagged_signature,
}
use aitp_verifier_py.Fields.{
  has_extra, reject_unknown_members, require_members, allows, is_instance_of, has_type,
  member_has_type, check_types, canonical_bytes_of,
}
use aitp_verifier_py.Jcs.{
  hex, format_char, format_string, visit, serialize_items, serialize_members, serialize_body,
  serialize, dumps, canonicalize, format_number, sort_members,
}
use aitp_verifier_py.Envelope.{
  base64url_char, signature_body, tagged_body, signature_pattern, is_negative,
}
use aitp_verifier_py.Regex.{nullable, follow, either, derive, matches}
use aitp_verifier_py.Manifest.Uri.{
  letter, digit, hex_char, uri_pct, uri_safe, uri_pchar, uri_path_rest, uri_userinfo, uri_host,
  uri_authority, uri_hier_part, uri_tail, uri_pattern, uri_ip_future, ip_literal,
  literal_is_address, is_uri, white_space, capability_pattern, spiffe_char, spiffe_word,
  trust_domain_char, spiffe_segment, spiffe_hint_subject, aid_pattern,
}
use aitp_verifier_py.Manifest.{
  shape, item_passes, no_repeats, texts_in, items_of, check_array, below_one, long_name,
  challenge_pattern, public_key_pattern, starts_with, check_bounds, check_oidc_hint,
  check_spiffe_hint, check_hint_type, outside_rule, candidates_of, manifest_input, validate_grammar,
  validate_identity_hint, manifest_clock, check_version, check_possession, check_manifest_signature,
  check_manifest, verify_manifest, designated_key, on_failure, first_designated, resolve_manifest,
}
use aitp_verifier_py.Prelude.{◌≡◌, refl, true, [], ◌∷◌, any, all, ◌++◌, replicate}
use aitp_verifier_py.Prelude.Int.{pos, ◌-ℤ◌}
use aitp_verifier_py.Outcome.{ok}
use aitp_verifier_py.Examples.Toy.{toy}
use aitp_verifier_py.Examples.Tokens.{peer_aid, peer_key, manifest_of, pinned_hint, peer_signature}
use aitp_verifier_py.Envelope.Contains.{in_items, contains, equal}
use aitp_verifier_py.Manifest.Sound.{IsVerified, verify_manifest-IsVerified}
use aitp_verifier_py.Manifest.Resolve.{
  IsDesignated, resolve_manifest-IsDesignated, first_designated-resolves,
}

abbrev manifest : Members
manifest = manifest_of peer_aid peer_signature (pinned_hint peer_key)

manifest_run :
    verify_manifest ⦃π = toy⦄ (manifest_input (obj manifest) (pos 5)) (pos 5) ≡ ok peer_aid
unfolding any all toy ◌-ℤ◌ txt text_eq mem_text strip_prefix partition contains_text from_bytes
    full_match utf8_point utf16_point encode get has at get_or_null without names items of_list
    of_members is_integer int_of_float is_instance iterate as_text text_at to_int int_at
    has_duplicates sextet sextets ungroup b64url_decode of_key from_raw p256_raw_to_der verify_der
    verify_digest algorithm_of parse_identifier parse_aid tag_alg split_tag raw_signature
    decode_tagged_text decode_tagged_signature has_extra reject_unknown_members require_members
    allows is_instance_of has_type member_has_type check_types canonical_bytes_of hex format_char
    format_string visit serialize_items serialize_members serialize_body serialize dumps
    canonicalize format_number sort_members base64url_char signature_body tagged_body
    signature_pattern is_negative nullable follow either derive matches letter digit hex_char
    uri_pct uri_safe uri_pchar uri_path_rest uri_userinfo uri_host uri_authority uri_hier_part
    uri_tail uri_pattern uri_ip_future ip_literal literal_is_address is_uri white_space
    capability_pattern spiffe_char spiffe_word trust_domain_char spiffe_segment spiffe_hint_subject
    aid_pattern shape item_passes no_repeats texts_in items_of check_array below_one long_name
    challenge_pattern public_key_pattern starts_with check_bounds check_oidc_hint check_spiffe_hint
    check_hint_type outside_rule manifest_input validate_grammar validate_identity_hint
    manifest_clock check_version check_possession check_manifest_signature check_manifest
    verify_manifest equal contains in_items
manifest_run = refl

verify_manifest-IsVerified_example :
    (man : Members) × IsVerified ⦃π = toy⦄
      (manifest_input (obj manifest) (pos 5))
      man
      (pos 5)
      peer_aid
verify_manifest-IsVerified_example =
    verify_manifest-IsVerified ⦃π = toy⦄ (manifest_input (obj manifest) (pos 5)) (pos 5) peer_aid
      manifest_run

abbrev key : Aid ⦃π = toy⦄
unfolding toy
key = record {
  aid = peer_aid;
  alg = ed25519;
  raw_key = replicate 32 1;
  public_key = record { alg = ed25519; key = replicate 32 1 };
}

key_run : parse_aid ⦃π = toy⦄ peer_aid ≡ ok key
unfolding any all toy txt text_eq strip_prefix sextet sextets ungroup b64url_decode of_key from_raw
    algorithm_of parse_identifier parse_aid
key_run = refl

abbrev supplied : Value
supplied = list (item null (item (obj manifest) nil))

resolve_run : resolve_manifest ⦃π = toy⦄ peer_aid supplied (pos 5) ≡ ok (key, manifest)
unfolding any all toy ◌-ℤ◌ txt text_eq mem_text strip_prefix partition contains_text from_bytes
    full_match utf8_point utf16_point encode get has at get_or_null without names items of_list
    of_members is_integer int_of_float is_instance is_text iterate as_text text_at to_int int_at
    has_duplicates sextet sextets ungroup b64url_decode of_key from_raw p256_raw_to_der verify_der
    verify_digest algorithm_of parse_identifier parse_aid tag_alg split_tag raw_signature
    decode_tagged_text decode_tagged_signature has_extra reject_unknown_members require_members
    allows is_instance_of has_type member_has_type check_types canonical_bytes_of hex format_char
    format_string visit serialize_items serialize_members serialize_body serialize dumps
    canonicalize format_number sort_members base64url_char signature_body tagged_body
    signature_pattern is_negative nullable follow either derive matches letter digit hex_char
    uri_pct uri_safe uri_pchar uri_path_rest uri_userinfo uri_host uri_authority uri_hier_part
    uri_tail uri_pattern uri_ip_future ip_literal literal_is_address is_uri white_space
    capability_pattern spiffe_char spiffe_word trust_domain_char spiffe_segment spiffe_hint_subject
    aid_pattern shape item_passes no_repeats texts_in items_of check_array below_one long_name
    challenge_pattern public_key_pattern starts_with check_bounds check_oidc_hint check_spiffe_hint
    check_hint_type outside_rule candidates_of manifest_input validate_grammar
    validate_identity_hint manifest_clock check_version check_possession check_manifest_signature
    check_manifest verify_manifest designated_key on_failure first_designated resolve_manifest equal
    contains in_items
resolve_run = refl

resolve_manifest-IsDesignated_example :
    IsDesignated ⦃π = toy⦄ peer_aid (candidates_of supplied) (pos 5) key manifest
resolve_manifest-IsDesignated_example =
    resolve_manifest-IsDesignated ⦃π = toy⦄ peer_aid supplied (pos 5) key manifest resolve_run

is_named : is_text peer_aid (get_or_null (txt "aid") manifest) ≡ true
unfolding is_text get_or_null get txt text_eq
is_named = refl

first_designated-resolves_example :
    first_designated ⦃π = toy⦄ peer_aid ((null ∷ []) ++ (obj manifest ∷ [])) (pos 5)
    ≡ ok (key, manifest)
first_designated-resolves_example =
    first_designated-resolves ⦃π = toy⦄ peer_aid (null ∷ []) [] manifest (pos 5) peer_aid key
      (refl, tt) is_named manifest_run key_run

abbrev spiffe_hint : Members
spiffe_hint =
    member (txt "type") (str (txt "spiffe"))
      (member (txt "subject") (str (txt "spiffe://a.b/c/...")) end)

spiffe_hint_run : check_spiffe_hint spiffe_hint ≡ ok tt
unfolding any all txt text_eq get has at as_text text_at nullable follow either derive matches
    letter digit spiffe_char spiffe_word trust_domain_char spiffe_segment spiffe_hint_subject
    check_spiffe_hint
spiffe_hint_run = refl

check_spiffe_hint_iff_example : (check_spiffe_hint spiffe_hint ≡ ok tt) ↔ IsSpiffeHint spiffe_hint
check_spiffe_hint_iff_example = check_spiffe_hint_iff spiffe_hint
