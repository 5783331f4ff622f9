-- ===== src/Examples/Attestation.antt =====
-- A run of `verify_attestation` of aitp_verifier/tct.py.
use aitp_verifier_py.Text.{
  txt, text_eq, mem_text, strip_prefix, partition, split, contains_text, from_bytes, full_match,
  utf8_point, utf16_point, encode,
}
use aitp_verifier_py.Json.{
  get, has, at, get_or_null, names, items, of_list, of_members, is_integer, int_of_float,
  is_instance, truthy, is_text, all_texts, bool, str, list, obj, nil, item, Members, end, member,
}
use aitp_verifier_py.Json.Access.{
  iterate, list_at, as_text, text_at, as_members, members_at, are_texts, to_int, int_at,
}
use aitp_verifier_py.Json.Decode.{has_duplicates, loads_text, loads}
use aitp_verifier_py.B64.{
  sextet, character, sextets, ungroup, b64url_decode, group, characters, b64url_encode,
}
use aitp_verifier_py.Crypto.{
  of_key, from_raw, p256_raw_to_der, verify_der, verify_digest, verify_jose,
}
use aitp_verifier_py.Aid.{jose_alg, algorithm_of, parse_identifier, parse_aid}
use aitp_verifier_py.Sigfield.{
  tag_alg, split_tag, raw_signature, decode_tagged_text, decode_tagged_signature,
}
use aitp_verifier_py.Fields.{
  has_extra, reject_unknown_members, reject_unknown_fields, require_members, allows, is_instance_of,
  has_type, member_has_type, check_types, canonical_bytes_of,
}
use aitp_verifier_py.Jws.{
  three_parts, as_object, on_any, parse_parts, parse_token, parse_compact, parse_aid_value,
  bad_header, verify_jws,
}
use aitp_verifier_py.Jcs.{
  hex, format_char, format_string, visit, serialize_items, serialize_members, serialize_body,
  serialize, dumps, canonicalize, format_number, sort_members,
}
use aitp_verifier_py.Revocation.{
  resolve_fail_mode, policy_of, policy_fail_mode, past_bound, snapshot_is_stale, check_entry,
  check_entries, validate_body, is_str, validate_shape, check_entry_fields, check_fields,
  check_signature, verify_snapshot_trust, names_jti, lists_jti,
}
use aitp_verifier_py.Jwk.{canonical_jwk, thumbprint}
use aitp_verifier_py.Envelope.Contains.{in_items, contains, equal}
use aitp_verifier_py.Delegation.Hops.{strings, characters_of, entries_of}
use aitp_verifier_py.Identity.{key_of, same_entry, entry_of_text, trust_store_entry, is_trusted}
use aitp_verifier_py.Tct.{
  hex_digit, variant_digit, jti_v4, check_tct_claims_shape, index, apply_absence, trusted_body,
  outlives_manifest, check_manifest_cap, scan, consult, check_source, check_revocation, tct_codes,
}
use aitp_verifier_py.Tct.Issuer.{
  iterate_or_empty, value_at, attestation_pre_signature, undecided, only_marker, check_attested,
  statement_of, verify_attestation,
}
use aitp_verifier_py.Prelude.{◌≡◌, refl, true, any, all}
use aitp_verifier_py.Prelude.Int.{pos, ◌-ℤ◌}
use aitp_verifier_py.Outcome.{ok}
use aitp_verifier_py.Examples.Toy.{toy}
use aitp_verifier_py.Examples.Tokens.{verifier_aid, snapshot, attestation_text}
use aitp_verifier_py.Tct.Attested.{IsAttested, verify_attestation-IsAttested}

abbrev attested : Members
attested = member (txt "tct_token") (str attestation_text) (
    member (txt "expected_ext_key") (str (txt "s")) (
      member (txt "waive_manifest_cap") (bool true) (
        member (txt "trust_store") (list (item (str verifier_aid) nil)) (
          member (txt "issuer_revocation_list") (obj (member (txt "snapshot") snapshot end)) end))))

attested_run : verify_attestation ⦃π = toy⦄ attested (pos 5) ≡ ok (str (txt "yes"))
unfolding any all toy ◌-ℤ◌ txt text_eq mem_text strip_prefix partition split contains_text
    from_bytes full_match utf8_point utf16_point encode get has at get_or_null names items of_list
    of_members is_integer int_of_float is_instance truthy is_text all_texts iterate list_at as_text
    text_at as_members members_at are_texts to_int int_at has_duplicates loads_text loads sextet
    character sextets ungroup b64url_decode group characters b64url_encode of_key from_raw
    p256_raw_to_der verify_der verify_digest verify_jose jose_alg algorithm_of parse_identifier
    parse_aid tag_alg split_tag raw_signature decode_tagged_text decode_tagged_signature has_extra
    reject_unknown_members reject_unknown_fields require_members allows is_instance_of has_type
    member_has_type check_types canonical_bytes_of three_parts as_object on_any parse_parts
    parse_token parse_compact parse_aid_value bad_header verify_jws hex format_char format_string
    visit serialize_items serialize_members serialize_body serialize dumps canonicalize
    format_number sort_members resolve_fail_mode policy_of policy_fail_mode past_bound
    snapshot_is_stale check_entry check_entries validate_body is_str validate_shape
    check_entry_fields check_fields check_signature verify_snapshot_trust names_jti lists_jti
    canonical_jwk thumbprint in_items contains strings characters_of entries_of key_of same_entry
    entry_of_text trust_store_entry is_trusted hex_digit variant_digit jti_v4 check_tct_claims_shape
    index apply_absence trusted_body outlives_manifest check_manifest_cap scan consult check_source
    check_revocation tct_codes iterate_or_empty value_at attestation_pre_signature undecided
    only_marker check_attested statement_of verify_attestation equal
attested_run = refl

verify_attestation-IsAttested_example :
    (claims : Members) × IsAttested ⦃π = toy⦄ attested (pos 5) (str (txt "yes")) claims
verify_attestation-IsAttested_example =
    verify_attestation-IsAttested ⦃π = toy⦄ attested (pos 5) (str (txt "yes")) attested_run
