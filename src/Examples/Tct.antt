-- ===== src/Examples/Tct.antt =====
-- Runs of aitp_verifier/tct.py.
use aitp_verifier_py.Text.{
  txt, text_eq, mem_text, strip_prefix, partition, split, from_bytes, full_match, utf8_point,
  utf16_point, encode,
}
use aitp_verifier_py.Json.{
  get, has, at, get_or_null, names, items, of_list, of_members, is_integer, int_of_float,
  is_instance, is_text, all_texts, Value, str, list, obj, nil, item, Members, end, member,
}
use aitp_verifier_py.Json.Access.{
  iterate, list_at, as_text, text_at, as_members, members_at, are_texts, to_int, int_at,
}
use aitp_verifier_py.Json.Decode.{has_duplicates, loads_text, loads}
use aitp_verifier_py.B64.{
  sextet, character, sextets, ungroup, b64url_decode, group, characters, b64url_encode,
}
use aitp_verifier_py.Crypto.{
  of_key, from_raw, p256_raw_to_der, verify_der, verify_digest, verify_jose,
}
use aitp_verifier_py.Aid.{jose_alg, algorithm_of, parse_identifier, parse_aid}
use aitp_verifier_py.Sigfield.{
  tag_alg, split_tag, raw_signature, decode_tagged_text, decode_tagged_signature,
}
use aitp_verifier_py.Fields.{
  has_extra, reject_unknown_members, reject_unknown_fields, require_members, allows, is_instance_of,
  has_type, member_has_type, check_types, canonical_bytes_of,
}
use aitp_verifier_py.Jws.{
  three_parts, as_object, on_any, parse_parts, parse_token, parse_compact, parse_aid_value,
  bad_header, verify_jws,
}
use aitp_verifier_py.Jcs.{
  hex, format_char, format_string, visit, serialize_items, serialize_members, serialize_body,
  serialize, dumps, canonicalize, format_number, sort_members,
}
use aitp_verifier_py.Revocation.{
  resolve_fail_mode, policy_of, policy_fail_mode, past_bound, snapshot_is_stale, check_entry,
  check_entries, validate_body, is_str, validate_shape, check_entry_fields, check_fields,
  check_signature, verify_snapshot_trust, names_jti, lists_jti, fail_closed,
}
use aitp_verifier_py.Jwk.{canonical_jwk, thumbprint}
use aitp_verifier_py.Tct.{
  hex_digit, variant_digit, jti_v4, check_tct_claims_shape, check_grant_context, index,
  apply_absence, trusted_body, other_audience, outlives_manifest, check_manifest_cap, scan, consult,
  check_source, check_revocation, tct_codes, check_binding, check_claims, verify_token, verify_tct,
}
use aitp_verifier_py.Prelude.{◌≡◌, refl, some, any, all}
use aitp_verifier_py.Prelude.Int.{pos, ◌-ℤ◌}
use aitp_verifier_py.Outcome.{ok}
use aitp_verifier_py.Examples.Toy.{toy}
use aitp_verifier_py.Examples.Tokens.{tct_text, snapshot}
use aitp_verifier_py.Tct.Sound.{IsAccepted, verify_tct-IsAccepted, verify_tct-IsCleared}
use aitp_verifier_py.Tct.Denied.{IsCleared}

abbrev tct_input : Members
tct_input =
    member (txt "tct_token") (str tct_text)
      (member (txt "issuer_revocation_list") (obj (member (txt "snapshot") snapshot end)) end)

abbrev grants : Value
grants = list (item (str (txt "g")) nil)

tct_run : verify_tct ⦃π = toy⦄ tct_input (pos 5) ≡ ok grants
unfolding any all toy ◌-ℤ◌ txt text_eq mem_text strip_prefix partition split from_bytes full_match
    utf8_point utf16_point encode get has at get_or_null names items of_list of_members is_integer
    int_of_float is_instance is_text all_texts iterate list_at as_text text_at as_members members_at
    are_texts to_int int_at has_duplicates loads_text loads sextet character sextets ungroup
    b64url_decode group characters b64url_encode of_key from_raw p256_raw_to_der verify_der
    verify_digest verify_jose jose_alg algorithm_of parse_identifier parse_aid tag_alg split_tag
    raw_signature decode_tagged_text decode_tagged_signature has_extra reject_unknown_members
    reject_unknown_fields require_members allows is_instance_of has_type member_has_type check_types
    canonical_bytes_of three_parts as_object on_any parse_parts parse_token parse_compact
    parse_aid_value bad_header verify_jws hex format_char format_string visit serialize_items
    serialize_members serialize_body serialize dumps canonicalize format_number sort_members
    resolve_fail_mode policy_of policy_fail_mode past_bound snapshot_is_stale check_entry
    check_entries validate_body is_str validate_shape check_entry_fields check_fields
    check_signature verify_snapshot_trust names_jti lists_jti canonical_jwk thumbprint hex_digit
    variant_digit jti_v4 check_tct_claims_shape check_grant_context index apply_absence trusted_body
    other_audience outlives_manifest check_manifest_cap scan consult check_source check_revocation
    tct_codes check_binding check_claims verify_token verify_tct
tct_run = refl

tct_closed : policy_fail_mode tct_input ≡ fail_closed
unfolding policy_fail_mode policy_of resolve_fail_mode get get_or_null text_eq txt
tct_closed = refl

verify_tct-IsAccepted_example :
    (claims : Members) × IsAccepted ⦃π = toy⦄ tct_input (pos 5) claims
    × (get (txt "grants") claims ≡ some grants)
verify_tct-IsAccepted_example = verify_tct-IsAccepted ⦃π = toy⦄ tct_input (pos 5) grants tct_run

verify_tct-IsCleared_example :
    (claims : Members) × IsAccepted ⦃π = toy⦄ tct_input (pos 5) claims
    × IsCleared ⦃π = toy⦄ claims tct_input (pos 5)
    × (get (txt "grants") claims ≡ some grants)
verify_tct-IsCleared_example =
    verify_tct-IsCleared ⦃π = toy⦄ tct_input (pos 5) grants tct_closed tct_run
