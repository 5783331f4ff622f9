-- ===== src/Examples/Snapshots.antt =====
-- Runs of aitp_verifier/revocation.py.
use aitp_verifier_py.Text.{
  txt, text_eq, mem_text, strip_prefix, partition, from_bytes, utf8_point, utf16_point, encode,
}
use aitp_verifier_py.Json.{
  get, has, at, get_or_null, names, items, of_list, of_members, is_integer, int_of_float,
  is_instance, is_text, Value, str, Members, end, member,
}
use aitp_verifier_py.Json.Access.{iterate, list_at, as_text, text_at, to_int, int_at}
use aitp_verifier_py.Json.Decode.{has_duplicates}
use aitp_verifier_py.B64.{sextet, sextets, ungroup, b64url_decode}
use aitp_verifier_py.Crypto.{of_key, from_raw, p256_raw_to_der, verify_der, verify_digest}
use aitp_verifier_py.Aid.{algorithm_of, parse_identifier, parse_aid}
use aitp_verifier_py.Sigfield.{
  tag_alg, split_tag, raw_signature, decode_tagged_text, decode_tagged_signature,
}
use aitp_verifier_py.Fields.{
  has_extra, reject_unknown_members, reject_unknown_fields, require_members, allows, is_instance_of,
  has_type, member_has_type, check_types, canonical_bytes_of,
}
use aitp_verifier_py.Jcs.{
  hex, format_char, format_string, visit, serialize_items, serialize_members, serialize_body,
  serialize, dumps, canonicalize, format_number, sort_members,
}
use aitp_verifier_py.Revocation.{
  resolve_fail_mode, policy_of, policy_fail_mode, past_bound, snapshot_is_stale, check_entry,
  check_entries, validate_body, is_str, validate_shape, check_entry_fields, check_fields,
  check_signature, verify_snapshot_trust, names_jti, lists_jti, absent, look_up, clock, evaluate,
  verify_revocation_snapshot, not_revoked,
}
use aitp_verifier_py.Prelude.{◌≡◌, refl, some, any, all}
use aitp_verifier_py.Prelude.Int.{ℤ, pos, ◌-ℤ◌}
use aitp_verifier_py.Outcome.{ok}
use aitp_verifier_py.Examples.Toy.{toy}
use aitp_verifier_py.Examples.Tokens.{verifier_aid, jti_text, body, snapshot}
use aitp_verifier_py.Revocation.Trust.{IsTrusted, verify_snapshot_trust-IsTrusted}
use aitp_verifier_py.Revocation.Verdict.{IsAnswer, verify_revocation_snapshot-IsAnswer}

abbrev query : Members
query = member (txt "snapshot") snapshot (
    member (txt "expected_issuer") (str verifier_aid)
      (member (txt "queried_jti") (str jti_text) end))

trust_run : verify_snapshot_trust ⦃π = toy⦄ snapshot ≡ ok body
unfolding any all toy ◌-ℤ◌ txt text_eq mem_text strip_prefix partition from_bytes utf8_point
    utf16_point encode get has at get_or_null names items of_list of_members is_integer is_instance
    is_text iterate list_at as_text text_at has_duplicates sextet sextets ungroup b64url_decode
    of_key from_raw p256_raw_to_der verify_der verify_digest algorithm_of parse_identifier parse_aid
    tag_alg split_tag raw_signature decode_tagged_text decode_tagged_signature has_extra
    reject_unknown_members reject_unknown_fields require_members allows is_instance_of has_type
    member_has_type check_types canonical_bytes_of hex format_char format_string visit
    serialize_items serialize_members serialize_body serialize dumps canonicalize format_number
    sort_members check_entry check_entries validate_body is_str validate_shape check_entry_fields
    check_fields check_signature verify_snapshot_trust
trust_run = refl

query_run : verify_revocation_snapshot ⦃π = toy⦄ query (some (pos 5)) ≡ ok not_revoked
unfolding any all toy ◌-ℤ◌ txt text_eq mem_text strip_prefix partition from_bytes utf8_point
    utf16_point encode get has at get_or_null names items of_list of_members is_integer int_of_float
    is_instance is_text iterate list_at as_text text_at to_int int_at has_duplicates sextet sextets
    ungroup b64url_decode of_key from_raw p256_raw_to_der verify_der verify_digest algorithm_of
    parse_identifier parse_aid tag_alg split_tag raw_signature decode_tagged_text
    decode_tagged_signature has_extra reject_unknown_members reject_unknown_fields require_members
    allows is_instance_of has_type member_has_type check_types canonical_bytes_of hex format_char
    format_string visit serialize_items serialize_members serialize_body serialize dumps
    canonicalize format_number sort_members resolve_fail_mode policy_of policy_fail_mode past_bound
    snapshot_is_stale check_entry check_entries validate_body is_str validate_shape
    check_entry_fields check_fields check_signature verify_snapshot_trust names_jti lists_jti absent
    look_up clock evaluate verify_revocation_snapshot
query_run = refl

verify_snapshot_trust-IsTrusted_example : IsTrusted ⦃π = toy⦄ snapshot body
verify_snapshot_trust-IsTrusted_example =
    verify_snapshot_trust-IsTrusted ⦃π = toy⦄ snapshot body trust_run

verify_revocation_snapshot-IsAnswer_example :
    (time : ℤ) × (clock ⦃π = toy⦄ query (some (pos 5)) ≡ ok time)
    × (given : Value) × (get (txt "snapshot") query ≡ some given)
    × (found : Members) × IsTrusted ⦃π = toy⦄ given found
    × IsAnswer ⦃π = toy⦄ query found time not_revoked
verify_revocation_snapshot-IsAnswer_example =
    verify_revocation_snapshot-IsAnswer ⦃π = toy⦄ query (some (pos 5)) not_revoked query_run
