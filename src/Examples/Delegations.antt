-- ===== src/Examples/Delegations.antt =====
-- Runs of aitp_verifier/delegation.py.
use aitp_verifier_py.Text.{
  txt, text_eq, mem_text, subset, strip_prefix, partition, split, from_bytes, utf8_point,
  utf16_point, encode, Text,
}
use aitp_verifier_py.Json.{
  get, has, at, get_or_null, names, items, of_list, of_members, is_integer, int_of_float,
  is_instance, truthy, is_text, all_texts, Value, str, list, obj, nil, item, Members, end, member,
}
use aitp_verifier_py.Json.Access.{
  iterate, list_at, as_text, text_at, as_members, members_at, are_texts, texts_at, to_int, int_at,
}
use aitp_verifier_py.Json.Decode.{has_duplicates, loads_text, loads}
use aitp_verifier_py.B64.{
  sextet, character, sextets, ungroup, b64url_decode, group, characters, b64url_encode,
}
use aitp_verifier_py.Crypto.{
  of_key, from_raw, p256_raw_to_der, verify_der, verify_digest, verify_jose,
}
use aitp_verifier_py.Aid.{jose_alg, algorithm_of, parse_identifier, parse_aid}
use aitp_verifier_py.Sigfield.{
  tag_alg, split_tag, raw_signature, decode_tagged_text, decode_tagged_signature,
}
use aitp_verifier_py.Fields.{
  has_extra, reject_unknown_members, reject_unknown_fields, require_members, allows, is_instance_of,
  has_type, member_has_type, check_types, canonical_bytes_of,
}
use aitp_verifier_py.Jws.{
  three_parts, as_object, on_any, parse_parts, parse_token, parse_compact, parse_aid_value,
  bad_header, verify_jws,
}
use aitp_verifier_py.Jcs.{
  hex, format_char, format_string, visit, serialize_items, serialize_members, serialize_body,
  serialize, dumps, canonicalize, format_number, sort_members,
}
use aitp_verifier_py.Revocation.{
  resolve_fail_mode, policy_of, policy_fail_mode, past_bound, snapshot_is_stale, check_entry,
  check_entries, validate_body, is_str, validate_shape, check_entry_fields, check_fields,
  check_signature, verify_snapshot_trust, names_jti, lists_jti, fail_closed,
}
use aitp_verifier_py.Jwk.{canonical_jwk, thumbprint}
use aitp_verifier_py.Voucher.{check_voucher_claims_shape, voucher_codes}
use aitp_verifier_py.Delegation.Claims.{
  check_delegation_claims_shape, ascii_point, ascii_bytes, is_string, chain_digests,
  compute_chain_hash, delegation_codes, verify_root_voucher,
}
use aitp_verifier_py.Delegation.Denied.{
  record_member, may_be_own, keep_body, snapshots_of, apply_absence, issued_by, any_lists,
  collect_bodies, verified_snapshot_bodies, fresh_bodies, scan_own, check_source_tct_revocation,
  sweep_hop, sweep,
}
use aitp_verifier_py.Delegation.Hops.{
  length_of, strings, characters_of, entries_of, hops_of, new_jti, check_next, check_hop_binding,
  check_chain, check_chain_revocation, resolve_issuer, token_claims, check_hop, walk, verify_hops,
  verify_multihop,
}
use aitp_verifier_py.Delegation.{
  reject_v01_object_token, no_token, verify_single, verify_addressed, verify_text_token,
  verify_supplied, verify_delegation_token,
}
use aitp_verifier_py.Prelude.{◌≡◌, refl, any, all}
use aitp_verifier_py.Prelude.Int.{ℤ, pos, ◌-ℤ◌}
use aitp_verifier_py.Outcome.{Check, ok}
use aitp_verifier_py.Examples.Toy.{toy}
use aitp_verifier_py.Examples.Tokens.{verifier_aid, delegation_text, snapshot}
use aitp_verifier_py.Delegation.Granted.{IsGranted, verify_delegation_token-IsGranted}
use aitp_verifier_py.Delegation.Source.{IsSourceCleared, verify_delegation_token-IsSourceCleared}

abbrev delegation_input : Members
delegation_input = member (txt "delegation_token") (str delegation_text) (
    member (txt "self_aid") (str verifier_aid) (
      member (txt "revocation_snapshots")
        (list (item (obj (member (txt "snapshot") snapshot end)) nil)) end))

abbrev scope : Value
scope = list (item (str (txt "g")) nil)

-- Every issuer's key is designated.
abbrev any_key : Value → Value → ℤ → Check
any_key iss manifests now = ok tt

delegation_run : verify_delegation_token ⦃π = toy⦄ any_key delegation_input (pos 5) ≡ ok scope
unfolding any all toy ◌-ℤ◌ txt text_eq mem_text subset strip_prefix partition split from_bytes
    utf8_point utf16_point encode get has at get_or_null names items of_list of_members is_integer
    int_of_float is_instance truthy is_text all_texts iterate list_at as_text text_at as_members
    members_at are_texts texts_at to_int int_at has_duplicates loads_text loads sextet character
    sextets ungroup b64url_decode group characters b64url_encode of_key from_raw p256_raw_to_der
    verify_der verify_digest verify_jose jose_alg algorithm_of parse_identifier parse_aid tag_alg
    split_tag raw_signature decode_tagged_text decode_tagged_signature has_extra
    reject_unknown_members reject_unknown_fields require_members allows is_instance_of has_type
    member_has_type check_types canonical_bytes_of three_parts as_object on_any parse_parts
    parse_token parse_compact parse_aid_value bad_header verify_jws hex format_char format_string
    visit serialize_items serialize_members serialize_body serialize dumps canonicalize
    format_number sort_members resolve_fail_mode policy_of policy_fail_mode past_bound
    snapshot_is_stale check_entry check_entries validate_body is_str validate_shape
    check_entry_fields check_fields check_signature verify_snapshot_trust names_jti lists_jti
    canonical_jwk thumbprint check_voucher_claims_shape voucher_codes check_delegation_claims_shape
    ascii_point ascii_bytes is_string chain_digests compute_chain_hash delegation_codes
    verify_root_voucher record_member may_be_own keep_body snapshots_of apply_absence issued_by
    any_lists collect_bodies verified_snapshot_bodies fresh_bodies scan_own
    check_source_tct_revocation sweep_hop sweep length_of strings characters_of entries_of hops_of
    new_jti check_next check_hop_binding check_chain check_chain_revocation resolve_issuer
    token_claims check_hop walk verify_hops verify_multihop reject_v01_object_token no_token
    verify_single verify_addressed verify_text_token verify_supplied verify_delegation_token
delegation_run = refl

delegation_closed : policy_fail_mode delegation_input ≡ fail_closed
unfolding policy_fail_mode policy_of resolve_fail_mode get get_or_null text_eq txt
delegation_closed = refl

verify_delegation_token-IsGranted_example :
    (self_aid : Text) × (get_or_null (txt "self_aid") delegation_input ≡ str self_aid)
    × IsGranted ⦃π = toy⦄ delegation_input self_aid (pos 5) scope
verify_delegation_token-IsGranted_example =
    verify_delegation_token-IsGranted ⦃π = toy⦄ any_key delegation_input (pos 5) scope
      delegation_run

verify_delegation_token-IsSourceCleared_example :
    (self_aid : Text) × (get_or_null (txt "self_aid") delegation_input ≡ str self_aid)
    × (g : IsGranted ⦃π = toy⦄ delegation_input self_aid (pos 5) scope) × IsSourceCleared ⦃π = toy⦄
        delegation_input self_aid g.src_jti
        (pos 5)
verify_delegation_token-IsSourceCleared_example =
    verify_delegation_token-IsSourceCleared ⦃π = toy⦄ any_key delegation_input (pos 5) scope
      delegation_closed delegation_run
