-- ===== src/Examples/Bundles.antt =====
-- A run of aitp_verifier/sessionbundle.py, and of the issuers of aitp_verifier/delegation.py.
use aitp_verifier_py.Text.{
  txt, text_eq, mem_text, strip_prefix, partition, split, contains_text, from_bytes, full_match,
  utf8_point, utf16_point, encode, Text,
}
use aitp_verifier_py.Json.{
  get, has, at, get_or_null, without, names, items, of_list, of_members, is_integer, int_of_float,
  is_instance, is_text, all_texts, Value, int, str, list, obj, nil, item, Members, end, member,
}
use aitp_verifier_py.Json.Access.{
  iterate, list_at, as_text, text_at, as_members, members_at, are_texts, to_int, int_at,
}
use aitp_verifier_py.Json.Decode.{has_duplicates, loads_text, loads}
use aitp_verifier_py.B64.{sextet, sextets, ungroup, b64url_decode}
use aitp_verifier_py.Crypto.{
  of_key, from_raw, p256_raw_to_der, verify_der, verify_digest, verify_jose,
}
use aitp_verifier_py.Aid.{jose_alg, algorithm_of, parse_identifier, parse_aid}
use aitp_verifier_py.Sigfield.{
  tag_alg, split_tag, raw_signature, decode_tagged_text, decode_tagged_signature,
}
use aitp_verifier_py.Fields.{
  has_extra, reject_unknown_members, require_members, allows, is_instance_of, has_type,
  member_has_type, check_types, canonical_bytes_of,
}
use aitp_verifier_py.Jws.{
  three_parts, as_object, on_any, parse_parts, parse_token, parse_compact, parse_aid_value,
  bad_header, verify_jws,
}
use aitp_verifier_py.Jcs.{
  hex, format_char, format_string, visit, serialize_items, serialize_members, serialize_body,
  serialize, dumps, canonicalize, format_number, sort_members,
}
use aitp_verifier_py.Envelope.{
  base64url_char, signature_body, tagged_body, signature_pattern, is_negative,
}
use aitp_verifier_py.Regex.{nullable, follow, either, derive, matches}
use aitp_verifier_py.Manifest.Uri.{
  letter, digit, hex_char, uri_pct, uri_safe, uri_pchar, uri_path_rest, uri_userinfo, uri_host,
  uri_authority, uri_hier_part, uri_tail, uri_pattern, uri_ip_future, ip_literal,
  literal_is_address, is_uri, white_space, capability_pattern, spiffe_char, spiffe_word,
  trust_domain_char, spiffe_segment, spiffe_hint_subject, aid_pattern,
}
use aitp_verifier_py.Manifest.{
  shape, item_passes, no_repeats, texts_in, items_of, check_array, below_one, long_name,
  challenge_pattern, public_key_pattern, starts_with, check_bounds, check_oidc_hint,
  check_spiffe_hint, check_hint_type, outside_rule, candidates_of, manifest_input, validate_grammar,
  validate_identity_hint, manifest_clock, check_version, check_possession, check_manifest_signature,
  check_manifest, verify_manifest, designated_key, on_failure, first_designated, resolve_manifest,
  resolve_key_from_manifests,
}
use aitp_verifier_py.Delegation.Claims.{check_delegation_claims_shape, delegation_codes}
use aitp_verifier_py.Delegation.Hops.{resolve_issuer, token_claims}
use aitp_verifier_py.Tct.{hex_digit}
use aitp_verifier_py.Prelude.{◌≡◌, refl, some, any, all}
use aitp_verifier_py.Prelude.Int.{pos, ◌-ℤ◌}
use aitp_verifier_py.Outcome.{ok}
use aitp_verifier_py.Examples.Toy.{toy}
use aitp_verifier_py.Examples.Tokens.{
  verifier_aid, peer_aid, zero_signature, tct_text, delegation_text, peer_signature, peer_key,
  third_aid, grant_text, manifest_of, pinned_hint,
}
use aitp_verifier_py.Envelope.Contains.{in_items, contains, equal}
use aitp_verifier_py.Delegation.Designated.{HasManifest, token_claims-HasManifest}

abbrev bundle_body : Members
bundle_body = member (txt "version") (str (txt "aitp/0.3")) (
    member (txt "session_id") (str (txt "s")) (
      member (txt "coordinator") (str verifier_aid) (
        member (txt "issued_at") (int (pos 1)) (
          member (txt "expires_at") (int (pos 9)) (
            member (txt "participants")
              (list (
                item
                  (obj (member (txt "aid") (str peer_aid) (member (txt "tct") (str tct_text) end)))
                  nil))
              (member (txt "signature") (str zero_signature) end))))))

abbrev zero_key : Text
zero_key = txt "AAAAAAAAAAAAAAAAAAAAAAAAAAAAAAAAAAAAAAAAAAA"

abbrev bundle_input : Members
bundle_input = member (txt "self_aid") (str peer_aid) (
    member (txt "session_bundle") (obj (member (txt "session_bundle") (obj bundle_body) end)) (
      member (txt "coordinator_manifest")
        (obj (manifest_of verifier_aid zero_signature (pinned_hint zero_key))) end))

abbrev supplied : Value
supplied = list (item (obj (manifest_of peer_aid peer_signature (pinned_hint peer_key))) nil)

abbrev with_manifests : Members
with_manifests = member (txt "issuer_manifests") supplied end

abbrev hop_claims : Members
hop_claims = member (txt "ver") (str (txt "aitp/0.3")) (
    member (txt "iss") (str peer_aid) (
      member (txt "sub") (str third_aid) (
        member (txt "aud") (str verifier_aid) (
          member (txt "scope") (list (item (str (txt "g")) nil)) (
            member (txt "exp") (int (pos 8)) (
              member (txt "cnf") (obj (member (txt "jkt") (str (txt "eyI")) end))
                (member (txt "voucher") (str grant_text) end)))))))

supplies : get (txt "issuer_manifests") with_manifests ≡ some supplied
unfolding get txt text_eq
supplies = refl

hop_run :
    token_claims ⦃π = toy⦄
      (resolve_key_from_manifests ⦃π = toy⦄)
      with_manifests
      (str delegation_text)
      (pos 5)
    ≡ ok hop_claims
unfolding any all toy ◌-ℤ◌ txt text_eq mem_text strip_prefix partition split contains_text
    from_bytes full_match utf8_point utf16_point encode get has at get_or_null without names items
    of_list of_members is_integer int_of_float is_instance is_text all_texts iterate list_at as_text
    text_at as_members members_at are_texts to_int int_at has_duplicates loads_text loads sextet
    sextets ungroup b64url_decode of_key from_raw p256_raw_to_der verify_der verify_digest
    verify_jose jose_alg algorithm_of parse_identifier parse_aid tag_alg split_tag raw_signature
    decode_tagged_text decode_tagged_signature has_extra reject_unknown_members require_members
    allows is_instance_of has_type member_has_type check_types canonical_bytes_of three_parts
    as_object on_any parse_parts parse_token parse_compact parse_aid_value bad_header verify_jws hex
    format_char format_string visit serialize_items serialize_members serialize_body serialize dumps
    canonicalize format_number sort_members base64url_char signature_body tagged_body
    signature_pattern is_negative nullable follow either derive matches letter digit hex_char
    uri_pct uri_safe uri_pchar uri_path_rest uri_userinfo uri_host uri_authority uri_hier_part
    uri_tail uri_pattern uri_ip_future ip_literal literal_is_address is_uri white_space
    capability_pattern spiffe_char spiffe_word trust_domain_char spiffe_segment spiffe_hint_subject
    aid_pattern shape item_passes no_repeats texts_in items_of check_array below_one long_name
    challenge_pattern public_key_pattern starts_with check_bounds check_oidc_hint check_spiffe_hint
    check_hint_type outside_rule candidates_of manifest_input validate_grammar
    validate_identity_hint manifest_clock check_version check_possession check_manifest_signature
    check_manifest verify_manifest designated_key on_failure first_designated resolve_manifest
    resolve_key_from_manifests check_delegation_claims_shape delegation_codes resolve_issuer
    token_claims hex_digit equal contains in_items
hop_run = refl

token_claims-HasManifest_example :
    HasManifest ⦃π = toy⦄ (get_or_null (txt "iss") hop_claims) supplied (pos 5)
token_claims-HasManifest_example =
    token_claims-HasManifest ⦃π = toy⦄ with_manifests (str delegation_text) supplied (pos 5)
      hop_claims supplies hop_run
