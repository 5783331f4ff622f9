-- ===== src/Examples/Presenter.antt =====
-- Runs of `verify_tct_as_issuer` of aitp_verifier/tct.py.
use aitp_verifier_py.Text.{
  txt, text_eq, mem_text, strip_prefix, partition, split, from_bytes, full_match, utf8_point,
  utf16_point, encode,
}
use aitp_verifier_py.Json.{
  get, has, at, get_or_null, without, names, items, of_list, of_members, is_integer, int_of_float,
  is_instance, truthy, is_text, all_texts, Value, int, str, list, obj, nil, item, Members, end,
  member,
}
use aitp_verifier_py.Json.Access.{
  iterate, list_at, as_text, text_at, as_members, members_at, are_texts, to_int, int_at,
}
use aitp_verifier_py.Json.Decode.{has_duplicates, loads_text, loads}
use aitp_verifier_py.B64.{
  sextet, character, sextets, ungroup, b64url_decode, group, characters, b64url_encode,
}
use aitp_verifier_py.Crypto.{
  of_key, from_raw, p256_raw_to_der, verify_der, verify_digest, verify_jose,
}
use aitp_verifier_py.Aid.{jose_alg, algorithm_of, parse_identifier, parse_aid}
use aitp_verifier_py.Sigfield.{
  tag_alg, split_tag, raw_signature, decode_tagged_text, decode_tagged_signature,
}
use aitp_verifier_py.Fields.{
  has_extra, reject_unknown_members, reject_unknown_fields, require_members, allows, is_instance_of,
  has_type, member_has_type, check_types, canonical_bytes_of,
}
use aitp_verifier_py.Jws.{
  three_parts, as_object, on_any, parse_parts, parse_token, parse_compact, parse_aid_value,
  bad_header, verify_jws,
}
use aitp_verifier_py.Jcs.{
  hex, format_char, format_string, visit, serialize_items, serialize_members, serialize_body,
  serialize, dumps, canonicalize, format_number, sort_members,
}
use aitp_verifier_py.Revocation.{
  resolve_fail_mode, policy_of, policy_fail_mode, past_bound, snapshot_is_stale, check_entry,
  check_entries, validate_body, is_str, validate_shape, check_entry_fields, check_fields,
  check_signature, verify_snapshot_trust, names_jti, lists_jti,
}
use aitp_verifier_py.Jwk.{canonical_jwk, thumbprint}
use aitp_verifier_py.Envelope.{
  envelope_domain_tag, base64url_char, signature_body, tagged_body, signature_pattern, is_negative,
  validate_members, validate_envelope_shape, envelope_signing_input,
}
use aitp_verifier_py.Envelope.Contains.{equal}
use aitp_verifier_py.Delegation.Hops.{strings, characters_of, entries_of}
use aitp_verifier_py.Tct.{
  hex_digit, variant_digit, jti_v4, check_tct_claims_shape, check_grant_context, apply_absence,
  trusted_body, scan, consult, check_source, check_revocation, tct_codes, check_binding,
}
use aitp_verifier_py.Tct.Issuer.{
  iterate_or_empty, is_a_text, answers, first_answer, still_open, check_challenge, is_pop_response,
  read_response, check_response_signature, check_pop, presenter_from_pop, presenter_of,
  check_own_claims, verify_own_token, verify_tct_as_issuer,
}
use aitp_verifier_py.Prelude.{◌≡◌, refl, some, any, all}
use aitp_verifier_py.Prelude.Int.{pos, ◌-ℤ◌}
use aitp_verifier_py.Outcome.{ok}
use aitp_verifier_py.Examples.Toy.{toy}
use aitp_verifier_py.Examples.Tokens.{
  verifier_aid, peer_aid, tct_text, jti_text, snapshot, peer_signature,
}
use aitp_verifier_py.Tct.Presented.{
  IsAnswered, presenter_from_pop-IsAnswered, IsPresented, verify_tct_as_issuer-IsPresented,
}

abbrev response : Members
response = member (txt "version") (str (txt "aitp/0.3")) (
    member (txt "message_type") (str (txt "pop_response")) (
      member (txt "message_id") (str (txt "m")) (
        member (txt "timestamp") (int (pos 4)) (
          member (txt "sender") (obj (member (txt "agent_id") (str peer_aid) end)) (
            member (txt "payload")
              (obj (
                member (txt "tct_jti") (str jti_text) (
                  member (txt "nonce_echo") (str (txt "AAAA"))
                    (member (txt "pop_signature") (str peer_signature) end))))
              (member (txt "signature") (str peer_signature) end))))))

abbrev challenge : Members
challenge =
    member (txt "tct_jti") (str jti_text)
      (member (txt "nonce") (str (txt "AAAA")) (member (txt "expires_at") (int (pos 7)) end))

abbrev presented : Members
presented = member (txt "tct_token") (str tct_text) (
    member (txt "self_aid") (str verifier_aid) (
      member (txt "envelope") (obj response) (
        member (txt "outstanding_pop_challenges") (list (item (obj challenge) nil)) (
          member (txt "issuer_revocation_list") (obj (member (txt "snapshot") snapshot end)) end))))

abbrev held : Value
held = list (item (str (txt "g")) nil)

abbrev held_claims : Members
held_claims = member (txt "sub") (str peer_aid) (member (txt "jti") (str jti_text) end)

presented_run : verify_tct_as_issuer ⦃π = toy⦄ presented (pos 5) ≡ ok (str peer_aid, held)
unfolding any all toy ◌-ℤ◌ txt text_eq mem_text strip_prefix partition split from_bytes full_match
    utf8_point utf16_point encode get has at get_or_null without names items of_list of_members
    is_integer int_of_float is_instance truthy is_text all_texts iterate list_at as_text text_at
    as_members members_at are_texts to_int int_at has_duplicates loads_text loads sextet character
    sextets ungroup b64url_decode group characters b64url_encode of_key from_raw p256_raw_to_der
    verify_der verify_digest verify_jose jose_alg algorithm_of parse_identifier parse_aid tag_alg
    split_tag raw_signature decode_tagged_text decode_tagged_signature has_extra
    reject_unknown_members reject_unknown_fields require_members allows is_instance_of has_type
    member_has_type check_types canonical_bytes_of three_parts as_object on_any parse_parts
    parse_token parse_compact parse_aid_value bad_header verify_jws hex format_char format_string
    visit serialize_items serialize_members serialize_body serialize dumps canonicalize
    format_number sort_members resolve_fail_mode policy_of policy_fail_mode past_bound
    snapshot_is_stale check_entry check_entries validate_body is_str validate_shape
    check_entry_fields check_fields check_signature verify_snapshot_trust names_jti lists_jti
    canonical_jwk thumbprint envelope_domain_tag base64url_char signature_body tagged_body
    signature_pattern is_negative validate_members validate_envelope_shape envelope_signing_input
    strings characters_of entries_of hex_digit variant_digit jti_v4 check_tct_claims_shape
    check_grant_context apply_absence trusted_body scan consult check_source check_revocation
    tct_codes check_binding iterate_or_empty is_a_text answers first_answer still_open
    check_challenge is_pop_response read_response check_response_signature check_pop
    presenter_from_pop presenter_of check_own_claims verify_own_token verify_tct_as_issuer equal
presented_run = refl

pop_run : presenter_from_pop ⦃π = toy⦄ presented held_claims (pos 5) ≡ ok peer_aid
unfolding any all toy ◌-ℤ◌ txt text_eq mem_text strip_prefix partition from_bytes full_match
    utf8_point utf16_point encode get has at get_or_null without names items of_list of_members
    is_integer is_instance truthy is_text as_text text_at as_members members_at has_duplicates
    sextet sextets ungroup b64url_decode of_key from_raw p256_raw_to_der verify_der verify_digest
    algorithm_of parse_identifier parse_aid tag_alg split_tag raw_signature decode_tagged_text
    decode_tagged_signature has_extra reject_unknown_members require_members allows is_instance_of
    has_type member_has_type check_types canonical_bytes_of hex format_char format_string visit
    serialize_items serialize_members serialize_body serialize dumps canonicalize format_number
    sort_members envelope_domain_tag base64url_char signature_body tagged_body signature_pattern
    is_negative validate_members validate_envelope_shape envelope_signing_input strings
    characters_of entries_of hex_digit iterate_or_empty is_a_text answers first_answer still_open
    check_challenge is_pop_response read_response check_response_signature check_pop
    presenter_from_pop
pop_run = refl

verify_tct_as_issuer-IsPresented_example :
    (claims : Members) × IsPresented ⦃π = toy⦄ presented (pos 5) (str peer_aid) claims
    × (get (txt "grants") claims ≡ some held)
verify_tct_as_issuer-IsPresented_example =
    verify_tct_as_issuer-IsPresented ⦃π = toy⦄ presented (pos 5) (str peer_aid) held presented_run

presenter_from_pop-IsAnswered_example : IsAnswered ⦃π = toy⦄ presented held_claims (pos 5) peer_aid
presenter_from_pop-IsAnswered_example =
    presenter_from_pop-IsAnswered ⦃π = toy⦄ presented held_claims (pos 5) peer_aid pop_run
