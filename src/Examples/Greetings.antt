-- ===== src/Examples/Greetings.antt =====
-- Runs of aitp_verifier/identity.py and of the first round of aitp_verifier/handshake.py.
use aitp_verifier_py.Handshake.Sound.{IsAgreed, verify_handshake_payload-IsAgreed}
use aitp_verifier_py.Text.{
  txt, text_eq, mem_text, subset, strip_prefix, partition, split, contains_text, from_bytes,
  full_match, utf8_point, utf16_point, encode, Text,
}
use aitp_verifier_py.Json.{
  get, has, at, get_or_null, without, names, items, of_list, of_members, is_integer, int_of_float,
  is_instance, truthy, is_text, all_texts, Value, int, str, list, obj, nil, item, Members, end,
  member,
}
use aitp_verifier_py.Json.Access.{
  iterate, list_at, as_text, text_at, as_members, members_at, are_texts, texts_at, to_int, int_at,
}
use aitp_verifier_py.Json.Decode.{has_duplicates, loads_text, loads}
use aitp_verifier_py.B64.{
  sextet, character, in_alphabet, sextets, ungroup, b64url_decode, group, characters, b64url_encode,
}
use aitp_verifier_py.Crypto.{
  of_key, from_raw, p256_raw_to_der, verify_der, verify_digest, verify_jose,
}
use aitp_verifier_py.Aid.{jose_alg, algorithm_of, parse_identifier, parse_aid}
use aitp_verifier_py.Sigfield.{
  tag_alg, split_tag, raw_signature, decode_tagged_text, decode_tagged_signature,
}
use aitp_verifier_py.Fields.{
  has_extra, reject_unknown_members, require_members, allows, is_instance_of, has_type,
  member_has_type, check_types, canonical_bytes_of,
}
use aitp_verifier_py.Jws.{
  three_parts, as_object, on_any, parse_parts, parse_token, parse_compact, parse_aid_value,
  bad_header, verify_jws,
}
use aitp_verifier_py.Jcs.{
  hex, format_char, format_string, visit, serialize_items, serialize_members, serialize_body,
  serialize, dumps, canonicalize, format_number, sort_members,
}
use aitp_verifier_py.Jwk.{canonical_jwk, thumbprint}
use aitp_verifier_py.Envelope.{
  envelope_domain_tag, base64url_char, signature_body, tagged_body, signature_pattern, is_negative,
  validate_members, validate_envelope_shape, envelope_signing_input,
}
use aitp_verifier_py.Regex.{nullable, follow, either, derive, matches}
use aitp_verifier_py.Manifest.Uri.{
  letter, digit, hex_char, uri_pct, uri_safe, uri_pchar, uri_path_rest, uri_userinfo, uri_host,
  uri_authority, uri_hier_part, uri_tail, uri_pattern, uri_ip_future, ip_literal,
  literal_is_address, is_uri, white_space, capability_pattern, spiffe_char, spiffe_word,
  trust_domain_char, spiffe_segment, spiffe_hint_subject, aid_pattern,
}
use aitp_verifier_py.Manifest.{
  shape, item_passes, no_repeats, texts_in, items_of, check_array, below_one, long_name,
  challenge_pattern, public_key_pattern, starts_with, check_bounds, check_oidc_hint,
  check_spiffe_hint, check_hint_type, outside_rule, manifest_input, validate_grammar,
  validate_identity_hint, manifest_clock, check_version, check_possession, check_manifest_signature,
  check_manifest, verify_manifest,
}
use aitp_verifier_py.Jwk.Issuer.{
  is_padded, kid_of, require_str, decode_jwk_member, rsa_of, from_rsa_numbers, verify_idp_token,
  okp_key, ec_key, rsa_issuer_key, key_of_type, issuer_key_from_jwk, config_key,
  issuer_key_from_config, visit_node, reserve, walk_keys, walk_jwks, walk_object, enter,
  issuer_keys_from, collect, collect_items,
}
use aitp_verifier_py.Proofinput.{pinned_key_domain, decimal_text, utf8, handshake_proof_input}
use aitp_verifier_py.Identity.{key_of, same_entry, entry_of_text, trust_store_entry, is_trusted}
use aitp_verifier_py.Identity.Pinned.{
  item_at, string_of, store_of, check_own_key, pinned_key_proof_input, read_pinned, check_proof,
  verify_pinned_key,
}
use aitp_verifier_py.Identity.Oidc.{
  is_set, require_text, allowed_alg, keys_for, is_future, is_recent, is_other, pop_nonce_of, jkt_of,
  has_kid, proof_of, with_kid, only_one, select_issuer_key, some_candidate, check_token_signature,
  check_identity_claims, verify_oidc,
}
use aitp_verifier_py.Identity.Binding.{verify_core_type, verify_identity}
use aitp_verifier_py.Delegation.Hops.{characters_of}
use aitp_verifier_py.Tct.{
  hex_digit, variant_digit, jti_v4, check_tct_claims_shape, check_grant_context, other_audience,
  tct_codes, check_binding, verify_token,
}
use aitp_verifier_py.Handshake.Commit.{
  get_object, get_member, envelope_sender, self_nonce, last_part, decode_nonce, is_unhashable,
  offered_set, check_offered, commit_sender, check_round_two, check_commit_claims,
  verify_commit_members, verify_commit,
}
use aitp_verifier_py.Handshake.Bootstrap.{
  allowed_fields, string_list, accepted_types, configured_bundles, spiffe_bundles_of, policy_in,
  is_accepted, check_peer, check_echo, check_hello_payload, check_hint, check_envelope_signature,
  check_identity, verify_bootstrap,
}
use aitp_verifier_py.Handshake.{
  received_payload, side_members, verify_side, verify_sides, verify_message,
  verify_handshake_payload, greeted,
}
use aitp_verifier_py.Prelude.{◌≡◌, refl, [], ◌∷◌, any, all}
use aitp_verifier_py.Prelude.Int.{ℤ, pos, ◌-ℤ◌}
use aitp_verifier_py.Outcome.{Check, ok}
use aitp_verifier_py.Examples.Toy.{toy}
use aitp_verifier_py.Examples.Tokens.{
  verifier_aid, peer_aid, peer_key, issuer_key, identity_text, manifest_of, pinned_hint,
  peer_signature,
}
use aitp_verifier_py.Envelope.Contains.{in_items, contains, equal}
use aitp_verifier_py.Jcs.Number.{show_on, show}
use aitp_verifier_py.Identity.Oidc.Sound.{IsOidcBound, verify_oidc-IsOidcBound}
use aitp_verifier_py.Identity.Pinned.Sound.{IsPinned, verify_pinned_key-IsPinned}
use aitp_verifier_py.Handshake.Bootstrap.Sound.{IsGreeting, verify_bootstrap-IsGreeting}

abbrev no_spiffe : Members → Members → Value → Value → ℤ → Check
no_spiffe identity envelope self_aid bundles now = ok tt

abbrev identity : Members
identity = member (txt "type") (str (txt "pinned_key")) (
    member (txt "subject") (str (txt "s"))
      (member (txt "public_key") (str peer_key) (member (txt "proof") (str peer_signature) end)))

abbrev payload_with : Text → Members
payload_with signature = member (txt "identity") (obj identity) (
    member (txt "manifest")
      (obj (
        member (txt "signature") (str signature)
          (without (txt "signature") (manifest_of peer_aid peer_signature (pinned_hint peer_key)))))
      (member (txt "requested_grants") (list nil)
        (member (txt "pop_nonce") (str (txt "AAAA")) end)))

abbrev sender : Members
sender = member (txt "agent_id") (str peer_aid) end

abbrev hello_with : Text → Members
hello_with signature = member (txt "version") (str (txt "aitp/0.3")) (
    member (txt "message_type") (str (txt "mutual_hello")) (
      member (txt "message_id") (str (txt "m")) (
        member (txt "timestamp") (int (pos 4)) (
          member (txt "sender") (obj sender) (
            member (txt "payload") (obj (payload_with signature))
              (member (txt "signature") (str peer_signature) end))))))

abbrev policy : Members
policy = member (txt "self_aid") (str verifier_aid) (
    member (txt "trust_store") (list (item (str peer_aid) nil))
      (member (txt "self_accepted_identity_types") (list (item (str (txt "pinned_key")) nil)) end))

pinned_run :
    verify_pinned_key ⦃π = toy⦄ identity
      (hello_with peer_signature)
      (str verifier_aid)
      (list (item (str peer_aid) nil))
    ≡ ok tt
unfolding any all toy txt text_eq mem_text strip_prefix partition from_bytes utf8_point encode get
    has at get_or_null without items of_list of_members int_of_float to_int has_duplicates sextet
    sextets ungroup b64url_decode of_key from_raw p256_raw_to_der verify_der verify_digest
    algorithm_of parse_identifier parse_aid tag_alg split_tag raw_signature decode_tagged_text
    decode_tagged_signature parse_aid_value pinned_key_domain decimal_text utf8
    handshake_proof_input key_of same_entry entry_of_text trust_store_entry is_trusted item_at
    string_of store_of check_own_key pinned_key_proof_input read_pinned check_proof
    verify_pinned_key hex_digit show_on show
pinned_run = refl

verify_pinned_key-IsPinned_example :
    IsPinned ⦃π = toy⦄ identity
      (hello_with peer_signature)
      (str verifier_aid)
      (list (item (str peer_aid) nil))
verify_pinned_key-IsPinned_example =
    verify_pinned_key-IsPinned ⦃π = toy⦄ identity (hello_with peer_signature) (str verifier_aid)
      (list (item (str peer_aid) nil)) pinned_run

abbrev oidc : Members
oidc = member (txt "type") (str (txt "oidc")) (
    member (txt "issuer") (str (txt "i"))
      (member (txt "subject") (str (txt "s")) (member (txt "proof") (str identity_text) end)))

abbrev issuer_keys : Value
issuer_keys = obj (member (txt "i") (str issuer_key) end)

oidc_run :
    verify_oidc ⦃π = toy⦄ oidc
      (hello_with peer_signature)
      (str verifier_aid)
      (txt "i" ∷ [])
      issuer_keys
      (pos 5)
    ≡ ok tt
unfolding any all toy ◌-ℤ◌ txt text_eq mem_text strip_prefix split from_bytes get has at get_or_null
    without names of_list of_members truthy is_text has_duplicates loads_text loads sextet character
    in_alphabet sextets ungroup b64url_decode group characters b64url_encode of_key from_raw
    p256_raw_to_der verify_der jose_alg algorithm_of parse_identifier parse_aid three_parts
    as_object on_any parse_parts parse_token parse_compact parse_aid_value canonical_jwk thumbprint
    is_padded kid_of require_str decode_jwk_member rsa_of from_rsa_numbers verify_idp_token okp_key
    ec_key rsa_issuer_key key_of_type issuer_key_from_jwk config_key issuer_key_from_config
    visit_node reserve walk_keys walk_jwks walk_object enter issuer_keys_from item_at is_set
    require_text allowed_alg keys_for is_future is_recent is_other pop_nonce_of jkt_of has_kid
    proof_of with_kid only_one select_issuer_key some_candidate check_token_signature
    check_identity_claims verify_oidc hex_digit equal collect collect_items
oidc_run = refl

verify_oidc-IsOidcBound_example :
    IsOidcBound ⦃π = toy⦄ oidc
      (hello_with peer_signature)
      (str verifier_aid)
      (txt "i" ∷ [])
      issuer_keys
      (pos 5)
verify_oidc-IsOidcBound_example =
    verify_oidc-IsOidcBound ⦃π = toy⦄ oidc (hello_with peer_signature) (str verifier_aid)
      (txt "i" ∷ []) issuer_keys (pos 5) oidc_run

hello_run :
    verify_bootstrap ⦃π = toy⦄ no_spiffe policy
      (hello_with peer_signature)
      (txt "mutual_hello")
      (pos 5)
    ≡ ok tt
unfolding any all toy ◌-ℤ◌ txt text_eq mem_text strip_prefix partition split contains_text
    from_bytes full_match utf8_point utf16_point encode get has at get_or_null without names items
    of_list of_members is_integer int_of_float is_instance truthy is_text iterate as_text text_at
    as_members members_at to_int int_at has_duplicates loads_text loads sextet character in_alphabet
    sextets ungroup b64url_decode group characters b64url_encode of_key from_raw p256_raw_to_der
    verify_der verify_digest jose_alg algorithm_of parse_identifier parse_aid tag_alg split_tag
    raw_signature decode_tagged_text decode_tagged_signature has_extra reject_unknown_members
    require_members allows is_instance_of has_type member_has_type check_types canonical_bytes_of
    three_parts as_object on_any parse_parts parse_token parse_compact parse_aid_value hex
    format_char format_string visit serialize_items serialize_members serialize_body serialize dumps
    canonicalize format_number sort_members canonical_jwk thumbprint envelope_domain_tag
    base64url_char signature_body tagged_body signature_pattern is_negative envelope_signing_input
    nullable follow either derive matches letter digit hex_char uri_pct uri_safe uri_pchar
    uri_path_rest uri_userinfo uri_host uri_authority uri_hier_part uri_tail uri_pattern
    uri_ip_future ip_literal literal_is_address is_uri white_space capability_pattern spiffe_char
    spiffe_word trust_domain_char spiffe_segment spiffe_hint_subject aid_pattern shape item_passes
    no_repeats texts_in items_of check_array below_one long_name challenge_pattern
    public_key_pattern starts_with check_bounds check_oidc_hint check_spiffe_hint check_hint_type
    outside_rule manifest_input validate_grammar validate_identity_hint manifest_clock check_version
    check_possession check_manifest_signature check_manifest verify_manifest is_padded kid_of
    require_str decode_jwk_member rsa_of from_rsa_numbers verify_idp_token okp_key ec_key
    rsa_issuer_key key_of_type issuer_key_from_jwk config_key issuer_key_from_config visit_node
    reserve walk_keys walk_jwks walk_object enter issuer_keys_from pinned_key_domain decimal_text
    utf8 handshake_proof_input key_of same_entry entry_of_text trust_store_entry is_trusted item_at
    string_of store_of check_own_key pinned_key_proof_input read_pinned check_proof
    verify_pinned_key is_set require_text allowed_alg keys_for is_future is_recent is_other
    pop_nonce_of jkt_of has_kid proof_of with_kid only_one select_issuer_key some_candidate
    check_token_signature check_identity_claims verify_oidc verify_core_type verify_identity
    hex_digit allowed_fields string_list accepted_types configured_bundles spiffe_bundles_of
    policy_in is_accepted check_peer check_echo check_hello_payload check_hint
    check_envelope_signature check_identity verify_bootstrap equal contains in_items collect
    collect_items show_on show
hello_run = refl

greeting_run :
    verify_handshake_payload ⦃π = toy⦄ no_spiffe
      (member (txt "envelope") (obj (hello_with peer_signature)) policy)
      (pos 5)
    ≡ ok greeted
unfolding any all toy ◌-ℤ◌ txt text_eq mem_text subset strip_prefix partition split contains_text
    from_bytes full_match utf8_point utf16_point encode get has at get_or_null without names items
    of_list of_members is_integer int_of_float is_instance truthy is_text all_texts iterate list_at
    as_text text_at as_members members_at are_texts texts_at to_int int_at has_duplicates loads_text
    loads sextet character in_alphabet sextets ungroup b64url_decode group characters b64url_encode
    of_key from_raw p256_raw_to_der verify_der verify_digest verify_jose jose_alg algorithm_of
    parse_identifier parse_aid tag_alg split_tag raw_signature decode_tagged_text
    decode_tagged_signature has_extra reject_unknown_members require_members allows is_instance_of
    has_type member_has_type check_types canonical_bytes_of three_parts as_object on_any parse_parts
    parse_token parse_compact parse_aid_value bad_header verify_jws hex format_char format_string
    visit serialize_items serialize_members serialize_body serialize dumps canonicalize
    format_number sort_members canonical_jwk thumbprint envelope_domain_tag base64url_char
    signature_body tagged_body signature_pattern is_negative validate_members
    validate_envelope_shape envelope_signing_input nullable follow either derive matches letter
    digit hex_char uri_pct uri_safe uri_pchar uri_path_rest uri_userinfo uri_host uri_authority
    uri_hier_part uri_tail uri_pattern uri_ip_future ip_literal literal_is_address is_uri
    white_space capability_pattern spiffe_char spiffe_word trust_domain_char spiffe_segment
    spiffe_hint_subject aid_pattern shape item_passes no_repeats texts_in items_of check_array
    below_one long_name challenge_pattern public_key_pattern starts_with check_bounds
    check_oidc_hint check_spiffe_hint check_hint_type outside_rule manifest_input validate_grammar
    validate_identity_hint manifest_clock check_version check_possession check_manifest_signature
    check_manifest verify_manifest is_padded kid_of require_str decode_jwk_member rsa_of
    from_rsa_numbers verify_idp_token okp_key ec_key rsa_issuer_key key_of_type issuer_key_from_jwk
    config_key issuer_key_from_config visit_node reserve walk_keys walk_jwks walk_object enter
    issuer_keys_from pinned_key_domain decimal_text utf8 handshake_proof_input key_of same_entry
    entry_of_text trust_store_entry is_trusted item_at string_of store_of check_own_key
    pinned_key_proof_input read_pinned check_proof verify_pinned_key is_set require_text allowed_alg
    keys_for is_future is_recent is_other pop_nonce_of jkt_of has_kid proof_of with_kid only_one
    select_issuer_key some_candidate check_token_signature check_identity_claims verify_oidc
    verify_core_type verify_identity characters_of hex_digit variant_digit jti_v4
    check_tct_claims_shape check_grant_context other_audience tct_codes check_binding verify_token
    get_object get_member envelope_sender self_nonce last_part decode_nonce is_unhashable
    offered_set check_offered commit_sender check_round_two check_commit_claims
    verify_commit_members verify_commit allowed_fields string_list accepted_types configured_bundles
    spiffe_bundles_of policy_in is_accepted check_peer check_echo check_hello_payload check_hint
    check_envelope_signature check_identity verify_bootstrap received_payload side_members
    verify_side verify_sides verify_message verify_handshake_payload equal contains in_items collect
    collect_items show_on show
greeting_run = refl

verify_handshake_payload-IsAgreed_example :
    IsAgreed ⦃π = toy⦄ no_spiffe
      (member (txt "envelope") (obj (hello_with peer_signature)) policy)
      (pos 5)
      greeted
verify_handshake_payload-IsAgreed_example =
    verify_handshake_payload-IsAgreed ⦃π = toy⦄ no_spiffe
      (member (txt "envelope") (obj (hello_with peer_signature)) policy) (pos 5) greeted
      greeting_run

verify_bootstrap-IsGreeting_example :
    IsGreeting ⦃π = toy⦄ no_spiffe policy (hello_with peer_signature) (txt "mutual_hello") (pos 5)
verify_bootstrap-IsGreeting_example =
    verify_bootstrap-IsGreeting ⦃π = toy⦄ no_spiffe policy (hello_with peer_signature)
      (txt "mutual_hello") (pos 5) hello_run
