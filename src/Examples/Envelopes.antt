-- ===== src/Examples/Envelopes.antt =====
-- Runs of aitp_verifier/envelope.py.
use aitp_verifier_py.Text.{
  txt, text_eq, mem_text, subset, strip_prefix, partition, split, contains_text, from_bytes,
  full_match, utf8_point, utf16_point, encode,
}
use aitp_verifier_py.Json.{
  get, has, at, get_or_null, without, names, items, of_list, of_members, is_integer, int_of_float,
  is_instance, is_text, Value, int, float, str, obj, Members, end, member, dyadic,
}
use aitp_verifier_py.Json.Access.{iterate, as_text, text_at, as_members, members_at, to_int, int_at}
use aitp_verifier_py.Json.Decode.{has_duplicates, loads_text, loads}
use aitp_verifier_py.B64.{sextet, sextets, ungroup, b64url_decode}
use aitp_verifier_py.Crypto.{of_key, from_raw, p256_raw_to_der, verify_der, verify_digest}
use aitp_verifier_py.Aid.{algorithm_of, parse_identifier, parse_aid}
use aitp_verifier_py.Sigfield.{
  tag_alg, split_tag, raw_signature, decode_tagged_text, decode_tagged_signature,
}
use aitp_verifier_py.Fields.{
  has_extra, reject_unknown_members, require_members, allows, is_instance_of, has_type,
  member_has_type, check_types, canonical_bytes_of,
}
use aitp_verifier_py.Jws.{three_parts, as_object, on_any, parse_parts, parse_token, parse_compact}
use aitp_verifier_py.Jcs.{
  hex, format_char, format_string, visit, serialize_items, serialize_members, serialize_body,
  serialize, dumps, canonicalize, format_number, sort_members,
}
use aitp_verifier_py.Envelope.{
  envelope_domain_tag, base64url_char, signature_body, tagged_body, signature_pattern, is_negative,
  validate_members, validate_envelope_shape, timestamp_of, outside_window, envelope_signing_input,
  to_tolerance, check_sender_signature, check_signed, grants_of, check_capability, verify_envelope,
}
use aitp_verifier_py.Prelude.{◌≡◌, refl, false, some, any, all, ◌&&◌}
use aitp_verifier_py.Prelude.Int.{ℤ, pos, ◌-ℤ◌}
use aitp_verifier_py.Outcome.{ok}
use aitp_verifier_py.Examples.Toy.{toy}
use aitp_verifier_py.Examples.Tokens.{verifier_aid, zero_signature}
use aitp_verifier_py.Envelope.Sound.{IsAuthentic, verify_envelope-IsAuthentic}
use aitp_verifier_py.Envelope.Window.{verify_envelope-timeless}

abbrev envelope_at : Value → Members
envelope_at timestamp = member (txt "version") (str (txt "aitp/0.3")) (
    member (txt "message_type") (str (txt "ping")) (
      member (txt "message_id") (str (txt "m")) (
        member (txt "timestamp") timestamp (
          member (txt "sender") (obj (member (txt "agent_id") (str verifier_aid) end)) (
            member (txt "payload") (obj end)
              (member (txt "signature") (str zero_signature) end))))))

abbrev envelope_input : Value → Members
envelope_input timestamp = member (txt "envelope") (obj (envelope_at timestamp)) end

plain :
    (has (txt "active_tct") (envelope_input (int (pos 4)))
      && has (txt "requested_capability") (envelope_input (int (pos 4))))
    ≡ false
unfolding has text_eq txt
plain = refl

envelope_run : verify_envelope ⦃π = toy⦄ (envelope_input (int (pos 4))) (pos 5) ≡ ok tt
unfolding any all toy ◌-ℤ◌ txt text_eq mem_text subset strip_prefix partition split contains_text
    from_bytes full_match utf8_point utf16_point encode get has at get_or_null without names items
    of_list of_members is_integer int_of_float is_instance is_text as_text text_at as_members
    members_at to_int has_duplicates loads_text loads sextet sextets ungroup b64url_decode of_key
    from_raw p256_raw_to_der verify_der verify_digest algorithm_of parse_identifier parse_aid
    tag_alg split_tag raw_signature decode_tagged_text decode_tagged_signature has_extra
    reject_unknown_members require_members allows is_instance_of has_type member_has_type
    check_types canonical_bytes_of three_parts as_object on_any parse_parts parse_token
    parse_compact hex format_char format_string visit serialize_items serialize_members
    serialize_body serialize dumps canonicalize format_number sort_members envelope_domain_tag
    base64url_char signature_body tagged_body signature_pattern is_negative validate_members
    validate_envelope_shape timestamp_of outside_window envelope_signing_input to_tolerance
    check_sender_signature check_signed grants_of check_capability verify_envelope
envelope_run = refl

verify_envelope-IsAuthentic_example :
    (env : Members) × (get (txt "envelope") (envelope_input (int (pos 4))) ≡ some (obj env))
    × IsAuthentic ⦃π = toy⦄ env
    × (tolerance : ℤ) × (to_tolerance ⦃π = toy⦄
          (get (txt "tolerance_seconds") (envelope_input (int (pos 4))))
        ≡ ok tolerance)
    × (outside_window (get_or_null (txt "timestamp") env) (pos 5) tolerance ≡ false)
verify_envelope-IsAuthentic_example =
    verify_envelope-IsAuthentic ⦃π = toy⦄ (envelope_input (int (pos 4))) (pos 5) plain envelope_run

supplied :
    get (txt "envelope") (envelope_input (float (dyadic (pos 4) 0)))
    ≡ some (obj (envelope_at (float (dyadic (pos 4) 0))))
unfolding get text_eq txt
supplied = refl

stamped :
    get_or_null (txt "timestamp") (envelope_at (float (dyadic (pos 4) 0)))
    ≡ float (dyadic (pos 4) 0)
unfolding get_or_null get text_eq txt
stamped = refl

-- The float's run is accepted, a million seconds later too.
late_run :
    verify_envelope ⦃π = toy⦄ (envelope_input (float (dyadic (pos 4) 0))) (pos 1000000) ≡ ok tt
unfolding any all toy ◌-ℤ◌ txt text_eq mem_text subset strip_prefix partition split contains_text
    from_bytes full_match utf8_point utf16_point encode get has at get_or_null without names items
    of_list of_members is_integer int_of_float is_instance is_text iterate as_text text_at
    as_members members_at to_int int_at has_duplicates loads_text loads sextet sextets ungroup
    b64url_decode of_key from_raw p256_raw_to_der verify_der verify_digest algorithm_of
    parse_identifier parse_aid tag_alg split_tag raw_signature decode_tagged_text
    decode_tagged_signature has_extra reject_unknown_members require_members allows is_instance_of
    has_type member_has_type check_types canonical_bytes_of three_parts as_object on_any parse_parts
    parse_token parse_compact hex format_char format_string visit serialize_items serialize_members
    serialize_body serialize dumps canonicalize format_number sort_members envelope_domain_tag
    base64url_char signature_body tagged_body signature_pattern is_negative validate_members
    validate_envelope_shape timestamp_of outside_window envelope_signing_input to_tolerance
    check_sender_signature check_signed grants_of check_capability verify_envelope
late_run = refl

verify_envelope-timeless_example :
    verify_envelope ⦃π = toy⦄ (envelope_input (float (dyadic (pos 4) 0))) (pos 5)
    ≡ verify_envelope ⦃π = toy⦄ (envelope_input (float (dyadic (pos 4) 0))) (pos 1000000)
verify_envelope-timeless_example =
    verify_envelope-timeless ⦃π = toy⦄ (envelope_input (float (dyadic (pos 4) 0)))
      (envelope_at (float (dyadic (pos 4) 0))) (dyadic (pos 4) 0) (pos 5) (pos 1000000) supplied
      stamped
