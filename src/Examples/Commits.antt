-- ===== src/Examples/Commits.antt =====
-- Runs of the second round of aitp_verifier/handshake.py and of aitp_verifier/verify.py.
use aitp_verifier_py.Text.{
  txt, text_eq, mem_text, subset, strip_prefix, split, from_bytes, full_match, Text,
}
use aitp_verifier_py.Json.{
  get, has, at, get_or_null, names, items, of_list, of_members, is_integer, int_of_float,
  is_instance, truthy, is_text, all_texts, Value, str, list, obj, nil, item, Members, end, member,
}
use aitp_verifier_py.Json.Access.{
  iterate, list_at, as_text, text_at, as_members, members_at, are_texts, texts_at, to_int, int_at,
}
use aitp_verifier_py.Json.Decode.{has_duplicates, loads_text, loads}
use aitp_verifier_py.B64.{
  sextet, character, sextets, ungroup, b64url_decode, group, characters, b64url_encode,
}
use aitp_verifier_py.Crypto.{
  of_key, from_raw, p256_raw_to_der, verify_der, verify_digest, verify_jose,
}
use aitp_verifier_py.Aid.{jose_alg, algorithm_of, parse_identifier, parse_aid}
use aitp_verifier_py.Fields.{
  has_extra, reject_unknown_members, require_members, allows, is_instance_of, has_type,
  member_has_type, check_types,
}
use aitp_verifier_py.Jws.{
  three_parts, as_object, on_any, parse_parts, parse_token, parse_compact, parse_aid_value,
  bad_header, verify_jws,
}
use aitp_verifier_py.Jwk.{canonical_jwk, thumbprint}
use aitp_verifier_py.Manifest.{texts_in}
use aitp_verifier_py.Delegation.Hops.{characters_of}
use aitp_verifier_py.Tct.{
  hex_digit, variant_digit, jti_v4, check_tct_claims_shape, check_grant_context, other_audience,
  tct_codes, check_binding, verify_token,
}
use aitp_verifier_py.Handshake.Commit.{
  get_object, get_member, envelope_sender, self_nonce, last_part, decode_nonce, is_unhashable,
  offered_set, check_offered, commit_sender, check_round_two, check_commit_claims,
  verify_commit_members, verify_commit,
}
use aitp_verifier_py.Dispatch.{
  look_up_sets, sets_or_empty_set, missing_of, none_missing, is_better, best_of, sized, first_name,
  first_of_best, missing_in, missing_argument, required_arguments,
}
use aitp_verifier_py.Prelude.{◌≡◌, refl, false, none, some, any, all, AnyOf, ◌↔◌}
use aitp_verifier_py.Prelude.Int.{pos}
use aitp_verifier_py.Outcome.{ok}
use aitp_verifier_py.Examples.Toy.{toy}
use aitp_verifier_py.Examples.Tokens.{verifier_aid, peer_aid, zero_signature, tct_text}
use aitp_verifier_py.Handshake.Commit.Sound.{IsCommitted, verify_commit-IsCommitted}
use aitp_verifier_py.Dispatch.Arguments.{IsComplete, missing_argument-IsComplete}

abbrev payload : Members
payload = member (txt "tct") (str tct_text) (member (txt "pop_signature") (str zero_signature) end)

abbrev inp : Members
inp = member (txt "self_pop_nonce") (str (txt "AAAA")) (
    member (txt "issuer_offered_capabilities") (list (item (str (txt "g")) nil)) (
      member (txt "envelope")
        (obj (member (txt "sender") (obj (member (txt "agent_id") (str verifier_aid) end)) end))
        end))

abbrev held : Value
held = list (item (str (txt "g")) nil)

commit_run : verify_commit ⦃π = toy⦄ inp (obj payload) (str peer_aid) (pos 5) ≡ ok held
unfolding any all toy txt text_eq mem_text subset strip_prefix split from_bytes full_match get has
    at get_or_null names items of_list of_members is_integer int_of_float is_instance truthy is_text
    all_texts iterate list_at as_text text_at as_members members_at are_texts texts_at to_int int_at
    has_duplicates loads_text loads sextet character sextets ungroup b64url_decode group characters
    b64url_encode of_key from_raw p256_raw_to_der verify_der verify_digest verify_jose jose_alg
    algorithm_of parse_identifier parse_aid has_extra reject_unknown_members require_members allows
    is_instance_of has_type member_has_type check_types three_parts as_object on_any parse_parts
    parse_token parse_compact parse_aid_value bad_header verify_jws canonical_jwk thumbprint
    texts_in characters_of hex_digit variant_digit jti_v4 check_tct_claims_shape check_grant_context
    other_audience tct_codes check_binding verify_token get_object get_member envelope_sender
    self_nonce last_part decode_nonce is_unhashable offered_set check_offered commit_sender
    check_round_two check_commit_claims verify_commit_members verify_commit
commit_run = refl

verify_commit-IsCommitted_example :
    (m : Members) × (obj payload ≡ obj m)
    × (claims : Members) × IsCommitted ⦃π = toy⦄ inp m (str peer_aid) (pos 5) claims
    × (get (txt "grants") claims ≡ some held)
verify_commit-IsCommitted_example =
    verify_commit-IsCommitted ⦃π = toy⦄ inp (obj payload) (str peer_aid) (pos 5) held commit_run

abbrev peer_request : Members
peer_request = member (txt "peer_b") (obj end) end

-- Of a request that has begun the second argument set, the other name of that set is missing.
missing_run : missing_argument (txt "verify_handshake_payload") peer_request ≡ some (txt "peer_a")
unfolding missing_argument missing_in look_up_sets sets_or_empty_set missing_of none_missing
    is_better best_of sized first_of_best first_name any has text_eq txt
missing_run = refl

missing_argument-IsComplete_example :
    ((missing_argument (txt "verify_handshake_payload") peer_request ≡ none)
      ↔ AnyOf
          (IsComplete peer_request)
          (sets_or_empty_set (look_up_sets (txt "verify_handshake_payload") required_arguments)))
    × ((a : Text)
        → missing_argument (txt "verify_handshake_payload") peer_request ≡ some a
        → has a peer_request ≡ false)
missing_argument-IsComplete_example =
    missing_argument-IsComplete (txt "verify_handshake_payload") peer_request
