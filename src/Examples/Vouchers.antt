-- ===== src/Examples/Vouchers.antt =====
-- A run of aitp_verifier/voucher.py.
use aitp_verifier_py.Text.{txt, text_eq, mem_text, subset, strip_prefix, split, from_bytes}
use aitp_verifier_py.Json.{
  get, has, at, get_or_null, names, items, of_list, of_members, is_integer, int_of_float,
  is_instance, truthy, is_text, all_texts, Value, str, list, nil, item, Members, end, member,
}
use aitp_verifier_py.Json.Access.{iterate, list_at, are_texts, to_int, int_at}
use aitp_verifier_py.Json.Decode.{has_duplicates, loads_text, loads}
use aitp_verifier_py.B64.{sextet, sextets, ungroup, b64url_decode}
use aitp_verifier_py.Crypto.{of_key, from_raw, p256_raw_to_der, verify_der, verify_jose}
use aitp_verifier_py.Aid.{jose_alg, algorithm_of, parse_identifier, parse_aid}
use aitp_verifier_py.Fields.{
  has_extra, reject_unknown_members, require_members, allows, is_instance_of, has_type,
  member_has_type, check_types,
}
use aitp_verifier_py.Jws.{
  three_parts, as_object, on_any, parse_parts, parse_token, parse_compact, parse_aid_value,
  bad_header, verify_jws,
}
use aitp_verifier_py.Voucher.{check_voucher_claims_shape, voucher_codes, verify_grant_voucher}
use aitp_verifier_py.Prelude.{◌≡◌, refl, any, all}
use aitp_verifier_py.Prelude.Int.{pos}
use aitp_verifier_py.Outcome.{ok}
use aitp_verifier_py.Examples.Toy.{toy}
use aitp_verifier_py.Examples.Tokens.{grant_text}
use aitp_verifier_py.Voucher.Sound.{IsLive, verify_grant_voucher-IsLive}

abbrev voucher_input : Members
voucher_input = member (txt "voucher_token") (str grant_text) end

abbrev granted : Value
granted = list (item (str (txt "g")) (item (str (txt "h")) nil))

voucher_run : verify_grant_voucher ⦃π = toy⦄ voucher_input (pos 5) ≡ ok granted
unfolding any all toy txt text_eq mem_text subset strip_prefix split from_bytes get has at
    get_or_null names items of_list of_members is_integer int_of_float is_instance truthy is_text
    all_texts iterate list_at are_texts to_int int_at has_duplicates loads_text loads sextet sextets
    ungroup b64url_decode of_key from_raw p256_raw_to_der verify_der verify_jose jose_alg
    algorithm_of parse_identifier parse_aid has_extra reject_unknown_members require_members allows
    is_instance_of has_type member_has_type check_types three_parts as_object on_any parse_parts
    parse_token parse_compact parse_aid_value bad_header verify_jws check_voucher_claims_shape
    voucher_codes verify_grant_voucher
voucher_run = refl

verify_grant_voucher-IsLive_example :
    (claims : Members) × IsLive ⦃π = toy⦄ voucher_input (pos 5) granted claims
verify_grant_voucher-IsLive_example =
    verify_grant_voucher-IsLive ⦃π = toy⦄ voucher_input (pos 5) granted voucher_run
