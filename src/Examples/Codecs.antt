-- ===== src/Examples/Codecs.antt =====
-- Runs of aitp_verifier/jws.py, jcs.py, crypto.py and b64.py.
use aitp_verifier_py.Text.{
  txt, text_eq, mem_text, strip_prefix, partition, split, from_bytes, utf8_point, utf16_point,
  encode, Bytes,
}
use aitp_verifier_py.Json.{
  get, has, get_or_null, names, items, of_list, of_members, is_text, Value, bool, str, list, nil,
  item, Members, end, member,
}
use aitp_verifier_py.Json.Decode.{has_duplicates, loads_text, loads}
use aitp_verifier_py.B64.{sextet, sextets, ungroup, b64url_decode, b64url_encode}
use aitp_verifier_py.Crypto.{
  of_key, from_raw, p256_raw_to_der, verify_der, verify_digest, verify_jose, p256, PublicKey,
  p256_n,
}
use aitp_verifier_py.Aid.{jose_alg, algorithm_of, parse_identifier, parse_aid}
use aitp_verifier_py.Fields.{has_extra}
use aitp_verifier_py.Jws.{
  three_parts, as_object, on_any, parse_parts, parse_token, parse_compact, parse_aid_value,
  bad_header, verify_jws, Codes, ParsedJws,
}
use aitp_verifier_py.Jcs.{
  hex, format_char, format_string, visit, serialize_items, serialize_members, serialize_body,
  serialize, dumps, canonicalize, format_number, sort_members, max_depth, max_nodes_visited,
}
use aitp_verifier_py.Prelude.{
  ◌≡◌, refl, true, false, [], ◌∷◌, any, all, ◌≤◌, ◌-◌, inl, replicate, ◌++◌, arith,
}
use aitp_verifier_py.Prelude.Int.{◌-ℤ◌}
use aitp_verifier_py.Outcome.{
  ok, IsVerdict, returned, raised, unicode_error, value_error, tct_signature_invalid,
  token_typ_mismatch, token_alg_mismatch,
}
use aitp_verifier_py.Examples.Toy.{toy}
use aitp_verifier_py.Examples.Tokens.{small_text, signed_part, verifier_aid}
use aitp_verifier_py.Crypto.LowS.{s_of, verify-no_twin}
use aitp_verifier_py.Jws.Sound.{Verifies, Parses, verify_jws-Verifies, parse_compact-Parses}
use aitp_verifier_py.Jws.Boundary.{verify_jws-IsVerdict}
use aitp_verifier_py.Voucher.{no_check}
use aitp_verifier_py.B64.RoundTrip.{b64url_decode-b64url_encode}
use aitp_verifier_py.Jcs.Caps.{nodes, height, canonicalize-caps}

abbrev claims : Members
claims = member (txt "iss") (str verifier_aid) end

abbrev parsed : ParsedJws
parsed = record {
  header = member (txt "alg") (str (txt "EdDSA")) (member (txt "typ") (str (txt "t")) end);
  claims = claims;
  signing_input = signed_part;
  signature = replicate 64 0;
}

abbrev codes : Codes ⦃π = toy⦄
codes = record {
  typ_err = token_typ_mismatch;
  alg_err = token_alg_mismatch;
  sig_err = tct_signature_invalid;
}

parse_run : parse_compact ⦃π = toy⦄ (str small_text) tct_signature_invalid ≡ ok parsed
unfolding any all toy txt text_eq mem_text split of_list of_members has_duplicates loads_text loads
    sextet sextets ungroup b64url_decode three_parts as_object on_any parse_parts parse_token
    parse_compact
parse_run = refl

jws_run :
    verify_jws ⦃π = toy⦄ (str small_text) (str verifier_aid) (txt "t") codes no_check ≡ ok claims
unfolding any all toy txt text_eq mem_text strip_prefix split from_bytes get has get_or_null names
    of_list of_members is_text has_duplicates loads_text loads sextet sextets ungroup b64url_decode
    of_key from_raw p256_raw_to_der verify_der verify_jose jose_alg algorithm_of parse_identifier
    parse_aid has_extra three_parts as_object on_any parse_parts parse_token parse_compact
    parse_aid_value bad_header verify_jws
jws_run = refl

issuer_IsVerdict : IsVerdict (parse_aid_value ⦃π = toy⦄ (str verifier_aid))
unfolding any all toy txt text_eq strip_prefix sextet sextets ungroup b64url_decode of_key from_raw
    algorithm_of parse_identifier parse_aid parse_aid_value
issuer_IsVerdict = returned _

parse_compact-Parses_example : Parses ⦃π = toy⦄ (str small_text) parsed
parse_compact-Parses_example =
    parse_compact-Parses ⦃π = toy⦄ (str small_text) tct_signature_invalid parsed parse_run

verify_jws-Verifies_example :
    Verifies ⦃π = toy⦄ (str small_text) (str verifier_aid) (txt "t") no_check claims
verify_jws-Verifies_example =
    verify_jws-Verifies ⦃π = toy⦄ (str small_text) (str verifier_aid) (txt "t") codes no_check
      claims jws_run

verify_jws-IsVerdict_example :
    IsVerdict (verify_jws ⦃π = toy⦄ (str small_text) (str verifier_aid) (txt "t") codes no_check)
verify_jws-IsVerdict_example =
    verify_jws-IsVerdict ⦃π = toy⦄ (str small_text) (str verifier_aid) (txt "t") codes no_check
      (λ m. returned tt) (λ m p. issuer_IsVerdict)

abbrev key : PublicKey ⦃π = toy⦄
unfolding toy
key = record { alg = p256; key = 1 ∷ 1 ∷ [] }

abbrev low : Bytes
low = replicate 31 0 ++ (1 ∷ (replicate 31 0 ++ (1 ∷ [])))

abbrev high : Bytes
high =
    replicate 31 0
    ++ (1 ∷ 255 ∷ 255 ∷ 255 ∷ 255 ∷ 0 ∷ 0 ∷ 0 ∷ 0 ∷ 255 ∷ 255 ∷ 255 ∷ 255 ∷ 255 ∷ 255 ∷ 255 ∷ 255
        ∷ 188 ∷ 230 ∷ 250 ∷ 173 ∷ 167 ∷ 23 ∷ 158 ∷ 132 ∷ 243 ∷ 185 ∷ 202 ∷ 194 ∷ 252 ∷ 99 ∷ 37 ∷ 80
        ∷ [])

low_run : verify_digest ⦃π = toy⦄ key [] low ≡ true
unfolding any all toy txt text_eq from_bytes p256_raw_to_der verify_der verify_digest
low_run = refl

key_alg : key.alg ≡ p256
unfolding key toy
key_alg = refl

is_twin : s_of high ≡ p256_n - s_of low
unfolding from_bytes
is_twin = refl

verify-no_twin_example :
    (verify_digest ⦃π = toy⦄ key [] high ≡ false) × (verify_jose ⦃π = toy⦄ key [] high ≡ false)
verify-no_twin_example = verify-no_twin ⦃π = toy⦄ key [] [] low high key_alg (inl low_run) is_twin

b64url_decode-b64url_encode_example :
    b64url_decode (b64url_encode (0 ∷ 255 ∷ [])) ≡ ok (0 ∷ 255 ∷ [])
b64url_decode-b64url_encode_example =
    b64url_decode-b64url_encode (0 ∷ 255 ∷ []) (omega arith, (omega arith, tt))

abbrev small : Value
small = list (item (bool true) (item (str (txt "a")) nil))

small_run : canonicalize ⦃π = toy⦄ small ≡ ok (txt "[true,\"a\"]")
unfolding any all toy ◌-ℤ◌ txt text_eq mem_text partition utf8_point utf16_point encode items
    of_list of_members has_duplicates hex format_char format_string visit serialize_items
    serialize_members serialize_body serialize dumps canonicalize format_number sort_members
small_run = refl

-- A lone surrogate has no UTF-8 form.
surrogate_run : canonicalize ⦃π = toy⦄ (str (0xD800 ∷ [])) ≡ raised unicode_error
unfolding any all toy ◌-ℤ◌ txt text_eq mem_text partition utf8_point utf16_point encode has items
    of_list of_members has_duplicates hex format_char format_string visit serialize_items
    serialize_members serialize_body serialize dumps canonicalize format_number sort_members
surrogate_run = refl

-- An issuer that is no AID is an uncaught `ValueError`.
stray_run :
    verify_jws ⦃π = toy⦄ (str small_text) (str (txt "x")) (txt "t") codes no_check
    ≡ raised value_error
unfolding any all toy txt text_eq mem_text strip_prefix split from_bytes get has get_or_null names
    of_list of_members is_text has_duplicates loads_text loads sextet sextets ungroup b64url_decode
    of_key from_raw p256_raw_to_der verify_der verify_jose jose_alg algorithm_of parse_identifier
    parse_aid has_extra three_parts as_object on_any parse_parts parse_token parse_compact
    parse_aid_value bad_header verify_jws
stray_run = refl

canonicalize-caps_example : (height small ≤ max_depth) × (nodes small ≤ max_nodes_visited)
canonicalize-caps_example = canonicalize-caps ⦃π = toy⦄ small (txt "[true,\"a\"]") small_run
