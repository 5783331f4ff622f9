-- ===== src/Examples/Keys.antt =====
-- Runs of aitp_verifier/jwk.py and crypto.py on issuer keys, and of aitp_verifier/proofinput.py.
use aitp_verifier_py.Text.{txt, text_eq, mem_text, from_bytes, utf8_point, encode, Bytes}
use aitp_verifier_py.Json.{of_list, of_members, str, list, nil, item}
use aitp_verifier_py.Json.Decode.{has_duplicates}
use aitp_verifier_py.B64.{
  sextet, character, in_alphabet, sextets, ungroup, b64url_decode, group, characters,
}
use aitp_verifier_py.Crypto.{of_key, from_raw, ed25519}
use aitp_verifier_py.Aid.{jose_alg}
use aitp_verifier_py.Jwk.Issuer.{
  is_padded, kid_of, require_str, decode_jwk_member, rsa_of, from_rsa_numbers, okp_key, ec_key,
  rsa_issuer_key, key_of_type, issuer_key_from_jwk, config_key, issuer_key_from_config, visit_node,
  reserve, walk_keys, walk_jwks, walk_object, enter, issuer_keys_from, JoseKey, aid_key, rsa_key,
  IssuerKey, collect, collect_items,
}
use aitp_verifier_py.Proofinput.{pinned_key_domain, decimal_text, utf8, handshake_proof_input}
use aitp_verifier_py.Prelude.{
  ◌≡◌, refl, none, List, [], ◌∷◌, any, all, ◌≤◌, length, All, ◌^◌, replicate, ◌++◌, arith,
}
use aitp_verifier_py.Prelude.Int.{pos}
use aitp_verifier_py.Outcome.{ok, IsVerdict, on_value_error, key_resolution_failed}
use aitp_verifier_py.Examples.Toy.{toy}
use aitp_verifier_py.Examples.Tokens.{issuer_key}
use aitp_verifier_py.Jwk.Issuer.Bounds.{
  IsStructural, structural_alg, IsInRange, from_rsa_numbers-IsInRange,
}
use aitp_verifier_py.Jwk.Issuer.Caps.{issuer_keys_from-bounded}
use aitp_verifier_py.Jwk.Issuer.Boundary.{issuer_keys_from-IsVerdict}
use aitp_verifier_py.Proofinput.Framing.{handshake_proof_input-injective}
use aitp_verifier_py.Jcs.Number.{show_on, show}

abbrev keys : List (IssuerKey ⦃π = toy⦄)
unfolding toy
keys =
    record {
      kid = none;
      jose_alg = txt "EdDSA";
      public_key = aid_key (record { alg = ed25519; key = replicate 32 2 });
    }
    ∷ []

keys_run : issuer_keys_from ⦃π = toy⦄ (list (item (str issuer_key) nil)) ≡ ok keys
unfolding any all toy txt text_eq sextet character in_alphabet sextets ungroup b64url_decode group
    characters of_key from_raw jose_alg is_padded kid_of require_str decode_jwk_member rsa_of
    from_rsa_numbers okp_key ec_key rsa_issuer_key key_of_type issuer_key_from_jwk config_key
    issuer_key_from_config visit_node reserve walk_keys walk_jwks walk_object enter issuer_keys_from
    collect collect_items
keys_run = refl

issuer_keys_from-bounded_example : (length keys ≤ 64) × All (IsStructural ⦃π = toy⦄) keys
issuer_keys_from-bounded_example =
    issuer_keys_from-bounded ⦃π = toy⦄ (list (item (str issuer_key) nil)) keys keys_run

issuer_keys_from-IsVerdict_example : IsVerdict (
    on_value_error key_resolution_failed
      (issuer_keys_from ⦃π = toy⦄ (list (item (str issuer_key) nil))))
issuer_keys_from-IsVerdict_example =
    issuer_keys_from-IsVerdict ⦃π = toy⦄ key_resolution_failed (list (item (str issuer_key) nil))

-- A modulus of 2048 bits.
abbrev modulus : Bytes
modulus = 128 ∷ replicate 255 0

abbrev rsa : JoseKey ⦃π = toy⦄
unfolding toy
rsa = rsa_key (3 ∷ 2 ^ 2047 ∷ [])

rsa_run : from_rsa_numbers ⦃π = toy⦄ modulus (3 ∷ []) ≡ ok rsa
unfolding any all toy txt text_eq mem_text from_bytes of_list of_members has_duplicates is_padded
    rsa_of from_rsa_numbers
rsa_run = refl

from_rsa_numbers-IsInRange_example :
    IsInRange ⦃π = toy⦄ modulus (3 ∷ []) × (structural_alg ⦃π = toy⦄ rsa ≡ txt "RS256")
from_rsa_numbers-IsInRange_example =
    from_rsa_numbers-IsInRange ⦃π = toy⦄ modulus (3 ∷ []) rsa rsa_run

abbrev framed : Bytes
framed = txt "aitp-pinned-key-v1" ++ (0 ∷ 97 ∷ 0 ∷ 98 ∷ 0 ∷ 109 ∷ 0 ∷ 52 ∷ 0 ∷ 0 ∷ 0 ∷ 0 ∷ [])

framed_run :
    handshake_proof_input pinned_key_domain (97 ∷ []) (98 ∷ []) (109 ∷ []) (pos 4) (txt "AAAA")
    ≡ ok framed
unfolding any all toy txt text_eq utf8_point encode sextet sextets ungroup b64url_decode
    pinned_key_domain decimal_text utf8 handshake_proof_input show_on show
framed_run = refl

handshake_proof_input-injective_example :
    (utf8 (97 ∷ []) ≡ utf8 (97 ∷ []))
    × (utf8 (98 ∷ []) ≡ utf8 (98 ∷ []))
    × (utf8 (109 ∷ []) ≡ utf8 (109 ∷ []))
    × (decimal_text (pos 4) ≡ decimal_text (pos 4))
    × (b64url_decode (txt "AAAA") ≡ b64url_decode (txt "AAAA"))
handshake_proof_input-injective_example =
    handshake_proof_input-injective pinned_key_domain (97 ∷ []) (98 ∷ []) (109 ∷ []) (pos 4)
      (txt "AAAA") (97 ∷ []) (98 ∷ []) (109 ∷ []) (pos 4) (txt "AAAA") framed ((omega arith), tt)
      ((omega arith), tt) ((omega arith), tt) ((omega arith), tt) ((omega arith), tt)
      ((omega arith), tt) framed_run framed_run
