-- ===== src/Delegation/Claims.antt =====
-- The claims, the chain commitment and the voucher step of aitp_verifier/delegation.py.
use aitp_verifier_py.Prelude.{
  ℕ, Bool, true, false, not, ◌||◌, Option, none, some, List, [], ◌∷◌, if◌then◌else◌,
}
use aitp_verifier_py.Prelude.Int.{ℤ, leb_ℤ, ltb_ℤ}
use aitp_verifier_py.Text.{Text, Bytes, txt, encode, subset, in_range}
use aitp_verifier_py.Json.{
  Value, str, list, Members, get_or_null, is_text, of_list, str_type, int_type, list_type,
  dict_type,
}
use aitp_verifier_py.Json.Access.{are_texts, list_at, text_at, texts_at, members_at, int_at}
use aitp_verifier_py.Outcome.{
  Code, Result, Check, ok, raised, or_raise, raise_if, ◌>>=◌, ◌>>◌, attribute_error, unicode_error,
  token_typ_mismatch, token_alg_mismatch, delegation_invalid_signature, delegation_invalid_voucher,
  delegation_expired, delegation_scope_exceeded,
}
use aitp_verifier_py.Platform.{Platform}
use aitp_verifier_py.Fields.{Types, require_members, check_types, reject_unknown_members}
use aitp_verifier_py.B64.{b64url_encode}
use aitp_verifier_py.Jcs.{canonicalize}
use aitp_verifier_py.Jws.{Codes, parse_compact, verify_jws}
use aitp_verifier_py.Voucher.{check_voucher_claims_shape, voucher_codes, no_check}

abbrev pub delegation_claim_fields : List Text
delegation_claim_fields =
    txt "ver"
    ∷ txt "iss"
    ∷ txt "sub"
    ∷ txt "aud"
    ∷ txt "scope"
    ∷ txt "exp"
    ∷ txt "cnf"
    ∷ txt "voucher"
    ∷ txt "jti"
    ∷ txt "chain"
    ∷ txt "chain_hash"
    ∷ txt "ext"
    ∷ []

abbrev pub delegation_cnf_fields : List Text
delegation_cnf_fields = txt "jkt" ∷ []

abbrev pub delegation_required_claims : List Text
delegation_required_claims =
    txt "ver" ∷ txt "iss" ∷ txt "sub" ∷ txt "aud" ∷ txt "scope" ∷ txt "exp" ∷ txt "cnf" ∷ []

abbrev pub delegation_claim_types : Types
delegation_claim_types =
    (txt "ver", str_type ∷ [])
    ∷ (txt "iss", str_type ∷ [])
    ∷ (txt "sub", str_type ∷ [])
    ∷ (txt "aud", str_type ∷ [])
    ∷ (txt "scope", list_type ∷ [])
    ∷ (txt "exp", int_type ∷ [])
    ∷ (txt "cnf", dict_type ∷ [])
    ∷ (txt "voucher", str_type ∷ [])
    ∷ (txt "jti", str_type ∷ [])
    ∷ (txt "chain", list_type ∷ [])
    ∷ (txt "chain_hash", str_type ∷ [])
    ∷ []

-- `_check_delegation_claims_shape`
unfoldable pub check_delegation_claims_shape : Members → Code → Check
check_delegation_claims_shape claims shape_code = do
  require_members claims delegation_required_claims shape_code
  check_types claims delegation_claim_types shape_code
  scope ← list_at (txt "scope") claims
  raise_if (not (are_texts scope)) shape_code
  reject_unknown_members claims delegation_claim_fields
  cnf ← members_at (txt "cnf") claims
  reject_unknown_members cnf delegation_cnf_fields

-- `entry.encode("ascii")`
unfoldable pub ascii_point : ℕ → Option Bytes
ascii_point c = if in_range 0 0x7F c then some (c ∷ []) else none

unfoldable pub ascii_bytes : Value → Result Bytes
ascii_bytes (str s) = or_raise unicode_error (encode ascii_point s)
ascii_bytes _ = raised attribute_error

unfoldable pub is_string : Value → Bool
is_string (str s) = true
is_string _ = false

module _ ⦃π : Platform⦄ where
  unfoldable pub chain_digests : List Value → Result (List Value)
  chain_digests [] = ok []
  chain_digests (entry ∷ chain) = do
    bytes ← ascii_bytes entry
    digests ← chain_digests chain
    ok (str (b64url_encode (π.sha256 bytes)) ∷ digests)

  unfoldable pub compute_chain_hash : List Value → Result Text
  compute_chain_hash chain = do
    digests ← chain_digests chain
    canonical ← canonicalize (list (of_list digests))
    ok (b64url_encode (π.sha256 canonical))

  unfoldable pub delegation_codes : Codes
  delegation_codes = record {
    typ_err = token_typ_mismatch;
    alg_err = token_alg_mismatch;
    sig_err = delegation_invalid_signature;
  }

  -- The embedded voucher of a single-hop token or of a chain's root: the two paths run these steps
  -- in this order with these codes.
  unfoldable pub verify_root_voucher : Members → Text → ℤ → Result Members
  verify_root_voucher claims self_aid now = do
    let voucher = get_or_null (txt "voucher") claims
    raise_if (not (is_string voucher)) delegation_invalid_voucher
    parsed ← parse_compact voucher delegation_invalid_voucher
    raise_if (not (is_text self_aid (get_or_null (txt "iss") parsed.claims)))
        delegation_invalid_voucher
    vclaims ←
        verify_jws voucher (get_or_null (txt "iss") parsed.claims) (txt "aitp-grant+jwt")
          voucher_codes no_check
    check_voucher_claims_shape vclaims delegation_invalid_voucher
    iss ← text_at (txt "iss") claims
    raise_if (not (is_text iss (get_or_null (txt "sub") vclaims))) delegation_invalid_voucher
    vexp ← int_at (txt "exp") vclaims
    exp ← int_at (txt "exp") claims
    raise_if (leb_ℤ vexp now || ltb_ℤ vexp exp) delegation_expired
    scope ← texts_at (txt "scope") claims
    grants ← texts_at (txt "grants") vclaims
    raise_if (not (subset scope grants)) delegation_scope_exceeded
    ok vclaims
