-- ===== src/Voucher.antt =====
-- aitp_verifier/voucher.py: grant vouchers (RFC-AITP-0005 §8).
pub mod Sound
use aitp_verifier_py.Prelude.{not, List, [], ◌∷◌}
use aitp_verifier_py.Prelude.Int.{ℤ, leb_ℤ}
use aitp_verifier_py.Text.{Text, txt}
use aitp_verifier_py.Json.{
  Value, Members, get_or_null, at, is_text, truthy, str_type, int_type, list_type,
}
use aitp_verifier_py.Json.Access.{are_texts, list_at, int_at}
use aitp_verifier_py.Outcome.{
  Code, Result, Check, ok, raise_if, ◌>>=◌, ◌>>◌, unknown_version, token_typ_mismatch,
  token_alg_mismatch, delegation_invalid_voucher, delegation_expired,
}
use aitp_verifier_py.Platform.{Platform}
use aitp_verifier_py.Fields.{Types, require_members, check_types, reject_unknown_members}
use aitp_verifier_py.Jws.{Codes, parse_compact, verify_jws}
use aitp_verifier_py.Revocation.{protocol_version}

abbrev pub voucher_claim_fields : List Text
voucher_claim_fields =
    txt "ver"
    ∷ txt "iss"
    ∷ txt "sub"
    ∷ txt "grants"
    ∷ txt "iat"
    ∷ txt "exp"
    ∷ txt "src_jti"
    ∷ txt "ext"
    ∷ []

abbrev pub voucher_required_claims : List Text
voucher_required_claims =
    txt "ver" ∷ txt "iss" ∷ txt "sub" ∷ txt "grants" ∷ txt "iat" ∷ txt "exp" ∷ txt "src_jti" ∷ []

abbrev pub voucher_claim_types : Types
voucher_claim_types =
    (txt "ver", str_type ∷ [])
    ∷ (txt "iss", str_type ∷ [])
    ∷ (txt "sub", str_type ∷ [])
    ∷ (txt "grants", list_type ∷ [])
    ∷ (txt "iat", int_type ∷ [])
    ∷ (txt "exp", int_type ∷ [])
    ∷ (txt "src_jti", str_type ∷ [])
    ∷ []

unfoldable pub check_voucher_claims_shape : Members → Code → Check
check_voucher_claims_shape claims shape_code = do
  require_members claims voucher_required_claims shape_code
  check_types claims voucher_claim_types shape_code
  grants ← list_at (txt "grants") claims
  raise_if (not (are_texts grants)) shape_code
  reject_unknown_members claims voucher_claim_fields

-- `verify_jws` without an `after_typ_check`.
abbrev pub no_check : Members → Check
no_check c = ok tt

module _ ⦃π : Platform⦄ where
  unfoldable pub voucher_codes : Codes
  voucher_codes = record {
    typ_err = token_typ_mismatch;
    alg_err = token_alg_mismatch;
    sig_err = delegation_invalid_voucher;
  }

  unfoldable pub verify_grant_voucher : Members → ℤ → Result Value
  verify_grant_voucher inp now = do
    token ← at (txt "voucher_token") inp
    parsed ← parse_compact token delegation_invalid_voucher
    claims ←
        verify_jws token (get_or_null (txt "iss") parsed.claims) (txt "aitp-grant+jwt")
          voucher_codes no_check
    check_voucher_claims_shape claims delegation_invalid_voucher
    raise_if (not (is_text protocol_version (get_or_null (txt "ver") claims))) unknown_version
    raise_if (not (truthy (get_or_null (txt "grants") claims))) delegation_invalid_voucher
    exp ← int_at (txt "exp") claims
    raise_if (leb_ℤ exp now) delegation_expired
    at (txt "grants") claims
