-- ===== src/Delegation.antt =====
-- aitp_verifier/delegation.py: delegation tokens (RFC-AITP-0006 §4, RFC-AITP-0011).
pub mod Claims
pub mod Denied
pub mod Hops
pub mod Attenuation
pub mod Chain
pub mod Granted
pub mod Source
pub mod Designated
use aitp_verifier_py.Prelude.{Bool, true, false, not, ◌&&◌, Option, none, some, if◌then◌else◌}
use aitp_verifier_py.Prelude.Int.{ℤ, leb_ℤ}
use aitp_verifier_py.Text.{Text, txt, text_eq}
use aitp_verifier_py.Json.{Value, null, str, obj, Members, get_or_null, at, has, is_text, truthy}
use aitp_verifier_py.Json.Access.{text_at, int_at}
use aitp_verifier_py.Outcome.{
  Code, Result, Check, ok, err, raised, raise_if, ◌>>=◌, ◌>>◌, delegation_invalid_signature,
  delegation_audience_mismatch, delegation_expired, delegation_multihop_not_supported,
}
use aitp_verifier_py.Platform.{Platform}
use aitp_verifier_py.Jws.{parse_compact}
use aitp_verifier_py.Delegation.Claims.{verify_root_voucher}
use aitp_verifier_py.Delegation.Denied.{verified_snapshot_bodies, check_source_tct_revocation}
use aitp_verifier_py.Delegation.Hops.{token_claims, verify_multihop}

-- `_reject_v01_object_token`
unfoldable pub reject_v01_object_token : Members → Code
reject_v01_object_token token =
    if truthy (get_or_null (txt "chain") token)
    then delegation_multihop_not_supported
    else delegation_invalid_signature

-- The code for a `delegation_token` that is no string.
unfoldable pub no_token : Value → Value → Code
no_token null (obj token) = reject_v01_object_token token
no_token v delegation = delegation_invalid_signature

module _ ⦃π : Platform⦄ (resolve_key : Value → Value → ℤ → Check) where
  -- The single-hop path.
  unfoldable pub verify_single : Members → Value → Text → ℤ → Result Value
  verify_single inp token self_aid now = do
    claims ← token_claims resolve_key inp token now
    iss ← text_at (txt "iss") claims
    sub ← text_at (txt "sub") claims
    raise_if (text_eq iss sub) delegation_invalid_signature
    raise_if (not (is_text self_aid (get_or_null (txt "aud") claims))) delegation_audience_mismatch
    exp ← int_at (txt "exp") claims
    raise_if (leb_ℤ exp now) delegation_expired
    vclaims ← verify_root_voucher claims self_aid now
    bodies ← verified_snapshot_bodies inp self_aid
    src_jti ← text_at (txt "src_jti") vclaims
    check_source_tct_revocation inp bodies self_aid src_jti now
    at (txt "scope") claims

  -- `isinstance(self_aid, str)`, then the path that the presence of `chain` selects.
  unfoldable pub verify_addressed : Members → Value → Members → Value → ℤ → Result Value
  verify_addressed inp token outer (str self_aid) now =
      if has (txt "chain") outer
      then verify_multihop resolve_key inp token outer self_aid now
      else verify_single inp token self_aid now
  verify_addressed inp token outer _ now = err delegation_audience_mismatch

  unfoldable pub verify_text_token : Members → Value → ℤ → Result Value
  verify_text_token inp token now = do
    parsed ← parse_compact token delegation_invalid_signature
    raise_if
        (has (txt "chain") parsed.claims
          && not
              (is_text (txt "experimental-multihop-delegation") (get_or_null (txt "_feature") inp)))
        delegation_multihop_not_supported
    verify_addressed inp token parsed.claims (get_or_null (txt "self_aid") inp) now

  unfoldable pub verify_supplied : Members → Value → ℤ → Result Value
  verify_supplied inp (str token) now = verify_text_token inp (str token) now
  verify_supplied inp v now = err (no_token v (get_or_null (txt "delegation") inp))

  unfoldable pub verify_delegation_token : Members → ℤ → Result Value
  verify_delegation_token inp now =
      verify_supplied inp (get_or_null (txt "delegation_token") inp) now
