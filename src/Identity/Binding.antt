-- ===== src/Identity/Binding.antt =====
-- `verify_identity` of aitp_verifier/identity.py: the member set, then the branch of the type.
use aitp_verifier_py.Prelude.{◌&&◌, ◌||◌, List, [], ◌∷◌, any, if◌then◌else◌}
use aitp_verifier_py.Prelude.Int.{ℤ}
use aitp_verifier_py.Text.{Text, txt}
use aitp_verifier_py.Json.{Value, Members, get_or_null, has, is_text}
use aitp_verifier_py.Outcome.{Check, err, raise_if, ◌>>◌, identity_failed}
use aitp_verifier_py.Platform.{Platform}
use aitp_verifier_py.Fields.{reject_unknown_members}
use aitp_verifier_py.Identity.Oidc.{is_set, verify_oidc}
use aitp_verifier_py.Identity.Pinned.{verify_pinned_key}

abbrev pub identity_fields : List Text
identity_fields =
    txt "type"
    ∷ txt "issuer"
    ∷ txt "subject"
    ∷ txt "proof"
    ∷ txt "public_key"
    ∷ txt "svid_type"
    ∷ txt "x5c"
    ∷ txt "extensions"
    ∷ []

abbrev pub spiffe_only_fields : List Text
spiffe_only_fields = txt "svid_type" ∷ txt "x5c" ∷ []

-- The receiver's policy that a binding is checked against.
pub record Policy : Type 0 where
  pub self_aid : Value
  pub trust_anchors : List Text
  pub trust_store : Value
  pub issuer_keys : Value
  pub spiffe_bundles : Value

-- `verify_spiffe identity envelope self_aid spiffe_bundles now` is `verify_spiffe` of
-- aitp_verifier/spiffe.py.
module _ ⦃π : Platform⦄ (verify_spiffe : Members → Members → Value → Value → ℤ → Check) where
  -- The branches after the draft type.
  unfoldable pub verify_core_type : Value → Members → Members → Policy → ℤ → Check
  verify_core_type itype identity envelope policy now =
      raise_if
        ((is_text (txt "oidc") itype || is_text (txt "pinned_key") itype)
          && any (λ k. has k identity) spiffe_only_fields)
        identity_failed
      >> (if is_text (txt "oidc") itype
          then verify_oidc identity envelope policy.self_aid policy.trust_anchors policy.issuer_keys
              now
          else if is_text (txt "pinned_key") itype
          then verify_pinned_key identity envelope policy.self_aid policy.trust_store
          else err identity_failed)

  unfoldable pub verify_identity : Members → Members → Policy → ℤ → Check
  verify_identity identity envelope policy now = do
    reject_unknown_members identity identity_fields
    let itype = get_or_null (txt "type") identity
    if is_text (txt "spiffe") itype && is_set policy.spiffe_bundles
        then verify_spiffe identity envelope policy.self_aid policy.spiffe_bundles now
        else verify_core_type itype identity envelope policy now
