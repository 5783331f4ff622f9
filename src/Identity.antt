-- ===== src/Identity.antt =====
-- aitp_verifier/identity.py: the entries of a trust store.
pub mod Pinned
pub mod Oidc
pub mod Binding
use aitp_verifier_py.Prelude.{
  Bool, false, ◌&&◌, ◌||◌, Option, none, some, List, [], ◌∷◌, ◌++◌, ◌==◌, length, if◌then◌else◌,
}
use aitp_verifier_py.Text.{Text, Bytes, txt, text_eq, strip_prefix}
use aitp_verifier_py.Json.{Value, str}
use aitp_verifier_py.Outcome.{Result, ok}
use aitp_verifier_py.Platform.{Platform}
use aitp_verifier_py.Crypto.{Alg}
use aitp_verifier_py.Sigfield.{same_alg}
use aitp_verifier_py.Aid.{Aid, parse_aid}

-- `except (ValueError, TypeError): return None`; `parse_aid` of a string raises no other.
unfoldable pub key_of : ⦃π : Platform⦄ → Result Aid → Option (Alg × Bytes)
key_of (ok a) = some (a.alg, a.raw_key)
key_of _ = none

unfoldable pub same_entry : Option (Alg × Bytes) → Option (Alg × Bytes) → Bool
same_entry (some (a, k)) (some (b, l)) = same_alg a b && text_eq k l
same_entry _ _ = false

module _ ⦃π : Platform⦄ where
  unfoldable pub entry_of_text : Text → Option (Alg × Bytes)
  entry_of_text entry = elim (strip_prefix (txt "aid:") entry) [
    | some rest ↦ key_of (parse_aid entry)
    | none ↦
        if length entry == 44
        then key_of (parse_aid (txt "aid:pubkey:p256:" ++ entry))
        else key_of (parse_aid (txt "aid:pubkey:" ++ entry))
  ]

  unfoldable pub trust_store_entry : Value → Option (Alg × Bytes)
  trust_store_entry (str entry) = entry_of_text entry
  trust_store_entry _ = none

  -- `issuer is not None and issuer in trusted`
  unfoldable pub is_trusted : Option (Alg × Bytes) → List Value → Bool
  is_trusted issuer [] = false
  is_trusted issuer (e ∷ es) = same_entry issuer (trust_store_entry e) || is_trusted issuer es
