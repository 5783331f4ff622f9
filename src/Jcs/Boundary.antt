-- ===== src/Jcs/Boundary.antt =====
-- What `canonicalize` can raise: `JcsError`, the `UnicodeEncodeError` of a lone surrogate, or the
-- `ValueError` of an integer too long to print.
use aitp_verifier_py.Text.{Text}
use aitp_verifier_py.Outcome.{Result, ok, raised, jcs_error, unicode_error, value_error}
use aitp_verifier_py.Platform.{Platform}

-- A step of canonicalization: it returns, or raises one of three.
data Canonical {ℓ} {A : Type ℓ} : Result A → Type ℓ where
  done : (a : A) → Canonical (ok a)
  not_json : Canonical (raised jcs_error)
  not_text : Canonical (raised unicode_error)
  not_printed : Canonical (raised value_error)
