-- ===== src/B64/Boundary.antt =====
-- The only exception of the decoder is `ValueError`.
use aitp_verifier_py.Text.{Text}
use aitp_verifier_py.Outcome.{
  Code, value_error, on_value_error, IsVerdict, IsVerdictUpTo, up_to_rules,
  on_value_error-IsVerdict,
}
use aitp_verifier_py.B64.{b64url_decode}

pub b64url_decode-up_to : (t : Text) → IsVerdictUpTo value_error (b64url_decode t)
unfolding b64url_decode
b64url_decode-up_to t = search up_to_rules

pub b64url_decode-IsVerdict : (c : Code) (t : Text) → IsVerdict (on_value_error c (b64url_decode t))
b64url_decode-IsVerdict c t = on_value_error-IsVerdict c (b64url_decode-up_to t)
