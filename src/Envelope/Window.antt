-- ===== src/Envelope/Window.antt =====
-- The replay window of aitp_verifier/envelope.py against the numbers that its shape check lets pass.
use aitp_verifier_py.Prelude.{◌≡◌, some}
use aitp_verifier_py.Prelude.Int.{ℤ}
use aitp_verifier_py.Text.{txt}
use aitp_verifier_py.Json.{float, obj, Float, Members, get, get_or_null}
use aitp_verifier_py.Platform.{Platform}
use aitp_verifier_py.Json.Access.Laws.{at-eq_of_get}
use aitp_verifier_py.Envelope.{outside_window, timestamp_of, check_signed, verify_envelope}

module _ ⦃π : Platform⦄ where
  signed_timeless :
      (inp env : Members) (f : Float) (now later : ℤ)
      → get (txt "envelope") inp ≡ some (obj env)
      → get_or_null (txt "timestamp") env ≡ float f
      → check_signed inp now ≡ check_signed inp later
  unfolding check_signed timestamp_of outside_window
  signed_timeless inp env f now later e ts = rw (at-eq_of_get (txt "envelope") inp (obj env) e, ts)

  -- An envelope whose `timestamp` is a JSON float gets the same verdict at every time: the window of
  -- `verify_envelope` never runs on it, although the shape check admits a whole float.
  pub verify_envelope-timeless :
      (inp env : Members) (f : Float) (now later : ℤ)
      → get (txt "envelope") inp ≡ some (obj env)
      → get_or_null (txt "timestamp") env ≡ float f
      → verify_envelope inp now ≡ verify_envelope inp later
  unfolding verify_envelope
  verify_envelope-timeless inp env f now later e ts = rw (signed_timeless inp env f now later e ts)
